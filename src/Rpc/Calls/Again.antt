-- ===== src/Rpc/Calls/Again.antt =====
-- `rpc_write`, and `rpc_read` at the same place.
use client_server_file_syste.Base.{
  ℕ, ◌<◌, ◌^◌, ◌≡◌, sym, ap, ◌∙◌, [], ◌++◌, take, drop, length, c_string, Bytes,
}
use client_server_file_syste.Base.Int.{ℤ, pos, neg}
use client_server_file_syste.Sys.{Os}
use client_server_file_syste.Sys.Laws.{View}
use client_server_file_syste.Sys.Reading.{IsReading}
use client_server_file_syste.Sys.Writing.{Overwritten, IsWriting}
use client_server_file_syste.Sys.Back.{read_back}
use client_server_file_syste.Server.Paths.{server_path}
use client_server_file_syste.Rpc.Retry.Outcome.{IsRpc}
use client_server_file_syste.Rpc.Calls.{Stub, rpc_write, rpc_read}
use client_server_file_syste.Rpc.Calls.Written.{
  write_request, Reported, serve_write, rpc_write-Overwritten,
}
use client_server_file_syste.Rpc.Calls.Slice.{
  read_request, serve_read, ReadOutcome, empty, failed, read, rpc_read-ReadOutcome,
}

-- What a read gives of the first `n` bytes that were written: nothing, an error, or bytes that
-- agree with them as far as both go, and what follows the bytes that were read in memory.
pub data Agrees (n : ℕ) (written into heap : Bytes) : ℤ × Bytes → Type 0 where
  nothing : Agrees n written into heap (pos 0, [])
  failure : (e : ℕ) → Agrees n written into heap (neg e, into)
  agree :
      (got : Bytes)
      → take n got ≡ take (length got) (take n written)
      → Agrees n written into heap (pos (length got), c_string (got ++ heap))

module _ {os : Os} (v : View os) where
  Overwritten-Agrees :
      {root path buf into heap : Bytes} {n size offset : ℕ} {d e : os.Disk} {out : ℤ × Bytes}
      → Overwritten v (server_path root path) offset buf n d e
      → ReadOutcome v root heap path into size offset e out
      → Agrees n buf into heap out
  Overwritten-Agrees over empty = nothing
  Overwritten-Agrees over (failed x) = failure x
  Overwritten-Agrees {root = root} {path = path} {buf = buf} {n = n} {size = size} {offset = offset}
        over (read got part) =
      let named = sym (over.names (server_path root path)) ∙ part.named in
      agree got (
        read_back n part.k size offset buf _ got over.within (
          part.part
          ∙ ap (λ b. take part.k (take size (drop offset b))) (over.target part.file named)))

module _ (os : Os) (v : View os) (inode : os.Disk → ℕ → ℕ) (writing : IsWriting v inode)
    (reading : IsReading v inode) (root heap behind : Bytes) {S : Type 0} (stub : Stub S)
    (disk : S → os.Disk) where
  -- Of a call of `rpc_write`, and then one of `rpc_read` at the same offset, of which grpc runs
  -- each attempt at most once, before the attempt ends, with bytes that are none of them zero,
  -- fewer than 2^32, whatever stands behind them in the client's memory, at an offset below 2^31,
  -- on a server whose pwrite and pread may be short, and where the buffer for the path that is
  -- read is empty: the write gives an error or a count, and of the first bytes, at least as many
  -- as that count, the read gives nothing, or an error, or bytes that agree with them as far as
  -- both go, with what follows in the server's memory behind them.
  pub written_read :
      (path buf beyond into : Bytes) (size offset : ℕ) (s : S)
      → length buf < 2 ^ 32
      → size < 2 ^ 32
      → c_string buf ≡ buf
      → offset < 2 ^ 31
      → IsRpc
          (stub.write (write_request path buf beyond offset))
          disk
          (serve_write os root behind (write_request path buf beyond offset))
      → IsRpc
          (stub.read (read_request path size offset))
          disk
          (serve_read os root heap (read_request path size offset))
      → let (res, s') = rpc_write stub path (buf ++ beyond) (length buf) offset s in
        let (out, s'') = rpc_read stub path into size offset s' in
        (n : ℕ) × Reported n res × Agrees n buf into heap out
  written_read path buf beyond into size offset s short small text low write_rpc read_rpc =
      let (n, over, reported) =
        rpc_write-Overwritten os v inode writing root behind stub disk path buf beyond offset s
          short text low write_rpc in
      let s' = (rpc_write stub path (buf ++ beyond) (length buf) offset s).1 in
      (
        n,
        reported,
        Overwritten-Agrees v over
            (rpc_read-ReadOutcome os v inode reading root heap path into size offset small stub disk
              s' read_rpc).1,
      )
