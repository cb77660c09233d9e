-- ===== src/Rpc/Calls/Written.antt =====
-- `rpc_write` against the handler that its attempts reach.
use client_server_file_syste.Base.{
  [], ◌∷◌, ◌++◌, drop, ℕ, zero, suc, ◌<◌, ◌≤◌, ◌^◌, ◌≡◌, refl, ap, subst, ◌⊎◌, inl, inr, Bytes,
  c_string, length, arith, if_either, ◌==◌,
}
use client_server_file_syste.Base.Int.{ℤ, pos, neg}
use client_server_file_syste.Sys.{Os}
use client_server_file_syste.Sys.Laws.{View}
use client_server_file_syste.Sys.Contents.{Same-refl}
use client_server_file_syste.Sys.Writing.{
  Overwritten, Overwritten-then, Overwritten-Same, IsWriting, larger_left,
}
use client_server_file_syste.Messages.{u32, WriteRequest, WriteResult}
use client_server_file_syste.Server.Paths.{server_path}
use client_server_file_syste.Server.Files.{afsfuse_write}
use client_server_file_syste.Server.Files.Written.{Carried, afsfuse_write-Answered}
use client_server_file_syste.Rpc.Retry.Outcome.{Ran, silent, replied, after, IsRpc, request-Ran}
use client_server_file_syste.Rpc.Calls.{Stub, rpc_write}

-- What the client sends of `buf`, behind which `beyond` stands in its memory.
abbrev pub write_request : Bytes → Bytes → Bytes → ℕ → WriteRequest
write_request path buf beyond offset = record {
  path = path;
  size = u32 (length buf);
  offset = u32 offset;
  buffer = c_string (buf ++ beyond);
}

tail_kept : (c : ℕ) (s : Bytes) → c_string (suc c ∷ s) ≡ suc c ∷ s → c_string s ≡ s
tail_kept c s h = ap (drop 1) h

-- `set_buffer` goes on behind bytes of which none is zero.
c_string-append : (s rest : Bytes) → c_string s ≡ s → c_string (s ++ rest) ≡ s ++ c_string rest
c_string-append [] rest h = refl
c_string-append (zero ∷ s) rest h = absurd (ground (arith, ap length h))
c_string-append (suc c ∷ s) rest h = ap (◌∷◌ (suc c)) (c_string-append s rest (tail_kept c s h))

-- A count of at most `n` bytes, or an error.
abbrev pub Reported : ℕ → ℤ → Type 0
Reported n res = ((k : ℕ) × (k ≤ n) × (res ≡ pos k)) ⊎ ((e : ℕ) × (res ≡ neg e))

module _ (os : Os) (root heap : Bytes) where
  -- The reply of the handler, and the server behind it.
  abbrev pub serve_write : WriteRequest → os.Disk → WriteResult × os.Disk
  serve_write wr d = let ((c, r), d') = afsfuse_write os root heap wr d in (r, d')

module _ (os : Os) (v : View os) (inode : os.Disk → ℕ → ℕ) (law : IsWriting v inode)
    (root heap : Bytes) where
  module _ (b : Bytes) (wr : WriteRequest) (carried : Carried b wr) where
    abbrev Shows : ℕ → os.Disk → os.Disk → Type 0
    Shows n d e = Overwritten v (server_path root wr.path) wr.offset b n d e

    after-Overwritten :
        (n : ℕ) (d : os.Disk) → (k : ℕ) × Shows k d (after (serve_write os root heap wr) n d)
    after-Overwritten zero d = (0, Overwritten-Same v (Same-refl v d))
    after-Overwritten (suc n) d =
        let (k, rest) = after-Overwritten n (serve_write os root heap wr d).1 in
        (
          _,
          Overwritten-then v (afsfuse_write-Answered os v inode law root heap b wr d carried) rest,
        )

    Ran-Overwritten :
        {max : ℕ} {d e : os.Disk} {r : WriteResult}
        → Ran (serve_write os root heap wr) max d (record { nbytes = 0; err = 0 }) r e
        → (k : ℕ) × Shows k d e × (r.nbytes ≤ k)
    Ran-Overwritten {d = d} (silent n h) =
        let (k, shows) = after-Overwritten n d in (k, shows, omega arith)
    Ran-Overwritten {d = d} (replied n h) =
        let (k, shows) = after-Overwritten n d in
        (
          _,
          Overwritten-then v shows (
              afsfuse_write-Answered os v inode law root heap b wr
                (after (serve_write os root heap wr) n d) carried),
          larger_left _ k,
        )

  module _ {S : Type 0} (stub : Stub S) (disk : S → os.Disk) where
    -- A call of `rpc_write`, of which grpc runs each attempt at most once, before the attempt
    -- ends, with bytes that are none of them zero, fewer than 2^32, whatever stands behind them
    -- in the client's memory, at an offset below 2^31, on a server whose pwrite may be short:
    -- however often it was run, the server's file, if there is one, holds a beginning of the
    -- bytes at the offset, over what it held before; no other file and no name has changed; and
    -- the result is an error, or a count of no more bytes than that beginning has.
    pub rpc_write-Overwritten :
        (path buf beyond : Bytes) (offset : ℕ) (s : S)
        → length buf < 2 ^ 32
        → c_string buf ≡ buf
        → offset < 2 ^ 31
        → IsRpc
            (stub.write (write_request path buf beyond offset))
            disk
            (serve_write os root heap (write_request path buf beyond offset))
        → let (res, s') = rpc_write stub path (buf ++ beyond) (length buf) offset s in
          (n : ℕ) × Overwritten v (server_path root path) offset buf n (disk s) (disk s')
          × Reported n res
    unfolding rpc_write
    rpc_write-Overwritten path buf beyond offset s short text low rpc =
        let fits : u32 (length buf) ≡ length buf = omega (arith, short) in
        let there : u32 offset ≡ offset = omega (arith, low) in
        let (n, shows, counted) =
          Ran-Overwritten buf (write_request path buf beyond offset)
            ((c_string beyond, c_string-append buf beyond text), fits, rw there low)
            (request-Ran (stub.write (write_request path buf beyond offset)) disk
              (serve_write os root heap (write_request path buf beyond offset))
              (record { nbytes = 0; err = 0 }) s rpc) in
        let e = disk (rpc_write stub path (buf ++ beyond) (length buf) offset s).1 in
        (
          n,
          subst (λ o. Overwritten v (server_path root path) o buf n (disk s) e) there shows,
          if_either (Reported n) (_ == 0) (inl (_, counted, refl)) (inr (_, refl)),
        )
