-- ===== src/Rpc/Calls/Slice.antt =====
-- `rpc_read` against the handler that its attempts reach.
use client_server_file_syste.Base.{
  ℕ, zero, suc, ◌<◌, ◌^◌, ◌≡◌, refl, ap, subst, inl, inr, if◌then◌else◌, [], ◌∷◌, length, ◌++◌,
  Bool, true, false, Bytes, c_string, arith, if_either, ◌==◌,
}
use client_server_file_syste.Base.Int.{ℤ, pos, neg}
use client_server_file_syste.Sys.{Os}
use client_server_file_syste.Sys.Laws.{View, Same}
use client_server_file_syste.Sys.Contents.{Same-refl, Same-then}
use client_server_file_syste.Sys.Reading.{IsPart, IsPart-Same, IsReading}
use client_server_file_syste.Messages.{u32, ReadRequest, ReadResult}
use client_server_file_syste.Server.Paths.{server_path}
use client_server_file_syste.Server.Files.{afsfuse_read}
use client_server_file_syste.Server.Files.Slice.{Answered, afsfuse_read-Served}
use client_server_file_syste.Rpc.Retry.Outcome.{Ran-kept, IsRpc, request-Ran}
use client_server_file_syste.Rpc.Retry.{Answer, request}
use client_server_file_syste.Rpc.Calls.{Stub, rpc_read}

-- What the client sends.
abbrev pub read_request : Bytes → ℕ → ℕ → ReadRequest
read_request path size offset = record { path = path; size = u32 size; offset = offset }

c_string_twice : (s : Bytes) → c_string (c_string s) ≡ c_string s
c_string_twice [] = refl
c_string_twice (zero ∷ s) = refl
c_string_twice (suc c ∷ s) = ap (◌∷◌ (suc c)) (c_string_twice s)

-- The end of `rpc_read`.
abbrev read_result : Bytes → ReadResult → ℤ × Bytes
read_result buf r = if r.err == 0 then (pos r.bytesread, c_string r.buffer) else (neg r.err, buf)

if_both {ℓ κ} :
    {A : Type ℓ} {B : Type κ} (c : Bool) (x y : A) (b : B)
    → let same : A × B = (if c then x else y, b) in (if c then (x, b) else (y, b)) ≡ same
if_both true x y b = refl
if_both false x y b = refl

module _ (os : Os) (root heap : Bytes) where
  -- The reply of the handler, and the server behind it; the buffer for the path was empty.
  abbrev pub serve_read : ReadRequest → os.Disk → ReadResult × os.Disk
  serve_read rr d = let ((c, r), d') = afsfuse_read os root [] heap rr d in (r, d')

module _ {os : Os} (v : View os) (root heap : Bytes) where
  -- What a call reports, and the string that is left in `buf`.
  pub data ReadOutcome (path buf : Bytes) (size offset : ℕ) (d : os.Disk) : ℤ × Bytes → Type 0 where
    empty : ReadOutcome path buf size offset d (pos 0, [])
    failed : (e : ℕ) → ReadOutcome path buf size offset d (neg e, buf)
    read :
        (got : Bytes)
        → IsPart v (server_path root path) size offset d got
        → ReadOutcome path buf size offset d (pos (length got), c_string (got ++ heap))

module _ (os : Os) (v : View os) (inode : os.Disk → ℕ → ℕ) (law : IsReading v inode)
    (root heap : Bytes) where
  module _ (path buf : Bytes) (size offset : ℕ) (short : size < 2 ^ 32) where
    reply-ReadOutcome :
        (d e : os.Disk) (r : ReadResult)
        → Same v d e
        → Answered v root heap (read_request path size offset) e r
        → ReadOutcome v root heap path buf size offset d (read_result buf r)
    reply-ReadOutcome d e r same (inl (x, h)) =
        rw h (if_either (ReadOutcome v root heap path buf size offset d) (x == 0) empty (failed x))
    reply-ReadOutcome d e r same (inr (got, part, h)) =
        let fits : u32 size ≡ size = omega (arith, short) in
        rw (h, c_string_twice (got ++ heap))
          (read got (
            subst (λ n. IsPart v (server_path root path) n offset d got) fits
              (IsPart-Same v same part)))

    module _ {S : Type 0} (stub : Stub S) (disk : S → os.Disk) where
      abbrev attempts : S → Answer ReadResult × S
      attempts s =
          request (stub.read (read_request path size offset))
            (record { bytesread = 0; buffer = []; err = 0 }) s

      rpc_read-result :
          (s : S)
          → rpc_read stub path buf size offset s
            ≡ (read_result buf (attempts s).0.result, (attempts s).1)
      unfolding rpc_read
      rpc_read-result s =
          let r = (attempts s).0.result in
          if_both (r.err == 0) (pos r.bytesread, c_string r.buffer) (neg r.err, buf) (attempts s).1

      -- A call of `rpc_read` for fewer than 2^32 bytes, of which grpc runs each attempt at most
      -- once, before the attempt ends, on a server whose pread may be short, and where the buffer
      -- for the path is empty: no file and no name of the server changes, and the call gives one
      -- of three: a count of 0 and an empty string; the negated number of an error, and `buf` as
      -- it was; or the number of bytes of a beginning of what the file holds at the offset, and a
      -- string of these bytes and of what follows them in the server's memory, which ends before
      -- the first zero byte.
      pub rpc_read-ReadOutcome :
          (s : S)
          → IsRpc
              (stub.read (read_request path size offset))
              disk
              (serve_read os root heap (read_request path size offset))
          → let (res, s') = rpc_read stub path buf size offset s in
            Same v (disk s) (disk s') × ReadOutcome v root heap path buf size offset (disk s) res
      rpc_read-ReadOutcome s rpc =
          let (same, reply) =
            Ran-kept (λ e. Same v (disk s) e)
              (λ x same.
                Same-then v _ _ _ same
                  (afsfuse_read-Served os v inode law root heap (read_request path size offset)
                    x).0)
              (Same-refl v (disk s))
              (request-Ran (stub.read (read_request path size offset)) disk
                (serve_read os root heap (read_request path size offset))
                (record { bytesread = 0; buffer = []; err = 0 }) s rpc) in
          rw (rpc_read-result s) (
            same,
            elim reply [
              | inl h ↦ reply-ReadOutcome (disk s) (disk s) _ (Same-refl v (disk s)) (inl (0, h))
              | inr (x, same, h) ↦ reply-ReadOutcome (disk s) x (attempts s).0.result same (
                  rw h
                    (afsfuse_read-Served os v inode law root heap (read_request path size offset)
                      x).1)
            ],
          )
