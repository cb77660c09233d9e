-- ===== src/Rpc/Calls/Down.antt =====
-- What the calls report when no attempt is answered before its deadline.
use client_server_file_syste.Base.{
  ℕ, zero, suc, ◌≡◌, refl, ap, ◌∙◌, Bool, none, List, [], Bytes, c_string, arith,
}
use client_server_file_syste.Base.Int.{pos}
use client_server_file_syste.Sys.{Stat, zero_stat, Time}
use client_server_file_syste.Messages.{
  Code, deadline_exceeded, u32, Dirent, FuseFileInfo, ReadRequest, WriteRequest, CreateRequest,
  MkdirRequest, RenameRequest, UtimensRequest, MknodRequest,
}
use client_server_file_syste.Rpc.Retry.{
  Call, grow, retry, request, max_num_retries, initial_backoff_ms,
}
use client_server_file_syste.Rpc.Calls.{
  Stub, Listing, open_request, readdir_attempt, read_entries, rpc_getattr, rpc_readdir, rpc_open,
  rpc_read, rpc_write, rpc_create, rpc_mkdir, rpc_rmdir, rpc_unlink, rpc_rename, rpc_utimens,
  rpc_mknod,
}

abbrev pub IsSilent : {S R : Type 0} → Call S R → Type 0
IsSilent {S = S} call = (backoff : ℕ) (s : S) → (call backoff s).0 ≡ (deadline_exceeded, none)

pub record IsDown {S : Type 0} (stub : Stub S) : Type 0 where
  pub getattr : (path : Bytes) → IsSilent (stub.getattr path)
  pub readdir :
      (path : Bytes) (backoff : ℕ) (s : S)
      → (stub.readdir path backoff s).0 ≡ (deadline_exceeded, [])
  pub open_file : (m : FuseFileInfo) → IsSilent (stub.open_file m)
  pub read : (m : ReadRequest) → IsSilent (stub.read m)
  pub write : (m : WriteRequest) → IsSilent (stub.write m)
  pub create : (m : CreateRequest) → IsSilent (stub.create m)
  pub mkdir : (m : MkdirRequest) → IsSilent (stub.mkdir m)
  pub rmdir : (path : Bytes) → IsSilent (stub.rmdir path)
  pub unlink : (path : Bytes) → IsSilent (stub.unlink path)
  pub rename : (m : RenameRequest) → IsSilent (stub.rename m)
  pub utimens : (m : UtimensRequest) → IsSilent (stub.utimens m)
  pub mknod : (m : MknodRequest) → IsSilent (stub.mknod m)

module _ {S R : Type 0} (call : Call S R) where
  silent_last :
      (backoff : ℕ) (result : R) (s : S)
      → IsSilent call
      → ((retry call zero backoff result s).0.result ≡ result)
        × ((retry call zero backoff result s).1 ≡ (call backoff s).1)
  unfolding retry
  silent_last backoff result s h = ground (arith, h backoff s)

  silent_more :
      (left backoff : ℕ) (result : R) (s : S)
      → IsSilent call
      → let rest = retry call left (grow backoff) result (call backoff s).1 in
        ((retry call (suc left) backoff result s).0.result ≡ rest.0.result)
        × ((retry call (suc left) backoff result s).1 ≡ rest.1)
  unfolding retry
  silent_more left backoff result s h = ground (arith, h backoff s)

  -- A call that is never answered leaves the variable for the reply as it was, and with it all
  -- that an unanswered attempt leaves alone.
  retry-silent :
      {X : Type 0} (kept : S → X) (left backoff : ℕ) (result : R) (s : S)
      → IsSilent call
      → ((b : ℕ) (t : S) → kept (call b t).1 ≡ kept t)
      → ((retry call left backoff result s).0.result ≡ result)
        × (kept (retry call left backoff result s).1 ≡ kept s)
  retry-silent kept zero backoff result s h k =
      let (r, t) = silent_last backoff result s h in (r, ap kept t ∙ k backoff s)
  retry-silent kept (suc left) backoff result s h k =
      let (r, t) = silent_more left backoff result s h in
      let (r', t') = retry-silent kept left (grow backoff) result (call backoff s).1 h k in
      (r ∙ r', ap kept t ∙ (t' ∙ k backoff s))

  request-silent : (result : R) (s : S) → IsSilent call → (request call result s).0.result ≡ result
  request-silent result s h =
      (retry-silent (λ (t : S). tt {0}) max_num_retries initial_backoff_ms result s h
        (λ b t. refl)).0

module _ {S : Type 0} (stub : Stub S) where
  listing-silent :
      {F : Type 0} (filler : Bytes → Stat → F → Bool × F) (path : Bytes) (s : S) (l : Listing F)
      → IsDown stub
      → (request (readdir_attempt stub filler path) tt (s, l)).1.1 ≡ l
  unfolding readdir_attempt read_entries
  listing-silent filler path s l h =
      (retry-silent (readdir_attempt stub filler path) (λ t. t.1) max_num_retries initial_backoff_ms
        tt (s, l) (λ b t. ap (λ (x : Code × List Dirent). (x.0, none)) (h.readdir path b t.0))
        (λ b t. rw (h.readdir path b t.0) refl)).1

  -- Against a server that answers no attempt before its deadline, every call reports success:
  -- `rpc_getattr` with attributes that are all zero, `rpc_readdir` with nothing filled in,
  -- `rpc_open` and `rpc_create` with the handle 0, `rpc_read` and `rpc_write` with a count of 0.
  pub down_reports_success :
      {F : Type 0} (filler : Bytes → Stat → F → Bool × F) (buf : F) (path to text : Bytes)
      (mode flags fh size offset : ℕ) (atim mtim : Time) (s : S)
      → IsDown stub
      → ((rpc_getattr stub path s).0 ≡ (pos 0, zero_stat))
        × ((rpc_readdir stub filler path buf s).0 ≡ (pos 0, buf))
        × ((rpc_open stub path flags fh s).0 ≡ (pos 0, 0))
        × ((rpc_read stub path text size offset s).0 ≡ (pos 0, []))
        × ((rpc_write stub path text size offset s).0 ≡ pos 0)
        × ((rpc_create stub path mode flags fh s).0 ≡ (pos 0, 0))
        × ((rpc_mkdir stub path mode s).0 ≡ pos 0)
        × ((rpc_rmdir stub path s).0 ≡ pos 0)
        × ((rpc_unlink stub path s).0 ≡ pos 0)
        × ((rpc_rename stub path to flags s).0 ≡ pos 0)
        × ((rpc_utimens stub path atim mtim s).0 ≡ pos 0)
        × ((rpc_mknod stub path mode size s).0 ≡ pos 0)
  unfolding rpc_getattr rpc_readdir rpc_open rpc_read rpc_write rpc_create rpc_mkdir rpc_rmdir
      rpc_unlink rpc_rename rpc_utimens rpc_mknod
  down_reports_success filler buf path to text mode flags fh size offset atim mtim s h = (
    rw (request-silent (stub.getattr path) _ s (h.getattr path)) refl,
    rw (listing-silent filler path s _ h) refl,
    rw
        (request-silent (stub.open_file (open_request path flags)) _ s
          (h.open_file (open_request path flags)))
        refl,
    rw
        (request-silent (stub.read (record { path = path; size = u32 size; offset = offset })) _ s
          (h.read (record { path = path; size = u32 size; offset = offset })))
        refl,
    rw
        (request-silent
          (stub.write
            (record { path = path; size = u32 size; offset = u32 offset; buffer = c_string text }))
          _ s
          (h.write
            (record { path = path; size = u32 size; offset = u32 offset; buffer = c_string text })))
        refl,
    rw
        (request-silent (stub.create (record { path = path; mode = mode; flags = flags })) _ s
          (h.create (record { path = path; mode = mode; flags = flags })))
        refl,
    rw
        (request-silent (stub.mkdir (record { s = path; mode = mode })) _ s
          (h.mkdir (record { s = path; mode = mode })))
        refl,
    rw (request-silent (stub.rmdir path) _ s (h.rmdir path)) refl,
    rw (request-silent (stub.unlink path) _ s (h.unlink path)) refl,
    rw
        (request-silent (stub.rename (record { fp = path; tp = to; flag = flags })) _ s
          (h.rename (record { fp = path; tp = to; flag = flags })))
        refl,
    rw
        (request-silent
          (stub.utimens (record {
            path = path;
            sec = u32 atim.sec;
            nsec = atim.nsec;
            sec2 = u32 mtim.sec;
            nsec2 = mtim.nsec;
          }))
          _ s
          (h.utimens (record {
            path = path;
            sec = u32 atim.sec;
            nsec = atim.nsec;
            sec2 = u32 mtim.sec;
            nsec2 = mtim.nsec;
          })))
        refl,
    rw
        (request-silent (stub.mknod (record { path = path; mode = mode; rdev = u32 size })) _ s
          (h.mknod (record { path = path; mode = mode; rdev = u32 size })))
        refl,
  )
