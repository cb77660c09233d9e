-- ===== src/Rpc/Calls.antt =====
-- AFS/AfsClient.h: the calls `rpc_getattr` to `rpc_mknod`. Each sends one message, again on a
-- deadline that is exceeded, and turns the reply into the `int` that FUSE expects.
pub mod Down
pub mod Executed
pub mod Listed
pub mod Once
pub mod Slice
pub mod Written
pub mod Again
use client_server_file_syste.Base.{
  ℕ, ◌*◌, ◌%◌, ◌==◌, if◌then◌else◌, Bool, true, false, Option, none, some, List, [], ◌∷◌, Bytes,
  c_string,
}
use client_server_file_syste.Base.Int.{ℤ, pos, neg}
use client_server_file_syste.Sys.{Stat, zero_stat, Time}
use client_server_file_syste.Messages.{
  Code, u32, sign_extend, StatReply, empty_stat, Dirent, FuseFileInfo, ReadRequest, ReadResult,
  WriteRequest, WriteResult, CreateRequest, CreateResult, MkdirRequest, OutputInfo, empty_info,
  RenameRequest, UtimensRequest, MknodRequest,
}
use client_server_file_syste.Rpc.Retry.{Call, Answer, request}

-- `AFS::Stub`, which grpc generates: one attempt of each call. `S` is what the attempt may change.
-- A stream of replies comes as the messages that arrive before it ends.
pub record Stub (S : Type 0) : Type 0 where
  pub getattr : Bytes → Call S StatReply
  pub readdir : Bytes → ℕ → S → (Code × List Dirent) × S
  pub open_file : FuseFileInfo → Call S FuseFileInfo
  pub read : ReadRequest → Call S ReadResult
  pub write : WriteRequest → Call S WriteResult
  pub create : CreateRequest → Call S CreateResult
  pub mkdir : MkdirRequest → Call S OutputInfo
  pub rmdir : Bytes → Call S OutputInfo
  pub unlink : Bytes → Call S OutputInfo
  pub rename : RenameRequest → Call S OutputInfo
  pub utimens : UtimensRequest → Call S OutputInfo
  pub mknod : MknodRequest → Call S OutputInfo

-- The assignments to `*output`, on what `memset` cleared.
abbrev pub stat_of_reply : StatReply → Stat
stat_of_reply r = record {
  ino = r.ino;
  mode = r.mode;
  nlink = r.nlink;
  uid = r.uid;
  gid = r.gid;
  size = r.size;
  blksize = r.blksize;
  blocks = r.blocks;
  atim = record { sec = r.atimtvsec; nsec = r.atimtvnsec };
  mtim = record { sec = r.mtimtvsec; nsec = r.mtimtvnsec };
  ctim = record { sec = sign_extend r.ctime; nsec = 0 };
}

-- The end of `rpc_getattr`: the result, and `*output`.
abbrev pub stat_result : StatReply → ℤ × Stat
stat_result r = if r.err == 0 then (pos 0, stat_of_reply r) else (neg r.err, zero_stat)

-- What `rpc_readdir` keeps over its attempts: the last message, and the filled buffer.
pub record Listing (F : Type 0) : Type 0 where
  pub last : Dirent
  pub filled : F

abbrev pub no_dirent : Dirent
no_dirent = record { dino = 0; dname = []; dtype = 0; err = 0 }

module _ {F : Type 0} (filler : Bytes → Stat → F → Bool × F) where
  -- `while (reader->Read(&result))`; the filler says whether its buffer is full.
  unfoldable pub read_entries : List Dirent → Listing F → Listing F
  read_entries [] l = l
  read_entries (e ∷ es) l =
      let (full, filled) =
        filler (c_string e.dname) (record zero_stat { ino = e.dino; mode = e.dtype % 256 * 4096 })
          l.filled in
      elim full [
        | true ↦ record { last = e; filled = filled }
        | false ↦ read_entries es (record { last = e; filled = filled })
      ]

-- `FuseFileInfo` as the client sends it.
abbrev pub open_request : Bytes → ℕ → FuseFileInfo
open_request path flags = record { flags = flags; fh = 0; err = 0; path = path }

module _ {S : Type 0} (stub : Stub S) where
  -- `return -result.err();`
  abbrev pub negated : Answer OutputInfo × S → ℤ × S
  negated (a, s) = (neg a.result.err, s)

  unfoldable pub rpc_getattr : Bytes → S → (ℤ × Stat) × S
  rpc_getattr path s =
      let (a, s') = request (stub.getattr path) empty_stat s in (stat_result a.result, s')

  -- One attempt of `rpc_readdir`. It has no reply of its own: what arrives goes to the listing.
  unfoldable pub readdir_attempt :
      {F : Type 0} → (Bytes → Stat → F → Bool × F) → Bytes → Call (S × Listing F) (Unit {0})
  unfolding read_entries
  readdir_attempt filler path backoff (s, l) =
      let ((code, entries), s') = stub.readdir path backoff s in
      ((code, none), (s', read_entries filler entries l))

  unfoldable pub rpc_readdir :
      {F : Type 0} → (Bytes → Stat → F → Bool × F) → Bytes → F → S → (ℤ × F) × S
  unfolding readdir_attempt
  rpc_readdir filler path buf s =
      let (_, (s', l)) =
        request (readdir_attempt filler path) tt (s, record { last = no_dirent; filled = buf }) in
      ((neg l.last.err, l.filled), s')

  -- The flags, and `fi->fh` before and behind the call.
  unfoldable pub rpc_open : Bytes → ℕ → ℕ → S → (ℤ × ℕ) × S
  rpc_open path flags fh s =
      let (a, s') = request (stub.open_file (open_request path flags)) (open_request [] 0) s in
      ((neg a.result.err, if a.result.err == 0 then a.result.fh else fh), s')

  -- The string in `buf` before and behind the call.
  unfoldable pub rpc_read : Bytes → Bytes → ℕ → ℕ → S → (ℤ × Bytes) × S
  rpc_read path buf size offset s =
      let (a, s') =
        request (stub.read (record { path = path; size = u32 size; offset = offset }))
          (record { bytesread = 0; buffer = []; err = 0 }) s in
      if a.result.err == 0
      then ((pos a.result.bytesread, c_string a.result.buffer), s')
      else ((neg a.result.err, buf), s')

  -- `buf` is the memory from that pointer on, also behind `size` bytes: `set_buffer(buf)` ends at
  -- the first zero byte there.
  unfoldable pub rpc_write : Bytes → Bytes → ℕ → ℕ → S → ℤ × S
  rpc_write path buf size offset s =
      let (a, s') =
        request
          (stub.write
            (record { path = path; size = u32 size; offset = u32 offset; buffer = c_string buf }))
          (record { nbytes = 0; err = 0 }) s in
      (if a.result.err == 0 then pos a.result.nbytes else neg a.result.err, s')

  unfoldable pub rpc_create : Bytes → ℕ → ℕ → ℕ → S → (ℤ × ℕ) × S
  rpc_create path mode flags fh s =
      let (a, s') =
        request (stub.create (record { path = path; mode = mode; flags = flags }))
          (record { fh = 0; err = 0 }) s in
      ((neg a.result.err, if a.result.err == 0 then a.result.fh else fh), s')

  unfoldable pub rpc_mkdir : Bytes → ℕ → S → ℤ × S
  rpc_mkdir path mode s =
      negated (request (stub.mkdir (record { s = path; mode = mode })) empty_info s)

  unfoldable pub rpc_rmdir : Bytes → S → ℤ × S
  rpc_rmdir path s = negated (request (stub.rmdir path) empty_info s)

  unfoldable pub rpc_unlink : Bytes → S → ℤ × S
  rpc_unlink path s = negated (request (stub.unlink path) empty_info s)

  unfoldable pub rpc_rename : Bytes → Bytes → ℕ → S → ℤ × S
  rpc_rename from to flags s =
      negated (request (stub.rename (record { fp = from; tp = to; flag = flags })) empty_info s)

  -- `ts[0]` and `ts[1]`; their seconds are cut off at 32 bits.
  unfoldable pub rpc_utimens : Bytes → Time → Time → S → ℤ × S
  rpc_utimens path atim mtim s = negated (
      request
        (stub.utimens (record {
          path = path;
          sec = u32 atim.sec;
          nsec = atim.nsec;
          sec2 = u32 mtim.sec;
          nsec2 = mtim.nsec;
        }))
        empty_info s)

  unfoldable pub rpc_mknod : Bytes → ℕ → ℕ → S → ℤ × S
  rpc_mknod path mode rdev s =
      negated
        (request (stub.mknod (record { path = path; mode = mode; rdev = u32 rdev })) empty_info s)
