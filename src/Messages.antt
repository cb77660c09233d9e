-- ===== src/Messages.antt =====
-- The messages of afsfuse.proto. A field that is not set is zero or empty. A scalar field keeps
-- its width: what is put into a narrower one is cut off, `% 2 ^ w` as a bit pattern.
use client_server_file_syste.Base.{ℕ, ◌+◌, ◌-◌, ◌%◌, ◌^◌, [], Bytes, ltb, if◌then◌else◌}

abbrev pub u32 : ℕ → ℕ
u32 x = x % 2 ^ 32

-- A 32-bit pattern read as signed and widened to 64 bits.
abbrev pub sign_extend : ℕ → ℕ
sign_extend x = if ltb x (2 ^ 31) then x else x + (2 ^ 64 - 2 ^ 32)

-- `Stat` of the proto file; `dev` is never set.
pub record StatReply : Type 0 where
  pub ino : ℕ
  pub mode : ℕ
  pub nlink : ℕ
  pub uid : ℕ
  pub gid : ℕ
  pub size : ℕ
  pub blksize : ℕ
  pub blocks : ℕ
  pub atime : ℕ
  pub mtime : ℕ
  pub ctime : ℕ
  pub atimtvsec : ℕ
  pub atimtvnsec : ℕ
  pub mtimtvsec : ℕ
  pub mtimtvnsec : ℕ
  pub err : ℕ

abbrev pub empty_stat : StatReply
empty_stat = record {
  ino = 0;
  mode = 0;
  nlink = 0;
  uid = 0;
  gid = 0;
  size = 0;
  blksize = 0;
  blocks = 0;
  atime = 0;
  mtime = 0;
  ctime = 0;
  atimtvsec = 0;
  atimtvnsec = 0;
  mtimtvsec = 0;
  mtimtvnsec = 0;
  err = 0;
}

pub record Dirent : Type 0 where
  pub dino : ℕ
  pub dname : Bytes
  pub dtype : ℕ
  pub err : ℕ

pub record FuseFileInfo : Type 0 where
  pub flags : ℕ
  pub fh : ℕ
  pub err : ℕ
  pub path : Bytes

pub record ReadRequest : Type 0 where
  pub path : Bytes
  pub size : ℕ
  pub offset : ℕ

pub record ReadResult : Type 0 where
  pub bytesread : ℕ
  pub buffer : Bytes
  pub err : ℕ

pub record WriteRequest : Type 0 where
  pub path : Bytes
  pub size : ℕ
  pub offset : ℕ
  pub buffer : Bytes

pub record WriteResult : Type 0 where
  pub nbytes : ℕ
  pub err : ℕ

pub record CreateRequest : Type 0 where
  pub path : Bytes
  pub mode : ℕ
  pub flags : ℕ

pub record CreateResult : Type 0 where
  pub fh : ℕ
  pub err : ℕ

pub record MkdirRequest : Type 0 where
  pub s : Bytes
  pub mode : ℕ

pub record OutputInfo : Type 0 where
  pub str : Bytes
  pub err : ℕ

abbrev pub empty_info : OutputInfo
empty_info = record { str = []; err = 0 }

pub record RenameRequest : Type 0 where
  pub fp : Bytes
  pub tp : Bytes
  pub flag : ℕ

pub record UtimensRequest : Type 0 where
  pub path : Bytes
  pub sec : ℕ
  pub nsec : ℕ
  pub sec2 : ℕ
  pub nsec2 : ℕ

pub record MknodRequest : Type 0 where
  pub path : Bytes
  pub mode : ℕ
  pub rdev : ℕ

pub record FileContent : Type 0 where
  pub name : Bytes
  pub content : Bytes

-- `grpc::StatusCode`, as far as the program tells the codes apart.
pub data Code : Type 0 where
  ok deadline_exceeded resource_exhausted aborted : Code
  other : ℕ → Code
