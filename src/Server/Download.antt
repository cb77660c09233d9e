-- ===== src/Server/Download.antt =====
-- AFS/afsfuse_server.cc: `afsfuse_getFile`, which streams a file to a client.
pub mod Laws
use client_server_file_syste.Base.{ℕ, ◌^◌, Bool, Bytes}
use client_server_file_syste.Sys.{Os, Sys, ret, err}
use client_server_file_syste.Messages.{Code, ok, aborted, FileContent}
use client_server_file_syste.Stream.Reader.{stream_file}

-- `1UL << 20`
abbrev pub chunk_size : ℕ
chunk_size = 2 ^ 20

abbrev pub status_of : Sys (Unit {0}) → Code
status_of (err e) = aborted
status_of (ret _) = ok

module _ (os : Os) {W : Type 0} (write : FileContent → W → Bool × W) where
  unfoldable pub afsfuse_get_file : Bytes → Bytes → W → os.Disk → Code × W × os.Disk
  afsfuse_get_file root path w d =
      let (res, w', d') = stream_file os write root path chunk_size w d in (status_of res, w', d')
