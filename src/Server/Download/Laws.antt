-- ===== src/Server/Download/Laws.antt =====
-- What `afsfuse_getFile` sends, and what it leaves behind.
use client_server_file_syste.Base.{
  ◌^◌, ◌≤◌, ◌≡◌, refl, Bool, List, Bytes, ◌++◌, flatten, All, length, arith,
}
use client_server_file_syste.Sys.{Os, ret}
use client_server_file_syste.Messages.{FileContent}
use client_server_file_syste.Stream.Reader.{Reader, o_rdonly, construct, contents}
use client_server_file_syste.Stream.Reader.Chunks.{IsMapped, send_each, read_lem}
use client_server_file_syste.Stream.Reader.Send.{stream_file-ret, stream_file-disk}
use client_server_file_syste.Server.Download.{chunk_size, status_of, afsfuse_get_file}

module _ (os : Os) {W : Type 0} (write : FileContent → W → Bool × W) where
  -- Of a file that the server can open and map whole, `afsfuse_getFile` writes messages whose
  -- contents, none longer than 1 MiB, follow one another to the file, up to the first that the
  -- stream refuses. The status is OK if all are written, and ABORTED otherwise. The disk is left
  -- as `open` left it: nothing closes the descriptor.
  pub get_file_lem :
      (root path : Bytes) (w : W) (d : os.Disk) (r : Reader)
      → (construct os root path d).0 ≡ ret r
      → IsMapped r
      → (cs : List Bytes) × (flatten cs ≡ contents r)
        × All (λ c. length c ≤ 2 ^ 20) cs
        × (afsfuse_get_file os write root path w d ≡ (
          status_of (send_each write r cs w).0,
          (send_each write r cs w).1,
          (os.open_file d (root ++ path) o_rdonly 0).1,
        ))
  unfolding afsfuse_get_file
  get_file_lem root path w d r c m =
      let (cs, sent, whole, short) = read_lem write r chunk_size w m (omega arith) in
      let (res, w') = stream_file-ret os write root path chunk_size w d r c in
      (
        cs,
        whole,
        short,
        rw (res, w', stream_file-disk os write root path chunk_size w d, sent) refl,
      )
