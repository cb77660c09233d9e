-- ===== src/Rpc/Transfer/Disk.antt =====
-- What `rpc_putFile` does to the disk of the client.
use client_server_file_syste.Base.{
  ℕ, zero, suc, ◌≡◌, sym, subst, Bool, true, false, not, ◌&&◌, ◌++◌, Bytes,
}
use client_server_file_syste.Base.Int.{ℤ, pos}
use client_server_file_syste.Sys.{Os}
use client_server_file_syste.Stream.Reader.{o_rdonly}
use client_server_file_syste.Stream.Reader.Send.{stream_file-disk}
use client_server_file_syste.Rpc.Transfer.{
  Streams, chunk_size, is_ok, put_attempt, put_loop, rpc_put_file,
}

module _ (os : Os) {S W : Type 0} (streams : Streams S W) where
  put_attempt-disk :
      (root path : Bytes) (s : S) (d : os.Disk)
      → (put_attempt os streams root path s d).2 ≡ (os.open_file d (root ++ path) o_rdonly 0).1
  unfolding put_attempt
  put_attempt-disk root path s d =
      stream_file-disk os streams.send root path chunk_size (streams.start s) d

  module _ (P : os.Disk → Type 0)
      (opens : (d : os.Disk) (p : Bytes) → P d → P (os.open_file d p o_rdonly 0).1) where
    put_attempt-keeps :
        (root path : Bytes) (s : S) (d : os.Disk) → P d → P (put_attempt os streams root path s d).2
    put_attempt-keeps root path s d h =
        subst P (sym (put_attempt-disk root path s d)) (opens d (root ++ path) h)

    either :
        (c : Bool) (again done : ℤ × S × os.Disk)
        → P again.2
        → P done.2
        → P (elim c as (λ _. ℤ × S × os.Disk) [ false ↦ again | true ↦ done ]).2
    either false again done p q = p
    either true again done p q = q

    put_loop-keeps :
        (left : ℕ) (root path : Bytes) (s : S) (d : os.Disk)
        → P d
        → P (put_loop os streams left root path s d).2
    unfolding put_loop
    put_loop-keeps zero root path s d h = put_attempt-keeps root path s d h
    put_loop-keeps (suc left) root path s d h =
        let k = put_attempt-keeps root path s d h in
        let ((failed, code), s', d') = put_attempt os streams root path s d in
        either (not failed && is_ok code) (put_loop os streams left root path s' d') (pos 1, s', d')
          (put_loop-keeps left root path s' d' k) k

    -- What opening a file to read keeps, `rpc_putFile` keeps.
    pub put_file-keeps :
        (root path : Bytes) (s : S) (d : os.Disk)
        → P d
        → P (rpc_put_file os streams root path s d).2
    unfolding rpc_put_file
    put_file-keeps root path s d h = put_loop-keeps 2 root path s d h
