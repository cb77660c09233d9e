-- ===== src/Stream/Reader/Leak.antt =====
-- What becomes of the descriptor that the constructor of `SequentialFileReader` opens.
use client_server_file_syste.Base.{◌≡◌, ◌++◌, Bytes, arith}
use client_server_file_syste.Sys.{Os, ret}
use client_server_file_syste.Stream.Reader.{Reader, construct, destruct, o_rdonly}

module _ (os : Os) where
  pub construct-open :
      (root file : Bytes) (d : os.Disk)
      → (construct os root file d).1 ≡ (os.open_file d (root ++ file) o_rdonly 0).1
  unfolding construct
  construct-open root file d = ground arith

  pub destruct-construct :
      (root file : Bytes) (d e : os.Disk) {r : Reader}
      → (construct os root file d).0 ≡ ret r
      → destruct os r e ≡ e
  unfolding construct destruct
  destruct-construct root file d e h = ground arith

  pub construct-file_path :
      (root file : Bytes) (d : os.Disk) {r : Reader}
      → (construct os root file d).0 ≡ ret r
      → r.file_path ≡ file
  unfolding construct
  construct-file_path root file d h = ground arith
