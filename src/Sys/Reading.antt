-- ===== src/Sys/Reading.antt =====
-- What a handler that opens a file for reading relies on.
use client_server_file_syste.Base.{ℕ, ◌≡◌, sym, ap, ◌∙◌, some, take, drop, Bytes}
use client_server_file_syste.Sys.{Os, ret}
use client_server_file_syste.Sys.Laws.{View, Same}

module _ {os : Os} (v : View os) where
  -- A beginning of what stands at the offset in the file of a path.
  pub record IsPart (p : Bytes) (size offset : ℕ) (d : os.Disk) (got : Bytes) : Type 0 where
    pub file : ℕ
    pub named : v.node d p ≡ some file
    pub k : ℕ
    pub part : got ≡ take k (take size (drop offset (v.bytes_of d file)))

  pub IsPart-Same :
      {p : Bytes} {size offset : ℕ} {d e : os.Disk} {got : Bytes}
      → Same v d e
      → IsPart p size offset e got
      → IsPart p size offset d got
  IsPart-Same {size = size} {offset = offset} same x = record {
    file = x.file;
    named = sym (same.names _) ∙ x.named;
    k = x.k;
    part = x.part ∙ ap (λ b. take x.k (take size (drop offset b))) (same.bytes x.file);
  }

  -- The documented behaviour of open(2) with O_RDONLY, of pread(2) and of close(2). `inode` is the
  -- file that a descriptor stands for. An interrupted read may be short.
  pub record IsReading (inode : os.Disk → ℕ → ℕ) : Type 0 where
    pub open-ret :
        (d : os.Disk) (p : Bytes) (fd : ℕ)
        → (os.open_file d p 0 0).0 ≡ ret fd
        → v.node d p ≡ some (inode (os.open_file d p 0 0).1 fd)
    pub opened : (d : os.Disk) (p : Bytes) → Same v d (os.open_file d p 0 0).1
    pub pread-ret :
        (d : os.Disk) (fd n off : ℕ) (got : Bytes)
        → os.pread d fd n off ≡ ret got
        → (k : ℕ) × (got ≡ take k (take n (drop off (v.bytes_of d (inode d fd)))))
    pub close : (d : os.Disk) (fd : ℕ) → Same v d (os.close d fd).1
