-- ===== src/Server/Files/Slice.antt =====
-- What `afsfuse_read` sends of a file.
use client_server_file_syste.Base.{
  ℕ, ◌≡◌, refl, ◌∙◌, ◌⊎◌, inl, inr, [], take, drop, length, ◌++◌, c_string, Bytes, if_either, ◌==◌,
  ap,
}
use client_server_file_syste.Sys.{Os, Sys, Sys-cases, ret, err}
use client_server_file_syste.Sys.Laws.{View, Same}
use client_server_file_syste.Sys.Contents.{Same-then}
use client_server_file_syste.Sys.Reading.{IsPart, IsReading}
use client_server_file_syste.Messages.{Code, ReadRequest, ReadResult}
use client_server_file_syste.Server.Paths.{server_path}
use client_server_file_syste.Server.Files.{afsfuse_read, o_rdonly}

module _ {os : Os} (v : View os) (root heap : Bytes) where
  abbrev pub reply : Bytes → ReadResult
  reply got = record { bytesread = length got; buffer = c_string (got ++ heap); err = 0 }

  -- An error, or a part of the file and what follows it in memory up to a zero byte.
  abbrev pub Answered : ReadRequest → os.Disk → ReadResult → Type 0
  Answered rr d r =
      ((e : ℕ) × (r ≡ record { bytesread = 0; buffer = []; err = e }))
      ⊎ ((got : Bytes) × IsPart v (server_path root rr.path) rr.size rr.offset d got
          × (r ≡ reply got))

  abbrev pub Served : ReadRequest → os.Disk → (Code × ReadResult) × os.Disk → Type 0
  Served rr d ((c, r), d') = Same v d d' × Answered rr d r

module _ (os : Os) (v : View os) (inode : os.Disk → ℕ → ℕ) (law : IsReading v inode)
    (root heap : Bytes) where
  module _ (rr : ReadRequest) (d : os.Disk) where
    abbrev opened : Sys ℕ × os.Disk
    opened = os.open_file d (server_path root rr.path) o_rdonly 0

    abbrev read : ℕ → Sys Bytes
    read fd = os.pread opened.1 fd rr.size rr.offset

    not_opened :
        (e : ℕ) → opened.0 ≡ err e → Served v root heap rr d (afsfuse_read os root [] heap rr d)
    unfolding afsfuse_read
    not_opened e o = rw (afsfuse_read, o) (law.opened d _, inl (e, refl))

    not_read :
        (fd e : ℕ)
        → opened.0 ≡ ret fd
        → read fd ≡ err e
        → Served v root heap rr d (afsfuse_read os root [] heap rr d)
    unfolding afsfuse_read
    not_read fd e o w = rw (afsfuse_read, o, w) (law.opened d _, inl (e, refl))

    read-IsPart :
        (fd : ℕ) (got : Bytes)
        → opened.0 ≡ ret fd
        → read fd ≡ ret got
        → IsPart v (server_path root rr.path) rr.size rr.offset d got
    read-IsPart fd got o w =
        let same = law.opened d (server_path root rr.path) in
        let (k, part) = law.pread-ret opened.1 fd rr.size rr.offset got w in
        record {
          file = inode opened.1 fd;
          named = law.open-ret d (server_path root rr.path) fd o;
          k = k;
          part = part ∙ ap (λ b. take k (take rr.size (drop rr.offset b))) (same.bytes _);
        }

    served :
        (fd : ℕ) (got : Bytes)
        → opened.0 ≡ ret fd
        → read fd ≡ ret got
        → Served v root heap rr d (afsfuse_read os root [] heap rr d)
    unfolding afsfuse_read
    served fd got o w =
        let same = law.opened d (server_path root rr.path) in
        rw (afsfuse_read, o, w)
          (
            if_either (λ e. Same v d e) (fd == 0) same
                (Same-then v _ _ _ same (law.close opened.1 fd)),
            inr (got, read-IsPart fd got o w, refl),
          )

  -- Of a request, into a buffer for the path that was empty.
  pub afsfuse_read-Served :
      (rr : ReadRequest) (d : os.Disk) → Served v root heap rr d (afsfuse_read os root [] heap rr d)
  afsfuse_read-Served rr d = elim (Sys-cases (opened rr d).0) [
    | inl (e, o) ↦ not_opened rr d e o
    | inr (fd, o) ↦ elim (Sys-cases (read rr d fd)) [
      | inl (e, w) ↦ not_read rr d fd e o w
      | inr (got, w) ↦ served rr d fd got o w
    ]
  ]
