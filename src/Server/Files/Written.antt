-- ===== src/Server/Files/Written.antt =====
-- What `afsfuse_write` leaves of a file.
use client_server_file_syste.Base.{
  ℕ, ◌<◌, ◌^◌, ◌≡◌, ◌∙◌, subst, ◌∷◌, ◌++◌, take, length, take-append, append_assoc, Bytes, arith,
  if_either, ◌==◌, inl, inr,
}
use client_server_file_syste.Sys.{Os, Sys, Sys-cases, ret, err}
use client_server_file_syste.Sys.Laws.{View}
use client_server_file_syste.Sys.Contents.{Same-then}
use client_server_file_syste.Sys.Writing.{
  Overwritten, Overwritten-Same, Overwritten-around, IsWriting,
}
use client_server_file_syste.Messages.{Code, sign_extend, WriteRequest, WriteResult}
use client_server_file_syste.Server.Paths.{server_path}
use client_server_file_syste.Server.Files.{afsfuse_write, o_wronly}

sign_extend-small : (n : ℕ) → n < 2 ^ 31 → sign_extend n ≡ n
sign_extend-small n h = ground (arith, h)

-- A request for the bytes `b`, behind which its buffer may hold more, at an offset that an `int`
-- holds.
abbrev pub Carried : Bytes → WriteRequest → Type 0
Carried b wr =
    ((rest : Bytes) × (wr.buffer ≡ b ++ rest)) × (wr.size ≡ length b) × (wr.offset < 2 ^ 31)

module _ {os : Os} (v : View os) (root : Bytes) where
  abbrev pub Answered : Bytes → WriteRequest → os.Disk → (Code × WriteResult) × os.Disk → Type 0
  Answered b wr d ((c, r), d') = Overwritten v (server_path root wr.path) wr.offset b r.nbytes d d'

module _ (os : Os) (v : View os) (inode : os.Disk → ℕ → ℕ) (law : IsWriting v inode)
    (root heap : Bytes) where
  module _ (b : Bytes) (wr : WriteRequest) (d : os.Disk) (carried : Carried b wr) where
    abbrev opened : Sys ℕ × os.Disk
    opened = os.open_file d (server_path root wr.path) o_wronly 0

    abbrev wrote : ℕ → Sys ℕ × os.Disk
    wrote fd = os.pwrite opened.1 fd (take wr.size (wr.buffer ++ 0 ∷ heap)) (sign_extend wr.offset)

    abbrev Shows : ℕ → os.Disk → os.Disk → Type 0
    Shows n e e' = Overwritten v (server_path root wr.path) wr.offset b n e e'

    sent : take wr.size (wr.buffer ++ 0 ∷ heap) ≡ b
    sent =
        rw (carried.1, carried.0.1, append_assoc b carried.0.0 (0 ∷ heap))
          (take-append b (carried.0.0 ++ 0 ∷ heap))

    wrote-Shows :
        (fd n : ℕ) → opened.0 ≡ ret fd → (wrote fd).0 ≡ ret n → Shows n opened.1 (wrote fd).1
    wrote-Shows fd n o w =
        let file =
          (law.opened d (server_path root wr.path)).names _
          ∙ law.open-ret d (server_path root wr.path) fd o in
        subst (λ off. Overwritten v (server_path root wr.path) off b n opened.1 (wrote fd).1)
          (sign_extend-small wr.offset carried.2)
          (subst
            (λ x.
              Overwritten v (server_path root wr.path) (sign_extend wr.offset) x n opened.1
                (wrote fd).1)
            sent (law.pwrite-ret opened.1 (server_path root wr.path) fd _ _ n file w))

    not_opened :
        (e : ℕ) → opened.0 ≡ err e → Answered v root b wr d (afsfuse_write os root heap wr d)
    unfolding afsfuse_write
    not_opened e o = rw (afsfuse_write, o) (Overwritten-Same v (law.opened d _))

    not_written :
        (fd e : ℕ)
        → opened.0 ≡ ret fd
        → (wrote fd).0 ≡ err e
        → Answered v root b wr d (afsfuse_write os root heap wr d)
    unfolding afsfuse_write
    not_written fd e o w =
        rw (afsfuse_write, o, w)
          (Overwritten-around v (law.opened d _)
            (Overwritten-Same v (law.pwrite-err opened.1 fd _ _ e w)) (law.fsync (wrote fd).1 fd))

    written :
        (fd n : ℕ)
        → opened.0 ≡ ret fd
        → (wrote fd).0 ≡ ret n
        → Answered v root b wr d (afsfuse_write os root heap wr d)
    unfolding afsfuse_write
    written fd n o w =
        let shows =
          Overwritten-around v (law.opened d _) (wrote-Shows fd n o w)
            (law.fsync (wrote fd).1 fd) in
        rw (afsfuse_write, o, w)
          (if_either (Shows n d) (fd == 0) shows (
            Overwritten-around v (law.opened d _) (wrote-Shows fd n o w)
              (Same-then v _ _ _ (law.fsync (wrote fd).1 fd) (law.close _ fd))))

  -- The count in the reply to a request for the bytes `b`, at an offset that an `int`
  -- holds: on an error, which has the count 0, nothing has been written.
  pub afsfuse_write-Answered :
      (b : Bytes) (wr : WriteRequest) (d : os.Disk)
      → Carried b wr
      → Answered v root b wr d (afsfuse_write os root heap wr d)
  afsfuse_write-Answered b wr d carried =
      elim (Sys-cases (os.open_file d (server_path root wr.path) o_wronly 0).0) [
        | inl (e, o) ↦ not_opened b wr d carried e o
        | inr (fd, o) ↦ elim (Sys-cases (wrote b wr d carried fd).0) [
          | inl (e, w) ↦ not_written b wr d carried fd e o w
          | inr (n, w) ↦ written b wr d carried fd n o w
        ]
      ]
