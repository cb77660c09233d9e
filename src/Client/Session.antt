-- ===== src/Client/Session.antt =====
-- AFS/afsfuse_client.cc: the writes of a program to a file that it has open.
pub mod Closed
pub mod Whole
use client_server_file_syste.Base.{
  ℕ, ◌%◌, ◌≡◌, ◌≢◌, refl, sym, ap, ◌∙◌, true, some, none, List, [], ◌∷◌, ◌++◌, All, Bytes, text,
  find, take, leb, arith, if_either, inl, inr,
}
use client_server_file_syste.Base.Int.{ℤ, pos, negsuc, minus_one}
use client_server_file_syste.Sys.{Os, Sys, Sys-cases, ret, err, Exit}
use client_server_file_syste.Sys.Laws.{View, IsStore, Same, content}
use client_server_file_syste.Sys.Contents.{content_of_node}
use client_server_file_syste.Sys.Writing.{write_at, Overwritten}
use client_server_file_syste.Rpc.Calls.{Stub}
use client_server_file_syste.Rpc.Transfer.{Streams}
use client_server_file_syste.Cache.{cached_path, temp_path, new_temp_path, is_temp_file}
use client_server_file_syste.Client.{World, recovery_of, is_file_modified, client_release}
use client_server_file_syste.Client.Files.{descriptor, client_write}
use client_server_file_syste.Client.Saved.{IsQuiet}

-- What a program passes to write(2), and what `rand()` gives then.
pub record Request : Type 0 where
  pub buf : Bytes
  pub offset : ℕ
  pub rand : ℕ

-- What the file holds if the program can believe the result: that many of the bytes stand at the
-- offset.
abbrev pub believed : Request → ℤ → Bytes → Bytes
believed r (pos n) old = write_at r.offset (take n r.buf) old
believed r (negsuc n) old = old

abbrev pub believed_all : List Request → List ℤ → Bytes → Bytes
believed_all [] results old = old
believed_all (r ∷ rs) [] old = old
believed_all (r ∷ rs) (n ∷ ns) old = believed_all rs ns (believed r n old)

-- The documented behaviour of pwrite(2) on a descriptor that is open without O_APPEND, of which
-- `inode` is the file. An interrupted write may be short.
pub record WritesAt (os : Os) (v : View os) (fd : ℕ) (inode : os.Disk → ℕ) : Type 0 where
  pub pwrite-ret :
      (d : os.Disk) (p : Bytes) (bytes : Bytes) (off n : ℕ)
      → v.node d p ≡ some (inode d)
      → (os.pwrite d fd bytes off).0 ≡ ret n
      → Overwritten v p off bytes n d (os.pwrite d fd bytes off).1
  pub pwrite-err :
      (d : os.Disk) (bytes : Bytes) (off e : ℕ)
      → (os.pwrite d fd bytes off).0 ≡ err e
      → Same v d (os.pwrite d fd bytes off).1
  pub pwrite-inode :
      (d : os.Disk) (bytes : Bytes) (off : ℕ) → inode (os.pwrite d fd bytes off).1 ≡ inode d
  pub fdatasync-inode : (d : os.Disk) → inode (os.fdatasync d fd).1 ≡ inode d

module _ (os : Os) {S W : Type 0} (stub : Stub S) (streams : Streams S W) (rands : ℕ → ℕ)
    (path : Bytes) (fd : ℕ) where
  -- The writes of a program, one after the other.
  unfoldable pub write_each : List Request → World S os.Disk → List ℤ × World S os.Disk
  write_each [] w = ([], w)
  write_each (r ∷ rs) w =
      let (n, w') = client_write os stub streams rands r.rand path r.buf r.offset (some fd) w in
      let (ns, w'') = write_each rs w' in (n ∷ ns, w'')

module _ {os : Os} (v : View os) (inode : os.Disk → ℕ) (temp : Bytes) where
  -- The descriptor stands for the file of the path, which holds the bytes.
  pub record Holds (b : Bytes) (d : os.Disk) : Type 0 where
    pub named : v.node d temp ≡ some (inode d)
    pub bytes : v.bytes_of d (inode d) ≡ b

  abbrev pub AllWritten :
      {S : Type 0} (rs : List Request) (b : Bytes) (w : World S os.Disk)
      → List ℤ × World S os.Disk
      → Type 0
  AllWritten rs b w (ns, w') = (w'.cache ≡ w.cache) × Holds (believed_all rs ns b) w'.disk

module _ (os : Os) (v : View os) (quiet : IsQuiet os v) (fd : ℕ) (inode : os.Disk → ℕ)
    (law : WritesAt os v fd inode) (temp : Bytes) where
  module _ {S W : Type 0} (stub : Stub S) (streams : Streams S W) (rands : ℕ → ℕ) (path : Bytes)
      (r : Request) (b : Bytes) (w : World S os.Disk) (holds : Holds v inode temp b w.disk) where
    abbrev wrote : Sys ℕ × os.Disk
    wrote = os.pwrite w.disk fd r.buf r.offset

    Holds-fdatasync :
        (c : Bytes) (d : os.Disk)
        → Holds v inode temp c d
        → Holds v inode temp c (os.fdatasync d fd).1
    Holds-fdatasync c d h =
        let same = quiet.fdatasync d fd in
        record {
          named = same.names temp ∙ (h.named ∙ ap some (sym (law.fdatasync-inode d)));
          bytes =
              ap (v.bytes_of (os.fdatasync d fd).1) (law.fdatasync-inode d)
              ∙ (same.bytes (inode d) ∙ h.bytes);
        }

    wrote-Holds : (n : ℕ) → wrote.0 ≡ ret n → Holds v inode temp (believed r (pos n) b) wrote.1
    wrote-Holds n e =
        let over = law.pwrite-ret w.disk temp r.buf r.offset n holds.named e in
        let kept = law.pwrite-inode w.disk r.buf r.offset in
        record {
          named = over.names temp ∙ (holds.named ∙ ap some (sym kept));
          bytes =
              ap (v.bytes_of wrote.1) kept
              ∙ (over.target (inode w.disk) holds.named
                  ∙ ap (write_at r.offset (take n r.buf)) holds.bytes);
        }

    not_wrote-Holds : (e : ℕ) → wrote.0 ≡ err e → Holds v inode temp b wrote.1
    not_wrote-Holds e h =
        let same = law.pwrite-err w.disk r.buf r.offset e h in
        let kept = law.pwrite-inode w.disk r.buf r.offset in
        record {
          named = same.names temp ∙ (holds.named ∙ ap some (sym kept));
          bytes = ap (v.bytes_of wrote.1) kept ∙ (same.bytes (inode w.disk) ∙ holds.bytes);
        }

    abbrev Written : ℤ × World S os.Disk → Type 0
    Written (n, w') = (w'.cache ≡ w.cache) × Holds v inode temp (believed r n b) w'.disk

    client_write-Written :
        Written (client_write os stub streams rands r.rand path r.buf r.offset (some fd) w)
    unfolding client_write descriptor
    client_write-Written = elim (Sys-cases wrote.0) [
      | inl (e, h) ↦
          rw (client_write, h)
            (
              refl,
              if_either (Holds v inode temp b) (leb 90 (r.rand % 100))
                  (Holds-fdatasync b wrote.1 (not_wrote-Holds e h)) (not_wrote-Holds e h),
            )
      | inr (n, h) ↦
          rw (client_write, h)
            (
              refl,
              if_either (Holds v inode temp (believed r (pos n) b)) (leb 90 (r.rand % 100))
                  (Holds-fdatasync _ wrote.1 (wrote-Holds n h)) (wrote-Holds n h),
            )
    ]

  module _ {S W : Type 0} (stub : Stub S) (streams : Streams S W) (rands : ℕ → ℕ)
      (path : Bytes) where
    pub write_each-AllWritten :
        (rs : List Request) (b : Bytes) (w : World S os.Disk)
        → Holds v inode temp b w.disk
        → AllWritten v inode temp rs b w (write_each os stub streams rands path fd rs w)
    unfolding write_each
    write_each-AllWritten [] b w h = (refl, h)
    write_each-AllWritten (r ∷ rs) b w h =
        let (n, w') = client_write os stub streams rands r.rand path r.buf r.offset (some fd) w in
        let (cache, now) = client_write-Written stub streams rands path r b w h in
        let (cache', all) = write_each-AllWritten rs (believed r n b) w' now in
        (cache' ∙ cache, all)
