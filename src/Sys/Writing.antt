-- ===== src/Sys/Writing.antt =====
-- What pwrite(2) makes of a file, and what a handler that opens one for writing relies on.
use client_server_file_syste.Base.{
  ℕ, zero, suc, ◌≤◌, ◌≡◌, ◌≢◌, refl, sym, ap, ◌∙◌, subst, ◌⊎◌, inl, inr, some, [], ◌∷◌, ◌++◌,
  append-nil, take, drop, length, Bytes, arith,
}
use client_server_file_syste.Sys.{Os, ret, err}
use client_server_file_syste.Sys.Laws.{View, Same}

-- The bytes stand over the beginning of the file.
abbrev pub overlay : Bytes → Bytes → Bytes
overlay [] old = old
overlay (x ∷ xs) old = x ∷ overlay xs (drop 1 old)

-- The same at an offset; a gap behind the end of the file is filled with zeros.
abbrev pub overlay_at : ℕ → Bytes → Bytes → Bytes
overlay_at zero xs old = overlay xs old
overlay_at (suc off) xs [] = 0 ∷ overlay_at off xs []
overlay_at (suc off) xs (y ∷ old) = y ∷ overlay_at off xs old

-- Nothing is written if there are no bytes, not even the gap.
abbrev pub write_at : ℕ → Bytes → Bytes → Bytes
write_at off [] old = old
write_at off (x ∷ xs) old = overlay_at off (x ∷ xs) old

abbrev pub larger : ℕ → ℕ → ℕ
larger zero b = b
larger (suc a) zero = suc a
larger (suc a) (suc b) = suc (larger a b)

larger_zero : (a : ℕ) → larger a 0 ≡ a
larger_zero zero = refl
larger_zero (suc a) = refl

pub larger_left : (a b : ℕ) → a ≤ larger a b
larger_left zero b = omega arith
larger_left (suc a) zero = omega arith
larger_left (suc a) (suc b) = omega (arith, larger_left a b)

larger_le : (a b c : ℕ) → a ≤ c → b ≤ c → larger a b ≤ c
larger_le zero b c h k = k
larger_le (suc a) zero c h k = h
larger_le (suc a) (suc b) zero h k = absurd (omega arith)
larger_le (suc a) (suc b) (suc c) h k = omega (arith, larger_le a b c (omega arith) (omega arith))

-- Of two beginnings of the same bytes, written one after the other, the longer one is left.
overlay_twice :
    (a b : ℕ) (xs old : Bytes)
    → overlay (take a xs) (overlay (take b xs) old) ≡ overlay (take (larger a b) xs) old
overlay_twice zero b xs old = refl
overlay_twice (suc a) zero xs old = refl
overlay_twice (suc a) (suc b) [] old = refl
overlay_twice (suc a) (suc b) (x ∷ xs) old = ap (◌∷◌ x) (overlay_twice a b xs (drop 1 old))

overlay_at_twice :
    (off a b : ℕ) (xs old : Bytes)
    → overlay_at off (take a xs) (overlay_at off (take b xs) old)
      ≡ overlay_at off (take (larger a b) xs) old
overlay_at_twice zero a b xs old = overlay_twice a b xs old
overlay_at_twice (suc off) a b xs [] = ap (◌∷◌ 0) (overlay_at_twice off a b xs [])
overlay_at_twice (suc off) a b xs (y ∷ old) = ap (◌∷◌ y) (overlay_at_twice off a b xs old)

write_twice :
    (off a b : ℕ) (xs old : Bytes)
    → write_at off (take a xs) (write_at off (take b xs) old)
      ≡ write_at off (take (larger a b) xs) old
write_twice off zero b xs old = refl
write_twice off (suc a) zero xs old = refl
write_twice off (suc a) (suc b) [] old = refl
write_twice off (suc a) (suc b) (x ∷ xs) old = overlay_at_twice off (suc a) (suc b) (x ∷ xs) old

overlay-nil : (xs : Bytes) → overlay xs [] ≡ xs
overlay-nil [] = refl
overlay-nil (x ∷ xs) = ap (◌∷◌ x) (overlay-nil xs)

overlay_at-length :
    (off : ℕ) (xs old : Bytes) → off ≡ length old → overlay_at off xs old ≡ old ++ xs
overlay_at-length zero xs [] e = overlay-nil xs
overlay_at-length zero xs (y ∷ old) e = absurd (omega (arith, e))
overlay_at-length (suc off) xs [] e = absurd (omega (arith, e))
overlay_at-length (suc off) xs (y ∷ old) e =
    ap (◌∷◌ y) (overlay_at-length off xs old (omega (arith, e)))

-- At the end of the file.
pub write_at-length :
    (off : ℕ) (xs old : Bytes) → off ≡ length old → write_at off xs old ≡ old ++ xs
write_at-length off [] old e = sym (append-nil old)
write_at-length off (x ∷ xs) old e = overlay_at-length off (x ∷ xs) old e

module _ {os : Os} (v : View os) where
  -- The first `n` of the bytes have been written to the file of a path, if it names one, and
  -- nothing else has changed.
  pub record Overwritten (p : Bytes) (off : ℕ) (bytes : Bytes) (n : ℕ) (d d' : os.Disk)
      : Type 0 where
    pub within : n ≤ length bytes
    pub found : (n ≡ 0) ⊎ ((i : ℕ) × (v.node d p ≡ some i))
    pub names : (q : Bytes) → v.node d' q ≡ v.node d q
    pub target :
        (i : ℕ)
        → v.node d p ≡ some i
        → v.bytes_of d' i ≡ write_at off (take n bytes) (v.bytes_of d i)
    pub others : (i : ℕ) → v.node d p ≢ some i → v.bytes_of d' i ≡ v.bytes_of d i

  pub Overwritten-Same :
      {p : Bytes} {off : ℕ} {bytes : Bytes} {d d' : os.Disk}
      → Same v d d'
      → Overwritten p off bytes 0 d d'
  Overwritten-Same same = record {
    within = omega arith;
    found = inl refl;
    names = same.names;
    target = λ i e. same.bytes i;
    others = λ i e. same.bytes i;
  }

  pub Overwritten-then :
      {p : Bytes} {off : ℕ} {bytes : Bytes} {m n : ℕ} {d e f : os.Disk}
      → Overwritten p off bytes n d e
      → Overwritten p off bytes m e f
      → Overwritten p off bytes (larger m n) d f
  Overwritten-then {p = p} {off = off} {bytes = bytes} {m = m} {n = n} first second = record {
    within = larger_le m n _ second.within first.within;
    found = elim first.found [
      | inr file ↦ inr file
      | inl nothing ↦ elim second.found [
        | inr (i, e) ↦ inr (i, sym (first.names p) ∙ e)
        | inl nothing' ↦ inl (rw (nothing, nothing') refl)
      ]
    ];
    names = λ q. second.names q ∙ first.names q;
    target = λ i h.
        second.target i (first.names p ∙ h)
        ∙ ap (write_at off (take m bytes)) (first.target i h)
        ∙ write_twice off m n bytes _;
    others = λ i h. second.others i (λ e. h (sym (first.names p) ∙ e)) ∙ first.others i h;
  }

  pub Overwritten-around :
      {p : Bytes} {off : ℕ} {bytes : Bytes} {n : ℕ} {d e f g : os.Disk}
      → Same v d e
      → Overwritten p off bytes n e f
      → Same v f g
      → Overwritten p off bytes n d g
  Overwritten-around {p = p} {off = off} {bytes = bytes} {n = n} {d = d} {f = f} before wrote
        behind =
      Overwritten-then
        (subst (λ k. Overwritten p off bytes k d f) (larger_zero n)
          (Overwritten-then (Overwritten-Same before) wrote))
        (Overwritten-Same behind)

  -- The documented behaviour of open(2) with O_WRONLY alone, of pwrite(2), where no descriptor is
  -- open with O_APPEND, and of what follows them.
  -- `inode` is the file that a descriptor stands for. An interrupted write may be short.
  pub record IsWriting (inode : os.Disk → ℕ → ℕ) : Type 0 where
    pub open-ret :
        (d : os.Disk) (p : Bytes) (fd : ℕ)
        → (os.open_file d p 1 0).0 ≡ ret fd
        → v.node d p ≡ some (inode (os.open_file d p 1 0).1 fd)
    pub opened : (d : os.Disk) (p : Bytes) → Same v d (os.open_file d p 1 0).1
    pub pwrite-ret :
        (d : os.Disk) (p : Bytes) (fd : ℕ) (bytes : Bytes) (off n : ℕ)
        → v.node d p ≡ some (inode d fd)
        → (os.pwrite d fd bytes off).0 ≡ ret n
        → Overwritten p off bytes n d (os.pwrite d fd bytes off).1
    pub pwrite-err :
        (d : os.Disk) (fd : ℕ) (bytes : Bytes) (off e : ℕ)
        → (os.pwrite d fd bytes off).0 ≡ err e
        → Same v d (os.pwrite d fd bytes off).1
    pub fsync : (d : os.Disk) (fd : ℕ) → Same v d (os.fsync d fd).1
    pub close : (d : os.Disk) (fd : ℕ) → Same v d (os.close d fd).1
