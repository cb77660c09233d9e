-- ===== src/Sys/Contents.antt =====
-- What a reader sees behind a call that keeps or moves names.
use client_server_file_syste.Base.{ℕ, ◌≡◌, refl, ◌∙◌, ◌≢◌, Option, none, some, Bytes, arith}
use client_server_file_syste.Sys.{Os}
use client_server_file_syste.Sys.Laws.{View, content, Same, Renamed, Removed}

module _ {os : Os} (v : View os) where
  pub content_of_node :
      (d : os.Disk) (p : Bytes) (i : ℕ)
      → v.node d p ≡ some i
      → content v d p ≡ some (v.bytes_of d i)
  content_of_node d p i e = ground (arith, e)

  pub Same-refl : (d : os.Disk) → Same v d d
  Same-refl d = record {
    names = λ q. refl;
    bytes = λ i. refl;
    helds = λ h. refl;
    targets = λ h. refl;
  }

  pub Same-then : (d e f : os.Disk) → Same v d e → Same v e f → Same v d f
  Same-then d e f s t = record {
    names = λ q. t.names q ∙ s.names q;
    bytes = λ i. t.bytes i ∙ s.bytes i;
    helds = λ h. t.helds h ∙ s.helds h;
    targets = λ h. t.targets h ∙ s.targets h;
  }

  pub content-Same : (d d' : os.Disk) (q : Bytes) → Same v d d' → content v d' q ≡ content v d q
  content-Same d d' q s = go (v.node d q) refl
    where
      go : (n : Option ℕ) → v.node d q ≡ n → content v d' q ≡ content v d q
      go none e = ground (arith, s.names q)
      go (some i) e = ground (arith, s.names q, s.bytes i)

  pub Renamed-to :
      (d d' : os.Disk) (from to : Bytes)
      → Renamed v d from to d'
      → content v d' to ≡ content v d from
  Renamed-to d d' from to m = go (v.node d from) refl
    where
      go : (n : Option ℕ) → v.node d from ≡ n → content v d' to ≡ content v d from
      go none e = ground (arith, m.moved)
      go (some i) e = ground (arith, m.moved, m.bytes i)

  pub Renamed-other :
      (d d' : os.Disk) (from to q : Bytes)
      → Renamed v d from to d'
      → q ≢ from
      → q ≢ to
      → content v d' q ≡ content v d q
  Renamed-other d d' from to q m nf nt = go (v.node d q) refl
    where
      go : (n : Option ℕ) → v.node d q ≡ n → content v d' q ≡ content v d q
      go none e = ground (arith, m.other_names q nf nt)
      go (some i) e = ground (arith, m.other_names q nf nt, m.bytes i)

  pub Removed-other :
      (d d' : os.Disk) (p q : Bytes) → Removed v d p d' → q ≢ p → content v d' q ≡ content v d q
  Removed-other d d' p q m ne = go (v.node d q) refl
    where
      go : (n : Option ℕ) → v.node d q ≡ n → content v d' q ≡ content v d q
      go none e = ground (arith, m.other_names q ne)
      go (some i) e = ground (arith, m.other_names q ne, m.bytes i)
