-- ===== src/Sys/Memory/Assoc.antt =====
-- Names and the files that they stand for, as an association list.
use client_server_file_syste.Base.{
  ℕ, suc, ◌<◌, max, ◌≡◌, Option, none, some, List, [], ◌∷◌, Bytes, bytes_eq, bytes_eq_iff,
  if◌then◌else◌, arith,
}

abbrev pub Names : Type 0
Names = List (Bytes × ℕ)

unfoldable pub lookup : Bytes → Names → Option ℕ
lookup p [] = none
lookup p ((q, i) ∷ m) = if bytes_eq p q then some i else lookup p m

unfoldable pub erase : Bytes → Names → Names
erase p [] = []
erase p ((q, i) ∷ m) = let rest = erase p m in if bytes_eq p q then rest else (q, i) ∷ rest

-- Above every file that has a name.
unfoldable pub fresh : Names → ℕ
fresh [] = 0
fresh ((q, i) ∷ m) = max (suc i) (fresh m)

pub lookup-erase :
    (p q : Bytes) (m : Names) → lookup q (erase p m) ≡ (if bytes_eq q p then none else lookup q m)
unfolding lookup erase
lookup-erase p q [] = ground arith
lookup-erase p q ((r, i) ∷ m) =
    ground (arith, bytes_eq_iff q p, bytes_eq_iff p r, bytes_eq_iff q r, lookup-erase p q m)

pub lookup-fresh : (p : Bytes) (m : Names) (i : ℕ) → lookup p m ≡ some i → i < fresh m
unfolding lookup fresh
lookup-fresh p [] i e = ground arith
lookup-fresh p ((q, j) ∷ m) i e = ground (arith, lookup-fresh p m i)
