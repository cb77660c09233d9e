-- ===== src/Sys/Back.antt =====
-- What is read of a file at the place that was written last.
use client_server_file_syste.Base.{
  ℕ, zero, suc, ◌≤◌, ◌≡◌, refl, sym, ap, ◌∙◌, List, [], ◌∷◌, take, drop, length, Bytes, arith,
}
use client_server_file_syste.Sys.Writing.{overlay, overlay_at, write_at}

take-take {ℓ} : {A : Type ℓ} (k n : ℕ) (xs : List A) → (m : ℕ) × (take k (take n xs) ≡ take m xs)
take-take zero n xs = (0, refl)
take-take (suc k) zero xs = (0, refl)
take-take (suc k) (suc n) [] = (0, refl)
take-take (suc k) (suc n) (x ∷ xs) = let (m, e) = take-take k n xs in (suc m, ap (◌∷◌ x) e)

take-nil {ℓ} : {A : Type ℓ} (n : ℕ) → take {A = A} n [] ≡ []
take-nil zero = refl
take-nil (suc n) = refl

drop-nil {ℓ} : {A : Type ℓ} (n : ℕ) → drop {A = A} n [] ≡ []
drop-nil zero = refl
drop-nil (suc n) = refl

drop-overlay_at :
    (off : ℕ) (xs old : Bytes) → drop off (overlay_at off xs old) ≡ overlay xs (drop off old)
drop-overlay_at zero xs old = refl
drop-overlay_at (suc off) xs [] = drop-overlay_at off xs [] ∙ ap (overlay xs) (drop-nil off)
drop-overlay_at (suc off) xs (y ∷ old) = drop-overlay_at off xs old

overlap :
    (n m : ℕ) (xs rest : Bytes)
    → n ≤ length xs
    → let got = take m (overlay (take n xs) rest) in take n got ≡ take (length got) (take n xs)
overlap zero m xs rest h = sym (take-nil _)
overlap (suc n) m [] rest h = absurd (omega (arith, h))
overlap (suc n) zero (x ∷ xs) rest h = refl
overlap (suc n) (suc m) (x ∷ xs) rest h =
    ap (◌∷◌ x) (overlap n m xs (drop 1 rest) (omega (arith, h)))

-- A part of what stands at the offset, and what was written there, agree as far as both go.
pub read_back :
    (n k size off : ℕ) (xs old got : Bytes)
    → n ≤ length xs
    → got ≡ take k (take size (drop off (write_at off (take n xs) old)))
    → take n got ≡ take (length got) (take n xs)
read_back zero k size off xs old got h e = sym (take-nil _)
read_back (suc n) k size off [] old got h e = absurd (omega (arith, h))
read_back (suc n) k size off (x ∷ xs) old got h e =
    let (m, same) = take-take k size (overlay (take (suc n) (x ∷ xs)) (drop off old)) in
    let there =
      e
      ∙ (ap (λ b. take k (take size b)) (drop-overlay_at off (take (suc n) (x ∷ xs)) old) ∙ same) in
    rw (there) (overlap (suc n) m (x ∷ xs) (drop off old) h)
