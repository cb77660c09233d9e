-- ===== src/Buffer/Ring.antt =====
-- Reading round a ring of slots.
use native.Mathlib.Nat.{mod-eq_of_lt, mod-eq-sub-mod, mod-add-mod}
use mathlib.Core.Path.{ap₂}
use native.Mathlib.Decide.{dec_lt}
use client_server_file_syste.Base.{
  ℕ, zero, suc, ◌+◌, ◌-◌, ◌%◌, ◌≤◌, ◌<◌, ◌≡◌, ◌≢◌, refl, sym, ap, ◌∙◌, List, [], ◌∷◌, ◌++◌, Bytes,
  set, get_or, length, get_or-set_self, get_or-set_ne, arith,
}

module _ (capacity : ℕ) where
  -- The `n` slots from slot `i` on.
  abbrev pub ring : List Bytes → ℕ → ℕ → List Bytes
  ring slots i zero = []
  ring slots i (suc n) = get_or slots i [] ∷ ring slots ((i + 1) % capacity) n

  -- Going on by `m` slots and by one more.
  next_slot : (i m k : ℕ) → k ≡ suc m → ((i + 1) % capacity + m) % capacity ≡ (i + k) % capacity
  next_slot i m k e = mod-add-mod (i + 1) capacity m ∙ ap (λ (j : ℕ). j % capacity) (omega arith)

  slot-ne : (i m : ℕ) → i < capacity → 0 < m → m < capacity → (i + m) % capacity ≢ i
  slot-ne i m hi h0 hm = elim (dec_lt (i + m) capacity) [
    | yes low ↦ omega (arith, mod-eq_of_lt low)
    | no high ↦ omega (
      arith,
      mod-eq-sub-mod {n = i + m} {m = capacity} (omega arith),
      mod-eq_of_lt {n = i + m - capacity} {m = capacity} (omega arith),
    )
  ]

  -- A write behind the slots that are read is not seen. `j` is the slot `m` on from `i`.
  ring-set :
      (slots : List Bytes) (x : Bytes) (i j m n : ℕ)
      → j ≡ (i + m) % capacity
      → i < capacity
      → n ≤ m
      → m < capacity
      → ring (set slots j x) i n ≡ ring slots i n
  ring-set slots x i j m zero e hi hn hm = refl
  ring-set slots x i j zero (suc n) e hi hn hm = absurd (omega arith)
  ring-set slots x i j (suc m) (suc n) e hi hn hm =
      ap₂ ◌∷◌ (get_or-set_ne slots j i x [] (rw e (slot-ne i (suc m) hi (omega arith) hm))) (
        ring-set slots x ((i + 1) % capacity) j m n (e ∙ sym (next_slot i m (suc m) refl))
          (omega arith) (omega arith) (omega arith))

  -- The last slot that is read.
  ring-snoc :
      (slots : List Bytes) (i n : ℕ)
      → i < capacity
      → ring slots i (suc n) ≡ ring slots i n ++ (get_or slots ((i + n) % capacity) [] ∷ [])
  ring-snoc slots i zero h =
      ap (λ (j : ℕ). get_or slots j [] ∷ [])
        (omega (arith, mod-eq_of_lt {n = i + 0} {m = capacity} (omega arith)))
  ring-snoc slots i (suc n) h = ap (◌∷◌ (get_or slots i [])) (
      ring-snoc slots ((i + 1) % capacity) n (omega arith)
      ∙ ap (λ (j : ℕ). ring slots ((i + 1) % capacity) n ++ (get_or slots j [] ∷ []))
          (next_slot i n (suc n) refl))

  -- A write into the slot behind those that are read makes it the last one read.
  pub ring-push :
      (slots : List Bytes) (x : Bytes) (i j n : ℕ)
      → j ≡ (i + n) % capacity
      → i < capacity
      → n < capacity
      → length slots ≡ capacity
      → ring (set slots j x) i (suc n) ≡ ring slots i n ++ (x ∷ [])
  ring-push slots x i j n e hi hn hl =
      ring-snoc (set slots j x) i n hi
      ∙ ap₂ ◌++◌ (ring-set slots x i j n n e hi (omega arith) hn) (
          ap (λ (y : Bytes). y ∷ [])
            (ap (λ (k : ℕ). get_or (set slots j x) k []) (sym e)
              ∙ get_or-set_self slots j x [] (omega arith)))
