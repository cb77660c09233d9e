-- ===== src/Rpc/Retry/Bounds.antt =====
-- How often a call is tried, and how long it may take.
use client_server_file_syste.Base.{
  ℕ, zero, suc, ◌+◌, ◌*◌, ◌/◌, ◌^◌, ◌≤◌, ◌<◌, ◌≡◌, refl, true, false, List, [], ◌∷◌, length, arith,
  Bool-cases, inl, inr, subst,
}
use client_server_file_syste.Rpc.Retry.{Call, grow, timed_out, retry, request, receive}

abbrev pub sum : List ℕ → ℕ
sum [] = 0
sum (x ∷ xs) = x + sum xs

-- Deadlines that each are half as long again as the one before, rounded down, with no wrap.
abbrev pub IsBackoff : ℕ → List ℕ → Type 0
IsBackoff backoff [] = Unit
IsBackoff backoff (x ∷ xs) = (x ≡ backoff) × IsBackoff (backoff * 3 / 2) xs

-- All of the first `n` deadlines.
abbrev backoffs : ℕ → ℕ → List ℕ
backoffs zero backoff = []
backoffs (suc n) backoff = backoff ∷ backoffs n (backoff * 3 / 2)

-- The next `n` deadlines fit an `unsigned int`.
abbrev Fits : ℕ → ℕ → Type 0
Fits zero backoff = Unit
Fits (suc n) backoff = (backoff * 3 / 2 < 2 ^ 32) × Fits n (backoff * 3 / 2)

record Tried (left backoff : ℕ) (ds : List ℕ) : Type 0 where
  growing : IsBackoff backoff ds
  some' : 0 < length ds
  few : length ds ≤ suc left

sum-le :
    (n backoff : ℕ) (ds : List ℕ)
    → IsBackoff backoff ds
    → length ds ≤ n
    → sum ds ≤ sum (backoffs n backoff)
sum-le n backoff [] g h = omega arith
sum-le zero backoff (d ∷ ds) g h = absurd (omega arith)
sum-le (suc n) backoff (d ∷ ds) g h =
    omega (arith, g.0, sum-le n (backoff * 3 / 2) ds g.1 (omega arith))

module _ {S R : Type 0} (call : Call S R) where
  retry_timeout :
      (left backoff : ℕ) (result : R) (s : S)
      → timed_out (call backoff s).0.0 ≡ true
      → (retry call (suc left) backoff result s).0.deadlines
        ≡ backoff
          ∷ (retry call left
              (grow backoff)
              (receive (call backoff s).0.1 result)
              (call backoff s).1).0.deadlines
  unfolding retry
  retry_timeout left backoff result s e = ground arith

  retry_done :
      (left backoff : ℕ) (result : R) (s : S)
      → timed_out (call backoff s).0.0 ≡ false
      → (retry call (suc left) backoff result s).0.deadlines ≡ backoff ∷ []
  unfolding retry
  retry_done left backoff result s e = ground arith

  retry_last :
      (backoff : ℕ) (result : R) (s : S)
      → (retry call zero backoff result s).0.deadlines ≡ backoff ∷ []
  unfolding retry
  retry_last backoff result s = refl

  retry-Tried :
      (left backoff : ℕ) (result : R) (s : S)
      → Fits left backoff
      → Tried left backoff (retry call left backoff result s).0.deadlines
  retry-Tried zero backoff result s f = rw retry_last (omega arith)
  retry-Tried (suc left) backoff result s f = elim (Bool-cases (timed_out (call backoff s).0.0)) [
    | inr done ↦ rw (retry_done left backoff result s done) (omega arith)
    | inl late ↦
        let g : grow backoff ≡ backoff * 3 / 2 = omega arith in
        let t =
          retry-Tried left (grow backoff) (receive (call backoff s).0.1 result) (call backoff s).1
            (rw g f.1) in
        rw (retry_timeout left backoff result s late) (record {
          growing = (
            refl,
            subst
                (λ (b : ℕ).
                  IsBackoff b
                    (retry call left (grow backoff) (receive (call backoff s).0.1 result)
                      (call backoff s).1).0.deadlines)
                g t.growing,
          );
          some' = omega arith;
          few = omega (arith, t.few);
        })
  ]

  -- Whatever the network does, a call makes between 1 and 13 attempts; their deadlines start at
  -- 50 ms, each is half as long again as the one before it, rounded down, with no overflow, and
  -- together they are at most 19262 ms.
  pub request_bounds :
      (result : R) (s : S)
      → let ds = (request call result s).0.deadlines in
        (0 < length ds) × (length ds ≤ 13) × IsBackoff 50 ds × (sum ds ≤ 19262)
  request_bounds result s =
      let t = retry-Tried 12 50 result s (omega arith) in
      (t.some', t.few, t.growing, sum-le 13 50 (request call result s).0.deadlines t.growing t.few)
