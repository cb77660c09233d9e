-- ===== src/Rpc/Retry/Rule.antt =====
-- A rule for the loop that every call stands in.
use client_server_file_syste.Base.{
  ℕ, zero, suc, ◌≡◌, true, false, Bool-cases, inl, inr, sym, subst, arith,
}
use client_server_file_syste.Rpc.Retry.{Call, grow, timed_out, receive, retry}

module _ {S R : Type 0} (call : Call S R) where
  retry-late :
      (left backoff : ℕ) (result : R) (s : S)
      → timed_out (call backoff s).0.0 ≡ true
      → (retry call (suc left) backoff result s).1
        ≡ (retry call left
            (grow backoff)
            (receive (call backoff s).0.1 result)
            (call backoff s).1).1
  unfolding retry
  retry-late left backoff result s e = ground (arith, e)

  retry-done :
      (left backoff : ℕ) (result : R) (s : S)
      → timed_out (call backoff s).0.0 ≡ false
      → (retry call (suc left) backoff result s).1 ≡ (call backoff s).1
  unfolding retry
  retry-done left backoff result s e = ground (arith, e)

  -- What holds of the state behind the last attempt, and from an attempt that is not too late, and
  -- goes from the others to one that is, holds of the state behind the loop.
  pub retry_rule :
      (Q : ℕ → S → S → Type 0)
      → ((backoff : ℕ) (s : S) → Q 0 s (call backoff s).1)
      → ((left backoff : ℕ) (s : S)
          → timed_out (call backoff s).0.0 ≡ false
          → Q (suc left) s (call backoff s).1)
      → ((left backoff : ℕ) (s t : S)
          → timed_out (call backoff s).0.0 ≡ true
          → Q left (call backoff s).1 t
          → Q (suc left) s t)
      → (left backoff : ℕ) (result : R) (s : S) → Q left s (retry call left backoff result s).1
  unfolding retry
  retry_rule Q last done more zero backoff result s = last backoff s
  retry_rule Q last done more (suc left) backoff result s =
      elim (Bool-cases (timed_out (call backoff s).0.0)) [
        | inl late ↦ subst (Q (suc left) s) (sym (retry-late left backoff result s late)) (
            more left backoff s _ late (
              retry_rule Q last done more left (grow backoff) (receive (call backoff s).0.1 result)
                (call backoff s).1))
        | inr in_time ↦
            subst (Q (suc left) s) (sym (retry-done left backoff result s in_time))
              (done left backoff s in_time)
      ]
