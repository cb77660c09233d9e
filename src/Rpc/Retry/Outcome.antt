-- ===== src/Rpc/Retry/Outcome.antt =====
-- What the loop gives, when attempts are lost and when none is answered.
use client_server_file_syste.Base.{
  ℕ, zero, suc, ◌≤◌, ◌≡◌, ◌≢◌, refl, ap, List, [], ◌∷◌, sym, true, false, Bool-cases, ◌⊎◌, inl, inr,
  Option, none, some, arith, subst,
}
use client_server_file_syste.Messages.{
  Code, deadline_exceeded, ok, resource_exhausted, aborted, other,
}
use client_server_file_syste.Rpc.Retry.{
  Call, Answer, grow, timed_out, receive, retry, request, max_num_retries, initial_backoff_ms,
}

-- What an attempt did on the server by its end: the handler did not run; it ran, and its reply did
-- not arrive; it ran, and its reply arrived. Only the last has the status OK, and the others may
-- have any other one.
pub data Attempt {D R : Type 0} (handler : D → R × D) (d : D) : Code → Option R → D → Type 0 where
  lost : (c : Code) → c ≢ ok → Attempt handler d c none d
  unanswered : (c : Code) → c ≢ ok → Attempt handler d c none (handler d).1
  answered : Attempt handler d ok (some (handler d).0) (handler d).1

-- The server after `n` runs of a handler.
abbrev pub after : {D R : Type 0} → (D → R × D) → ℕ → D → D
after handler zero d = d
after handler (suc n) d = after handler n (handler d).1

after-kept :
    {D R : Type 0} (handler : D → R × D) (P : D → Type 0)
    → ((x : D) → P x → P (handler x).1)
    → (n : ℕ) (d : D) → P d
    → P (after handler n d)
after-kept handler P step zero d p = p
after-kept handler P step (suc n) d p = after-kept handler P step n (handler d).1 (step d p)

-- What a call of at most `max` attempts, on the server `d`, comes to: no reply, and the handler
-- ran up to `max` times; or the reply of the last of up to `max` runs.
pub data Ran {D R : Type 0} (handler : D → R × D) (max : ℕ) (d : D) (start : R)
    : R → D → Type 0 where
  silent : (n : ℕ) → n ≤ max → Ran handler max d start start (after handler n d)
  replied :
      (n : ℕ)
      → suc n ≤ max
      → Ran handler max d start (handler (after handler n d)).0 (handler (after handler n d)).1

module _ {D R : Type 0} {handler : D → R × D} where
  more :
      {max : ℕ} {d e : D} {start r : R}
      → Ran handler max d start r e
      → Ran handler (suc max) d start r e
  more (silent n h) = silent n (omega arith)
  more (replied n h) = replied n (omega arith)

  once_more :
      {max : ℕ} {d e : D} {start r : R}
      → Ran handler max (handler d).1 start r e
      → Ran handler (suc max) d start r e
  once_more (silent n h) = silent (suc n) (omega arith)
  once_more (replied n h) = replied (suc n) (omega arith)

  Ran-stop :
      {max : ℕ} {d e f : D} {start r r' : R}
      → (r ≡ r') × (e ≡ f)
      → Ran handler max d start r e
      → Ran handler max d start r' f
  Ran-stop {max = max} {d = d} {e = e} {f = f} {start = start} {r' = r'} (p, q) ran =
      subst (λ (x : D). Ran handler max d start r' x) q
        (subst (λ (x : R). Ran handler max d start x e) p ran)

  -- An attempt, and what the others come to if it was too late.
  Attempt-Ran :
      {left : ℕ} {d e f : D} {start r : R} {c : Code} {o : Option R}
      → Attempt handler d c o e
      → (timed_out c ≡ true → o ≡ none → Ran handler left e start r f)
      → (timed_out c ≡ false → (receive o start ≡ r) × (e ≡ f))
      → Ran handler (suc left) d start r f
  Attempt-Ran {left = left} {d = d} {start = start} (lost c ne) rest done =
      elim (Bool-cases (timed_out c)) [
        | inl late ↦ more (rest late refl)
        | inr in_time ↦ Ran-stop (done in_time) (silent 0 (omega arith))
      ]
  Attempt-Ran {left = left} {d = d} {start = start} (unanswered c ne) rest done =
      elim (Bool-cases (timed_out c)) [
        | inl late ↦ once_more (rest late refl)
        | inr in_time ↦ Ran-stop (done in_time) (silent 1 (omega arith))
      ]
  Attempt-Ran answered rest done = Ran-stop (done refl) (replied 0 (omega arith))

-- What the runs keep holds of the disk behind the call, and of the one that the last run found.
pub Ran-kept :
    {D R : Type 0} {handler : D → R × D} {max : ℕ} {d : D} {start r : R} {e : D}
    → (P : D → Type 0) → ((x : D) → P x → P (handler x).1)
    → P d
    → Ran handler max d start r e
    → P e × ((r ≡ start) ⊎ ((x : D) × P x × (r ≡ (handler x).0)))
Ran-kept {handler = handler} P step p (silent n h) = (after-kept handler P step n _ p, inl refl)
Ran-kept {handler = handler} P step p (replied n h) =
    let q = after-kept handler P step n _ p in (step _ q, inr (_, q, refl))

module _ {S D R : Type 0} (call : Call S R) (disk : S → D) (handler : D → R × D) where
  -- What grpc promises of an attempt, where no handler runs on behind the end of its attempt: it
  -- runs the handler at most once, and the status is OK if and only if the reply has arrived.
  abbrev pub IsRpc : Type 0
  IsRpc =
      (backoff : ℕ) (s : S)
      → Attempt handler (disk s) (call backoff s).0.0 (call backoff s).0.1 (disk (call backoff s).1)

  abbrev RetryRan : ℕ → ℕ → R → S → Type 0
  RetryRan left backoff result s =
      Ran handler (suc left) (disk s) result (retry call left backoff result s).0.result
        (disk (retry call left backoff result s).1)

  -- What is left of an answer but the deadlines.
  abbrev outcome : Answer R × S → R × S
  outcome (a, s) = (a.result, s)

  retry_late :
      (left backoff : ℕ) (result : R) (s : S)
      → timed_out (call backoff s).0.0 ≡ true
      → outcome (retry call (suc left) backoff result s)
        ≡ outcome (
            retry call left (grow backoff) (receive (call backoff s).0.1 result) (call backoff s).1)
  unfolding retry
  retry_late left backoff result s e = ground arith

  retry_done :
      (left backoff : ℕ) (result : R) (s : S)
      → timed_out (call backoff s).0.0 ≡ false
      → outcome (retry call (suc left) backoff result s)
        ≡ (receive (call backoff s).0.1 result, (call backoff s).1)
  unfolding retry
  retry_done left backoff result s e = ground arith

  retry_last :
      (backoff : ℕ) (result : R) (s : S)
      → outcome (retry call zero backoff result s)
        ≡ (receive (call backoff s).0.1 result, (call backoff s).1)
  unfolding retry
  retry_last backoff result s = refl

  abbrev OutcomeRan : ℕ → R → S → R × S → Type 0
  OutcomeRan max result s (r, s') = Ran handler max (disk s) result r (disk s')

  retry-Ran :
      (left backoff : ℕ) (result : R) (s : S)
      → IsRpc
      → OutcomeRan (suc left) result s (outcome (retry call left backoff result s))
  retry-Ran zero backoff result s h =
      subst (OutcomeRan 1 result s) (sym (retry_last backoff result s))
        (Attempt-Ran (h backoff s) (λ t n. rw n (silent 0 (omega arith))) (λ t. (refl, refl)))
  retry-Ran (suc left) backoff result s h = elim (Bool-cases (timed_out (call backoff s).0.0)) [
    | inl late ↦
        subst (OutcomeRan (suc (suc left)) result s) (sym (retry_late left backoff result s late)) (
          Attempt-Ran (h backoff s)
            (λ t n. rw n (retry-Ran left (grow backoff) result (call backoff s).1 h))
            (λ t. absurd (ground arith)))
    | inr done ↦
        subst (OutcomeRan (suc (suc left)) result s) (sym (retry_done left backoff result s done))
          (Attempt-Ran (h backoff s) (λ t n. absurd (ground arith)) (λ t. (refl, refl)))
  ]

  pub request-Ran :
      (result : R) (s : S)
      → IsRpc
      → Ran handler 13
          (disk s)
          result
          (request call result s).0.result
          (disk (request call result s).1)
  request-Ran result s h = retry-Ran max_num_retries initial_backoff_ms result s h

timed_out-deadline : (c : Code) → timed_out c ≡ true → c ≡ deadline_exceeded
timed_out-deadline deadline_exceeded h = refl
timed_out-deadline ok h = absurd (cc h)
timed_out-deadline resource_exhausted h = absurd (cc h)
timed_out-deadline aborted h = absurd (cc h)
timed_out-deadline (other n) h = absurd (cc h)

-- The attempts of a call: what is left to be tried and the deadline, the state before, all
-- deadlines, and the state behind. Only DEADLINE_EXCEEDED is tried again.
pub data Tried {S R : Type 0} (call : Call S R) : ℕ → ℕ → S → List ℕ → S → Type 0 where
  stopped :
      (left backoff : ℕ) (s : S)
      → (call backoff s).0.0 ≢ deadline_exceeded
      → Tried call left backoff s (backoff ∷ []) (call backoff s).1
  given_up :
      (backoff : ℕ) (s : S)
      → (call backoff s).0.0 ≡ deadline_exceeded
      → Tried call 0 backoff s (backoff ∷ []) (call backoff s).1
  again :
      (left backoff : ℕ) (s t : S) (deadlines : List ℕ)
      → (call backoff s).0.0 ≡ deadline_exceeded
      → Tried call left (grow backoff) (call backoff s).1 deadlines t
      → Tried call (suc left) backoff s (backoff ∷ deadlines) t

module _ {S R : Type 0} (call : Call S R) where
  abbrev trail : Answer R × S → List ℕ × S
  trail (a, s) = (a.deadlines, s)

  trail_late :
      (left backoff : ℕ) (result : R) (s : S)
      → timed_out (call backoff s).0.0 ≡ true
      → let rest = trail (
          retry call left
            (grow backoff)
            (receive (call backoff s).0.1 result)
            (call backoff s).1) in
        let all : List ℕ × S = (backoff ∷ rest.0, rest.1) in
        trail (retry call (suc left) backoff result s) ≡ all
  unfolding retry
  trail_late left backoff result s e = ground (arith, e)

  trail_done :
      (left backoff : ℕ) (result : R) (s : S)
      → timed_out (call backoff s).0.0 ≡ false
      → let one : List ℕ × S = (backoff ∷ [], (call backoff s).1) in
        trail (retry call (suc left) backoff result s) ≡ one
  unfolding retry
  trail_done left backoff result s e = ground (arith, e)

  trail_last :
      (backoff : ℕ) (result : R) (s : S)
      → let one : List ℕ × S = (backoff ∷ [], (call backoff s).1) in
        trail (retry call zero backoff result s) ≡ one
  unfolding retry
  trail_last backoff result s = refl

  abbrev TriedTrail : ℕ → ℕ → S → List ℕ × S → Type 0
  TriedTrail left backoff s (deadlines, t) = Tried call left backoff s deadlines t

  in_time-ne : (c : Code) → timed_out c ≡ false → c ≢ deadline_exceeded
  in_time-ne c h e = absurd (cc (h, ap timed_out e))

  retry-Tried :
      (left backoff : ℕ) (result : R) (s : S)
      → TriedTrail left backoff s (trail (retry call left backoff result s))
  retry-Tried zero backoff result s =
      subst (TriedTrail 0 backoff s) (sym (trail_last backoff result s))
        (elim (Bool-cases (timed_out (call backoff s).0.0)) [
          | inl late ↦ given_up backoff s (timed_out-deadline _ late)
          | inr in_time ↦ stopped 0 backoff s (in_time-ne _ in_time)
        ])
  retry-Tried (suc left) backoff result s = elim (Bool-cases (timed_out (call backoff s).0.0)) [
    | inl late ↦
        subst (TriedTrail (suc left) backoff s) (sym (trail_late left backoff result s late)) (
          again left backoff s _ _ (timed_out-deadline _ late) (
            retry-Tried left (grow backoff) (receive (call backoff s).0.1 result)
              (call backoff s).1))
    | inr in_time ↦
        subst (TriedTrail (suc left) backoff s) (sym (trail_done left backoff result s in_time))
          (stopped (suc left) backoff s (in_time-ne _ in_time))
  ]

module _ {S D R : Type 0} (call : Call S R) (disk : S → D) (handler : D → R × D) where
  -- Of a call of which grpc runs each attempt at most once, before the attempt ends, and brings
  -- the reply if and only if the status is OK. The attempts are at most 13, the first with a
  -- deadline of 50 ms and each other one with that of the attempt before it, grown by half; one
  -- is made behind another exactly if that ended with DEADLINE_EXCEEDED. The handler has run at
  -- most 13 times on the server; the reply that the caller is left with is that of the last run,
  -- or, if no reply arrived, the variable as it was.
  pub request_runs :
      (result : R) (s : S)
      → IsRpc call disk handler
      → Ran handler 13
          (disk s)
          result
          (request call result s).0.result
          (disk (request call result s).1)
        × Tried call 12 50 s (request call result s).0.deadlines (request call result s).1
  request_runs result s h = (
    request-Ran call disk handler result s h,
    retry-Tried call max_num_retries initial_backoff_ms result s,
  )
