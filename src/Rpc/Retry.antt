-- ===== src/Rpc/Retry.antt =====
-- AFS/AfsClient.h: the loop that every call but the two file transfers stands in: `while
-- (!isDone)`, with a deadline that grows by half each time the last one was exceeded.
pub mod Bounds
pub mod Outcome
pub mod Rule
use client_server_file_syste.Base.{
  ℕ, zero, suc, ◌*◌, ◌/◌, ◌%◌, ◌^◌, Bool, true, false, Option, none, some, List, [], ◌∷◌,
}
use client_server_file_syste.Messages.{
  Code, ok, deadline_exceeded, resource_exhausted, aborted, other, u32,
}

-- MAX_NUM_RETRIES, INITIAL_BACKOFF_MS
abbrev pub max_num_retries : ℕ
max_num_retries = 12

abbrev pub initial_backoff_ms : ℕ
initial_backoff_ms = 50

-- `currentBackoff *= 1.5` on an `unsigned int`: the product is exact, and its fraction is cut off.
abbrev pub grow : ℕ → ℕ
grow backoff = u32 (backoff * 3 / 2)

abbrev pub timed_out : Code → Bool
timed_out deadline_exceeded = true
timed_out ok = false
timed_out resource_exhausted = false
timed_out aborted = false
timed_out (other _) = false

-- One attempt, by its deadline in milliseconds: the status, and the reply if one was received.
-- `S` is all that the attempt may change: the channel and the server behind it.
abbrev pub Call : Type 0 → Type 0 → Type 0
Call S R = ℕ → S → (Code × Option R) × S

-- A message that is not received leaves the variable as it was.
abbrev pub receive {ℓ} : {R : Type ℓ} → Option R → R → R
receive none result = result
receive (some reply) result = reply

-- The variable for the reply behind the loop, and the deadlines of the attempts.
pub record Answer (R : Type 0) : Type 0 where
  pub result : R
  pub deadlines : List ℕ

module _ {S R : Type 0} (call : Call S R) where
  -- The first argument is `numRetriesLeft`.
  unfoldable pub retry : ℕ → ℕ → R → S → Answer R × S
  retry zero backoff result s =
      let ((code, reply), s') = call backoff s in
      (record { result = receive reply result; deadlines = backoff ∷ [] }, s')
  retry (suc left) backoff result s =
      let ((code, reply), s') = call backoff s in
      elim (timed_out code) [
        | false ↦ (record { result = receive reply result; deadlines = backoff ∷ [] }, s')
        | true ↦
            let (rest, s'') = retry left (grow backoff) (receive reply result) s' in
            (record rest { deadlines = backoff ∷ rest.deadlines }, s'')
      ]

  abbrev pub request : R → S → Answer R × S
  request result s = retry max_num_retries initial_backoff_ms result s
