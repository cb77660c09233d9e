-- ===== src/Rpc/Transfer.antt =====
-- AFS/AfsClient.h: `rpc_putFile` and `rpc_getFile`, which send a file to the server and fetch one.
pub mod Put
pub mod Disk
pub mod Parts
pub mod Get
use client_server_file_syste.Base.{
  ℕ, zero, suc, ◌+◌, ◌%◌, Bool, true, false, ◌&&◌, not, ◌||◌, ◌==◌, Option, none, some, List, [],
  ◌∷◌, ◌++◌, Bytes, text, to_string, if◌then◌else◌,
}
use client_server_file_syste.Base.Int.{ℤ, pos}
use client_server_file_syste.Sys.{Os, Sys, ret, err}
use client_server_file_syste.Messages.{
  Code, ok, deadline_exceeded, resource_exhausted, aborted, other, FileContent,
}
use client_server_file_syste.Stream.Reader.{stream_file}
use client_server_file_syste.Stream.Writer.{Writer, new_writer, open_if_necessary, write, destruct}
use client_server_file_syste.Rpc.Retry.{timed_out, max_num_retries}

-- What grpc generates for the two calls. `W` is a `ClientWriter`; `close` is `WritesDone` and
-- `Finish`. A fetch gives the messages that arrive, and the status behind them.
pub record Streams (S W : Type 0) : Type 0 where
  pub start : S → W
  pub send : FileContent → W → Bool × W
  pub close : W → Code × S
  pub fetch : Bytes → S → (List FileContent × Code) × S

abbrev pub is_ok : Code → Bool
is_ok ok = true
is_ok deadline_exceeded = false
is_ok resource_exhausted = false
is_ok aborted = false
is_ok (other _) = false

-- `1UL << 20`
abbrev pub chunk_size : ℕ
chunk_size = 1048576

abbrev pub threw {ℓ} : {A : Type ℓ} → Sys A → Bool
threw (ret _) = false
threw (err _) = true

module _ (os : Os) {S W : Type 0} (streams : Streams S W) where
  -- One round: whether the `try` block threw, and the status. The server's reply is not looked at.
  unfoldable pub put_attempt : Bytes → Bytes → S → os.Disk → (Bool × Code) × S × os.Disk
  put_attempt root path s d =
      let (res, w, d') = stream_file os streams.send root path chunk_size (streams.start s) d in
      let (code, s') = streams.close w in ((threw res, code), s', d')

  -- The loop; the first argument is `numRetriesLeft` behind its decrement.
  put_loop : ℕ → Bytes → Bytes → S → os.Disk → ℤ × S × os.Disk
  unfolding put_attempt
  put_loop zero root path s d =
      let ((failed, code), s', d') = put_attempt root path s d in
      (if is_ok code then pos 1 else pos 0, s', d')
  put_loop (suc left) root path s d =
      let ((failed, code), s', d') = put_attempt root path s d in
      elim (not failed && is_ok code) [
        | true ↦ (pos 1, s', d')
        | false ↦ put_loop left root path s' d'
      ]

  -- `true` and `false` as an `int`.
  unfoldable pub rpc_put_file : Bytes → Bytes → S → os.Disk → ℤ × S × os.Disk
  unfolding put_loop
  rpc_put_file root path s d = put_loop 2 root path s d

  -- `while (reader->Read(&contentPart))`; `err` is the exception.
  pub after_open :
      (Writer → os.Disk → Sys (Unit {0}) × Writer × os.Disk)
      → Sys (Unit {0}) × Writer × os.Disk
      → Sys (Unit {0}) × Writer × os.Disk
  after_open next (err e, w, d) = (err e, w, d)
  after_open next (ret _, w, d) = next w d

  pub save_parts : Bytes → List FileContent → Writer → os.Disk → Sys (Unit {0}) × Writer × os.Disk
  unfolding after_open
  save_parts temp [] w d = (ret tt, w, d)
  save_parts temp (part ∷ parts) w d =
      after_open (λ w d. after_open (save_parts temp parts) (write os part.content w d))
        (open_if_necessary os temp w d)

  abbrev pub temp_name : Bytes → ℕ → Bytes
  temp_name filename rand = filename ++ (text "_" ++ (to_string (rand % 1000) ++ text ".txt"))

  -- What a round comes to: `return true`, `return false`, or another one.
  abbrev pub Round : Type 0
  Round = Option Bool × S × os.Disk

  -- The end of the `try` block. The `SequentialFileWriter` goes at the end of the round.
  pub get_finish : ℕ → Bytes → Bytes → Code → Writer → S → os.Disk → Round
  get_finish left temp filename code w s d =
      if is_ok code
      then (some true, s, destruct os w (os.rename d temp filename).1)
      else if not (timed_out code) || left == 0
      then (some false, s, destruct os w d)
      else (none, s, destruct os w d)

  pub get_attempt : ℕ → ℕ → Bytes → Bytes → S → os.Disk → Round
  unfolding save_parts get_finish new_writer
  get_attempt left rand root path s d =
      let filename = root ++ path in
      let temp = temp_name filename rand in
      let ((parts, code), s') = streams.fetch path s in
      let (res, w, d') = save_parts temp parts new_writer d in
      elim res [
        | err e ↦ (some false, s', destruct os w d')
        | ret _ ↦ get_finish left temp filename code w s' d'
      ]

  -- The loop; the first argument is `numRetriesLeft` behind its decrement, and `rands` gives
  -- `rand()` of the rounds.
  pub get_loop : ℕ → (ℕ → ℕ) → Bytes → Bytes → S → os.Disk → ℤ × S × os.Disk
  unfolding get_attempt
  get_loop zero rands root path s d =
      let (res, s', d') = get_attempt zero (rands zero) root path s d in
      (elim res [ none ↦ pos 0 | some done ↦ if done then pos 1 else pos 0 ], s', d')
  get_loop (suc left) rands root path s d =
      let (res, s', d') = get_attempt (suc left) (rands (suc left)) root path s d in
      elim res [
        | some done ↦ (if done then pos 1 else pos 0, s', d')
        | none ↦ get_loop left rands root path s' d'
      ]

  unfoldable pub rpc_get_file : (ℕ → ℕ) → Bytes → Bytes → S → os.Disk → ℤ × S × os.Disk
  unfolding get_loop
  rpc_get_file rands root path s d = get_loop 11 rands root path s d
