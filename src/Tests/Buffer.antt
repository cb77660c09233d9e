-- ===== src/Tests/Buffer.antt =====
-- The queue of files to send.
use client_server_file_syste.Base.{◌≡◌, refl, true, false, [], ◌∷◌, ◌++◌, text, arith}
use client_server_file_syste.Buffer.{BoundedBuffer, new_buffer, deposit, submit_request, fetch, put}
use client_server_file_syste.Buffer.Refine.{
  IsValid, view, enqueue, dequeue, DepositRefines, FetchRefines, deposit_refines, fetch_refines,
}
use client_server_file_syste.Buffer.Threads.{
  System, fetching, committing, asleep, holding, finished, passed, pass, started, Consumes, Reach,
  Runs, here, consume, disturb, submit, enter, take, send,
}
use client_server_file_syste.Buffer.Delivery.{Inv, Reach-Inv}
use client_server_file_syste.Buffer.Shutdown.{sent_after_cleanup, shutdown_hangs, shutdown_finishes}

-- Three slots; "/b", then "/c" round the end.
abbrev wrapped : BoundedBuffer
wrapped = record {
  buffer = text "/c" ∷ text "/a" ∷ text "/b" ∷ [];
  capacity = 3;
  front = 2;
  rear = 1;
  count = 2;
  not_done = true;
}

wrapped-IsValid : IsValid wrapped
wrapped-IsValid = omega arith

deposit_refines_example :
    DepositRefines (deposit (text "/d") wrapped) (enqueue (text "/d") (view wrapped))
deposit_refines_example = deposit_refines (text "/d") wrapped wrapped-IsValid

fetch_refines_example : FetchRefines (fetch wrapped) (dequeue (view wrapped))
fetch_refines_example = fetch_refines wrapped wrapped-IsValid

one_sent : System
unfolding put
one_sent = record (started 2) {
  buf = record (put (text "/a") (new_buffer 2)) { front = 1; count = 0 };
  sent = text "/a" ∷ [];
  submitted = text "/a" ∷ [];
}

one_sent-Reach : Reach (started 2) one_sent
unfolding one_sent new_buffer put submit_request fetch
one_sent-Reach =
    consume
      (consume
        (consume
          (consume
            (disturb here (submit (text "/a") (put (text "/a") (new_buffer 2)) (λ e. cc) refl))
            (enter refl refl))
          (take (text "/a") (record (put (text "/a") (new_buffer 2)) { front = 1; count = 0 }) refl
            refl))
        (pass (text "/a") refl refl))
      (send (text "/a") refl)

Reach-Inv_example : Inv one_sent
Reach-Inv_example = Reach-Inv 2 (omega arith) one_sent-Reach

abbrev about_to_sleep : System
about_to_sleep = record {
  buf = record wrapped { count = 0; rear = 2 };
  phase = committing;
  sent = [];
  submitted = [];
}

abbrev ended : System
ended = record {
  buf = record wrapped { not_done = false };
  phase = fetching;
  sent = [];
  submitted = text "/b" ∷ text "/c" ∷ [];
}

-- `fetch` has given the empty string, although "/b" and "/c" are there.
abbrev left_behind : System
left_behind = record ended { phase = holding [] }

sent_after_cleanup_example :
    (left_behind.buf.not_done ≡ false)
    × (left_behind.sent ++ passed left_behind.phase ≡ ended.sent ++ passed ended.phase)
unfolding fetch
sent_after_cleanup_example =
    sent_after_cleanup {s = ended} {t = left_behind} refl
      (consume here (take [] ended.buf refl refl))

shutdown_hangs_example :
    (t : System) × Reach about_to_sleep t
    × (t.phase ≡ asleep)
    × (t.buf.not_done ≡ false)
    × ((u : System) → ¬ Consumes t u)
shutdown_hangs_example = shutdown_hangs about_to_sleep refl

shutdown_finishes_example : (t : System) × Runs ended t × (t.phase ≡ finished)
shutdown_finishes_example = shutdown_finishes ended refl (λ e. cc) (λ e. cc)
