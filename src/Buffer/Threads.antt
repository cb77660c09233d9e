-- ===== src/Buffer/Threads.antt =====
-- AFS/afsfuse_client.cc: the threads that meet at the `BoundedBuffer`: the callers of
-- `submitRequest`, the thread that runs `consumer`, and `client_destroy`, which calls
-- `cleanupBuffer`. A critical section is one step. A notification wakes the consumer if it sleeps;
-- it is part of the step before it, since a late one only makes the consumer test again.
use client_server_file_syste.Base.{◌≡◌, ◌≢◌, true, false, some, none, List, [], ◌∷◌, ◌++◌, Bytes, ℕ}
use client_server_file_syste.Buffer.{
  BoundedBuffer, new_buffer, submit_request, fetch, cleanup_buffer,
}

-- Where the consumer stands: at `while (notDone)`; in `fetch`, with the lock to take; still with
-- the lock, about to sleep; asleep; behind `fetch`, with a path; behind `if (notDone)`, in
-- `closeOnServer`; behind the loop.
pub data Phase : Type 0 where
  testing fetching committing asleep : Phase
  holding sending : Bytes → Phase
  finished : Phase

pub record System : Type 0 where
  pub buf : BoundedBuffer
  pub phase : Phase
  -- The calls of `closeOnServer` and of `submitRequest` so far, oldest first.
  pub sent : List Bytes
  pub submitted : List Bytes

-- `new BoundedBuffer(capacity)`, and the thread that is started on it.
abbrev pub started : ℕ → System
started capacity = record { buf = new_buffer capacity; phase = testing; sent = []; submitted = [] }

-- `not_empty.notify_one()`
abbrev pub notified : Phase → Phase
notified testing = testing
notified fetching = fetching
notified committing = committing
notified asleep = fetching
notified (holding p) = holding p
notified (sending p) = sending p
notified finished = finished

-- The path that is on its way.
abbrev pub passed : Phase → List Bytes
passed testing = []
passed fetching = []
passed committing = []
passed asleep = []
passed (holding p) = []
passed (sending p) = p ∷ []
passed finished = []

-- `consumer` and the `fetch` that it calls.
pub data Consumes (s : System) : System → Type 0 where
  enter : s.phase ≡ testing → s.buf.not_done ≡ true → Consumes s (record s { phase = fetching })
  leave : s.phase ≡ testing → s.buf.not_done ≡ false → Consumes s (record s { phase = finished })
  take :
      (p : Bytes) (b : BoundedBuffer)
      → s.phase ≡ fetching
      → fetch s.buf ≡ some (p, b)
      → Consumes s (record s { buf = b; phase = holding p })
  commit : s.phase ≡ fetching → fetch s.buf ≡ none → Consumes s (record s { phase = committing })
  sleep : s.phase ≡ committing → Consumes s (record s { phase = asleep })
  pass :
      (p : Bytes)
      → s.phase ≡ holding p
      → s.buf.not_done ≡ true
      → Consumes s (record s { phase = sending p })
  send :
      (p : Bytes)
      → s.phase ≡ sending p
      → Consumes s (record s { phase = testing; sent = s.sent ++ (p ∷ []) })
  drop :
      (p : Bytes)
      → s.phase ≡ holding p
      → s.buf.not_done ≡ false
      → Consumes s (record s { phase = testing })

-- The other threads. A submitter needs the lock; `cleanupBuffer` takes none.
pub data Disturbs (s : System) : System → Type 0 where
  submit :
      (p : Bytes) (b : BoundedBuffer)
      → s.phase ≢ committing
      → submit_request p s.buf ≡ some b
      → Disturbs s
          (record s { buf = b; phase = notified s.phase; submitted = s.submitted ++ (p ∷ []) })
  cleanup : Disturbs s (record s { buf = cleanup_buffer s.buf; phase = notified s.phase })
  -- A condition variable may wake a thread for no reason.
  spurious : s.phase ≡ asleep → Disturbs s (record s { phase = fetching })

pub data Reach (s : System) : System → Type 0 where
  here : Reach s s
  consume : {t u : System} → Reach s t → Consumes t u → Reach s u
  disturb : {t u : System} → Reach s t → Disturbs t u → Reach s u

-- Steps of the consumer alone.
pub data Runs (s : System) : System → Type 0 where
  stay : Runs s s
  go_on : {t u : System} → Runs s t → Consumes t u → Runs s u
