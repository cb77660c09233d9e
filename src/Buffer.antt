-- ===== src/Buffer.antt =====
-- AFS/afsfuse_client.cc: `BoundedBuffer`, the queue of files that a thread sends to the server
-- after `close` has returned. A call that would wait on a condition variable is `none` here; the
-- threads are in Buffer/Threads.
pub mod Ring
pub mod Refine
pub mod Threads
pub mod Delivery
pub mod Shutdown
use client_server_file_syste.Base.{
  ℕ, ◌+◌, ◌-◌, ◌%◌, Bool, true, false, not, ◌||◌, Option, none, some, List, [], Bytes, set, get_or,
  replicate, ◌==◌, if◌then◌else◌,
}

pub record BoundedBuffer : Type 0 where
  pub buffer : List Bytes
  pub capacity : ℕ
  pub front : ℕ
  pub rear : ℕ
  pub count : ℕ
  pub not_done : Bool

-- The constructor.
unfoldable pub new_buffer : ℕ → BoundedBuffer
new_buffer capacity = record {
  buffer = replicate capacity [];
  capacity = capacity;
  front = 0;
  rear = 0;
  count = 0;
  not_done = true;
}

-- The predicates of the two waits.
abbrev pub has_room : BoundedBuffer → Bool
has_room b = not (b.count == b.capacity)

abbrev pub has_work : BoundedBuffer → Bool
has_work b = not (b.count == 0) || not b.not_done

-- `deposit` behind its wait.
unfoldable pub put : Bytes → BoundedBuffer → BoundedBuffer
put path b = record b {
  buffer = set b.buffer b.rear path;
  rear = (b.rear + 1) % b.capacity;
  count = b.count + 1;
}

unfoldable pub deposit : Bytes → BoundedBuffer → Option BoundedBuffer
unfolding put
deposit path b = if has_room b then some (put path b) else none

-- `fetch` behind its wait.
unfoldable pub get : BoundedBuffer → Bytes × BoundedBuffer
get b =
    if b.not_done
    then (
      get_or b.buffer b.front [],
      record b { front = (b.front + 1) % b.capacity; count = b.count - 1 },
    )
    else ([], b)

unfoldable pub fetch : BoundedBuffer → Option (Bytes × BoundedBuffer)
unfolding get
fetch b = if has_work b then some (get b) else none

unfoldable pub submit_request : Bytes → BoundedBuffer → Option BoundedBuffer
unfolding deposit
submit_request path b = deposit path b

-- `cleanupBuffer`, without its `notify_one`.
unfoldable pub cleanup_buffer : BoundedBuffer → BoundedBuffer
cleanup_buffer b = record b { not_done = false }
