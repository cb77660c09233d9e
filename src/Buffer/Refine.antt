-- ===== src/Buffer/Refine.antt =====
-- A well-formed buffer is a bounded queue of paths.
use native.Mathlib.Nat.{mod-add-mod}
use native.Mathlib.Decide.{ℕ_discrete}
use client_server_file_syste.Base.{
  ℕ, zero, suc, ◌+◌, ◌-◌, ◌%◌, ◌≤◌, ◌<◌, ◌≡◌, ◌≢◌, refl, sym, ap, ◌∙◌, Bool, true, false, Option,
  none, some, List, [], ◌∷◌, ◌++◌, Bytes, set, length, length-set, length-replicate, get_or, arith,
  ◌==◌, if◌then◌else◌, Bool-cases, inl, inr,
}
use client_server_file_syste.Buffer.{BoundedBuffer, new_buffer, put, deposit, fetch}
use client_server_file_syste.Buffer.Ring.{ring, ring-push}

pub record IsValid (b : BoundedBuffer) : Type 0 where
  pub slots : length b.buffer ≡ b.capacity
  pub front_in : b.front < b.capacity
  pub count_in : b.count ≤ b.capacity
  pub rear_at : b.rear ≡ (b.front + b.count) % b.capacity

-- The paths in the buffer, oldest first.
abbrev pub contents : BoundedBuffer → List Bytes
contents b = ring b.capacity b.buffer b.front b.count

pub new_buffer-IsValid :
    (capacity : ℕ)
    → 0 < capacity
    → IsValid (new_buffer capacity) × (contents (new_buffer capacity) ≡ [])
unfolding new_buffer
new_buffer-IsValid capacity h = (
  record {
    slots = length-replicate capacity [];
    front_in = h;
    count_in = omega arith;
    rear_at = omega arith;
  },
  refl,
)

pub put-IsValid :
    (path : Bytes) (b : BoundedBuffer) → IsValid b → b.count ≢ b.capacity → IsValid (put path b)
unfolding put
put-IsValid path b v room = record {
  slots = length-set b.buffer b.rear path ∙ v.slots;
  front_in = v.front_in;
  count_in = omega (arith, v.count_in);
  rear_at =
      ap (λ (r : ℕ). (r + 1) % b.capacity) v.rear_at
      ∙ (mod-add-mod (b.front + b.count) b.capacity 1
          ∙ ap (λ (j : ℕ). j % b.capacity) (omega arith));
}

pub put-contents :
    (path : Bytes) (b : BoundedBuffer)
    → IsValid b
    → b.count ≢ b.capacity
    → contents (put path b) ≡ contents b ++ (path ∷ [])
unfolding put
put-contents path b v room =
    let more : b.count + 1 ≡ suc b.count = omega arith in
    ap (λ (n : ℕ). ring b.capacity (set b.buffer b.rear path) b.front n) more
    ∙ ring-push b.capacity b.buffer path b.front b.rear b.count v.rear_at v.front_in
        (omega (arith, v.count_in)) v.slots

-- The buffer behind `fetch`, while it is in use.
abbrev pub popped : BoundedBuffer → BoundedBuffer
popped b = record b { front = (b.front + 1) % b.capacity; count = b.count - 1 }

pub popped-IsValid : (b : BoundedBuffer) → IsValid b → b.count ≢ 0 → IsValid (popped b)
popped-IsValid b v some' = record {
  slots = v.slots;
  front_in = omega (arith, v.front_in);
  count_in = omega (arith, v.count_in);
  rear_at =
      v.rear_at
      ∙ (ap (λ (j : ℕ). j % b.capacity) (omega arith)
          ∙ sym (mod-add-mod (b.front + 1) b.capacity (b.count - 1)));
}

pub popped-contents :
    (b : BoundedBuffer)
    → b.count ≢ 0
    → contents b ≡ get_or b.buffer b.front [] ∷ contents (popped b)
popped-contents b some' =
    let less : b.count ≡ suc (b.count - 1) = omega arith in
    ap (λ (n : ℕ). ring b.capacity b.buffer b.front n) less

length-ring : (capacity : ℕ) (slots : List Bytes) (i n : ℕ) → length (ring capacity slots i n) ≡ n
length-ring capacity slots i zero = refl
length-ring capacity slots i (suc n) = ap suc (length-ring capacity slots ((i + 1) % capacity) n)

length-contents : (b : BoundedBuffer) → length (contents b) ≡ b.count
length-contents b = length-ring b.capacity b.buffer b.front b.count

contents_empty : (b : BoundedBuffer) → b.count ≡ 0 → contents b ≡ []
contents_empty b e = ap (ring b.capacity b.buffer b.front) e

-- The queue that the buffer stands for: at most `capacity` paths, oldest first, and the flag.
pub record Queue : Type 0 where
  pub paths : List Bytes
  pub capacity : ℕ
  pub not_done : Bool

abbrev pub view : BoundedBuffer → Queue
view b = record { paths = contents b; capacity = b.capacity; not_done = b.not_done }

pub enqueue : Bytes → Queue → Option Queue
enqueue path q =
    if length q.paths == q.capacity
    then none
    else some (record q { paths = q.paths ++ (path ∷ []) })

pub dequeue : Queue → Option (Bytes × Queue)
dequeue q =
    if q.not_done
    then elim q.paths [ [] ↦ none | p ∷ ps ↦ some (p, record q { paths = ps }) ]
    else some ([], q)

-- A call on the buffer that does not wait keeps it well formed and does to its queue what the
-- call on the queue does; a call waits just where the one on the queue cannot be made.
abbrev pub DepositRefines : Option BoundedBuffer → Option Queue → Type 0
DepositRefines none none = Unit
DepositRefines (some b') (some q) = IsValid b' × (view b' ≡ q)
DepositRefines (some _) none = ⊥
DepositRefines none (some _) = ⊥

abbrev pub FetchRefines : Option (Bytes × BoundedBuffer) → Option (Bytes × Queue) → Type 0
FetchRefines none none = Unit
FetchRefines (some (p, b)) (some (r, q)) = IsValid b × (p ≡ r) × (view b ≡ q)
FetchRefines (some _) none = ⊥
FetchRefines none (some _) = ⊥

pub deposit_full : (path : Bytes) (b : BoundedBuffer) → b.count ≡ b.capacity → deposit path b ≡ none
unfolding deposit
deposit_full path b e = ground arith

pub deposit_room :
    (path : Bytes) (b : BoundedBuffer) → b.count ≢ b.capacity → deposit path b ≡ some (put path b)
unfolding deposit
deposit_room path b ne = ground arith

enqueue_full : (path : Bytes) (q : Queue) → length q.paths ≡ q.capacity → enqueue path q ≡ none
unfolding enqueue
enqueue_full path q e = ground arith

enqueue_room :
    (path : Bytes) (q : Queue)
    → length q.paths ≢ q.capacity
    → enqueue path q ≡ some (record q { paths = q.paths ++ (path ∷ []) })
unfolding enqueue
enqueue_room path q ne = ground arith

view-put :
    (path : Bytes) (b : BoundedBuffer)
    → IsValid b
    → b.count ≢ b.capacity
    → view (put path b) ≡ record (view b) { paths = contents b ++ (path ∷ []) }
unfolding put
view-put path b v ne =
    ap {B = Queue} (λ (ps : List Bytes). record (view b) { paths = ps }) (put-contents path b v ne)

-- On a well-formed buffer `deposit` is `enqueue`: it waits just when the queue is full.
pub deposit_refines :
    (path : Bytes) (b : BoundedBuffer)
    → IsValid b
    → DepositRefines (deposit path b) (enqueue path (view b))
deposit_refines path b v = elim (ℕ_discrete b.count b.capacity) [
  | yes e ↦ rw (deposit_full path b e, enqueue_full path (view b) (length-contents b ∙ e)) tt
  | no ne ↦
      rw
        (deposit_room path b ne, enqueue_room path (view b) (λ e. ne (sym (length-contents b) ∙ e)))
        (put-IsValid path b v ne, view-put path b v ne)
]

pub fetch_done : (b : BoundedBuffer) → b.not_done ≡ false → fetch b ≡ some ([], b)
unfolding fetch
fetch_done b e = ground arith

pub fetch_empty : (b : BoundedBuffer) → b.not_done ≡ true → b.count ≡ 0 → fetch b ≡ none
unfolding fetch
fetch_empty b u e = ground arith

pub fetch_some :
    (b : BoundedBuffer)
    → b.not_done ≡ true
    → b.count ≢ 0
    → fetch b ≡ some (get_or b.buffer b.front [], popped b)
unfolding fetch
fetch_some b u ne = ground arith

dequeue_done : (q : Queue) → q.not_done ≡ false → dequeue q ≡ some ([], q)
unfolding dequeue
dequeue_done q e = ground arith

dequeue_empty : (q : Queue) → q.not_done ≡ true → q.paths ≡ [] → dequeue q ≡ none
unfolding dequeue
dequeue_empty q u e = ground arith

dequeue-some :
    (q : Queue) (p : Bytes) (ps : List Bytes)
    → q.not_done ≡ true
    → q.paths ≡ p ∷ ps
    → dequeue q ≡ some (p, record q { paths = ps })
unfolding dequeue
dequeue-some q p ps u e = ground arith

-- On a well-formed buffer `fetch` is `dequeue`: it waits just when the queue is empty and in use.
pub fetch_refines : (b : BoundedBuffer) → IsValid b → FetchRefines (fetch b) (dequeue (view b))
fetch_refines b v = elim (Bool-cases b.not_done) [
  | inr done ↦ rw (fetch_done b done, dequeue_done (view b) done) (v, refl, refl)
  | inl used ↦ elim (ℕ_discrete b.count 0) [
    | yes e ↦ rw (fetch_empty b used e, dequeue_empty (view b) used (contents_empty b e)) tt
    | no ne ↦
        rw
          (
            fetch_some b used ne,
            dequeue-some (view b) (get_or b.buffer b.front []) (contents (popped b)) used
                (popped-contents b ne),
          )
          (popped-IsValid b v ne, refl, refl)
  ]
]
