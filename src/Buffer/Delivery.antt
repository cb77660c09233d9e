-- ===== src/Buffer/Delivery.antt =====
-- Files reach the server in the order in which they were submitted.
use client_server_file_syste.Base.{
  ℕ, ◌<◌, ◌≡◌, refl, sym, ap, ◌∙◌, true, Option, some, none, List, [], ◌∷◌, ◌++◌, Bytes,
  append_assoc, Bool-cases, inl, inr, subst,
}
use native.Mathlib.Decide.{ℕ_discrete}
use client_server_file_syste.Buffer.{
  BoundedBuffer, new_buffer, put, submit_request, deposit, fetch, cleanup_buffer,
}
use client_server_file_syste.Buffer.Refine.{
  IsValid, contents, new_buffer-IsValid, deposit_full, deposit_room, put-IsValid, put-contents,
  fetch_done, fetch_empty, fetch_some, popped-IsValid, popped-contents,
}
use client_server_file_syste.Buffer.Threads.{
  Phase, testing, fetching, committing, asleep, holding, sending, passed, finished, System, started,
  notified, Consumes, enter, leave, take, commit, sleep, pass, send, drop, Disturbs, submit,
  cleanup, spurious, Reach, here, consume, disturb,
}

-- The path between `fetch` and the end of `closeOnServer`.
abbrev pub hand : Phase → List Bytes
hand (holding p) = p ∷ []
hand (sending p) = p ∷ []
hand testing = []
hand fetching = []
hand committing = []
hand asleep = []
hand finished = []

pub record Inv (s : System) : Type 0 where
  pub valid : IsValid s.buf
  pub complete : s.buf.not_done ≡ true → s.submitted ≡ s.sent ++ (hand s.phase ++ contents s.buf)
  pub ordered : (rest : List Bytes) × (s.submitted ≡ s.sent ++ (passed s.phase ++ rest))

not_done-put : (p : Bytes) (b : BoundedBuffer) → (put p b).not_done ≡ b.not_done
unfolding put
not_done-put p b = refl

started-Inv : (capacity : ℕ) → 0 < capacity → Inv (started capacity)
unfolding new_buffer
started-Inv capacity h = record {
  valid = (new_buffer-IsValid capacity h).0;
  complete = λ _. refl;
  ordered = ([], refl);
}

-- What `fetch` does to the paths.
abbrev Fetched : BoundedBuffer → Option (Bytes × BoundedBuffer) → Type 0
Fetched b none = Unit
Fetched b (some (p, b')) =
    IsValid b' × (b'.not_done ≡ b.not_done) × (b.not_done ≡ true → contents b ≡ p ∷ contents b')

fetch-Fetched : (b : BoundedBuffer) → IsValid b → Fetched b (fetch b)
fetch-Fetched b v = elim (Bool-cases b.not_done) [
  | inr done ↦ rw (fetch_done b done) (v, refl, λ used. cc)
  | inl used ↦ elim (ℕ_discrete b.count 0) [
    | yes z ↦ rw (fetch_empty b used z) tt
    | no nz ↦ rw (fetch_some b used nz) (popped-IsValid b v nz, refl, λ _. popped-contents b nz)
  ]
]

abbrev Submitted : Bytes → BoundedBuffer → Option BoundedBuffer → Type 0
Submitted p b none = Unit
Submitted p b (some b') =
    IsValid b' × (b'.not_done ≡ b.not_done) × (contents b' ≡ contents b ++ (p ∷ []))

deposit-Submitted : (p : Bytes) (b : BoundedBuffer) → IsValid b → Submitted p b (deposit p b)
deposit-Submitted p b v = elim (ℕ_discrete b.count b.capacity) [
  | yes full ↦ rw (deposit_full p b full) tt
  | no room ↦
      rw (deposit_room p b room) (put-IsValid p b v room, not_done-put p b, put-contents p b v room)
]

complete_at :
    {s : System} (phase : Phase)
    → Inv s
    → s.phase ≡ phase
    → s.buf.not_done ≡ true
    → s.submitted ≡ s.sent ++ (hand phase ++ contents s.buf)
complete_at {s} phase v e used =
    v.complete used ∙ ap (λ (ph : Phase). s.sent ++ (hand ph ++ contents s.buf)) e

abbrev Ordered : System → Phase → Type 0
Ordered s phase = (rest : List Bytes) × (s.submitted ≡ s.sent ++ (passed phase ++ rest))

Ordered-at : {s : System} (phase : Phase) → Inv s → s.phase ≡ phase → Ordered s phase
Ordered-at {s} phase v e = subst (Ordered s) e v.ordered

Consumes-Inv : {s t : System} → Inv s → Consumes s t → Inv t
Consumes-Inv {s} v (enter p u) = record {
  valid = v.valid;
  complete = complete_at testing v p;
  ordered = Ordered-at testing v p;
}
Consumes-Inv {s} v (leave p u) = record {
  valid = v.valid;
  complete = λ h. cc;
  ordered = Ordered-at testing v p;
}
Consumes-Inv {s} v (take p b at e) =
    let f : Fetched s.buf (some (p, b)) = subst (Fetched s.buf) e (fetch-Fetched s.buf v.valid) in
    record {
      valid = f.0;
      complete = λ h.
          let used : s.buf.not_done ≡ true = sym f.1 ∙ h in
          complete_at fetching v at used ∙ ap (◌++◌ s.sent) (f.2 used);
      ordered = Ordered-at fetching v at;
    }
Consumes-Inv {s} v (commit p e) = record {
  valid = v.valid;
  complete = complete_at fetching v p;
  ordered = Ordered-at fetching v p;
}
Consumes-Inv {s} v (sleep p) = record {
  valid = v.valid;
  complete = complete_at committing v p;
  ordered = Ordered-at committing v p;
}
Consumes-Inv {s} v (pass p at u) = record {
  valid = v.valid;
  complete = complete_at (holding p) v at;
  ordered = (contents s.buf, complete_at (holding p) v at u);
}
Consumes-Inv {s} v (send p at) =
    let o = Ordered-at (sending p) v at in
    record {
      valid = v.valid;
      complete =
          λ h. complete_at (sending p) v at h ∙ sym (append_assoc s.sent (p ∷ []) (contents s.buf));
      ordered = (o.0, o.1 ∙ sym (append_assoc s.sent (p ∷ []) o.0));
    }
Consumes-Inv {s} v (drop p at u) = record {
  valid = v.valid;
  complete = λ h. cc;
  ordered = Ordered-at (holding p) v at;
}

pub passed-notified : (phase : Phase) → passed (notified phase) ≡ passed phase
passed-notified testing = refl
passed-notified fetching = refl
passed-notified committing = refl
passed-notified asleep = refl
passed-notified (holding p) = refl
passed-notified (sending p) = refl
passed-notified finished = refl

hand-notified : (phase : Phase) → hand (notified phase) ≡ hand phase
hand-notified testing = refl
hand-notified fetching = refl
hand-notified committing = refl
hand-notified asleep = refl
hand-notified (holding p) = refl
hand-notified (sending p) = refl
hand-notified finished = refl

Disturbs-Inv : {s t : System} → Inv s → Disturbs s t → Inv t
unfolding submit_request cleanup_buffer
Disturbs-Inv {s} v (submit p b at e) =
    let f : Submitted p s.buf (some b) =
      subst (Submitted p s.buf) e (deposit-Submitted p s.buf v.valid) in
    record {
      valid = f.0;
      complete = λ h.
          let used : s.buf.not_done ≡ true = sym f.1 ∙ h in
          simp (v.complete used, hand-notified s.phase, f.2, append_assoc);
      ordered =
          (v.ordered.0 ++ (p ∷ []), simp (v.ordered.1, passed-notified s.phase, append_assoc));
    }
Disturbs-Inv {s} v cleanup = record {
  valid = record {
    slots = v.valid.slots;
    front_in = v.valid.front_in;
    count_in = v.valid.count_in;
    rear_at = v.valid.rear_at;
  };
  complete = λ h. cc;
  ordered = (v.ordered.0, rw passed-notified v.ordered.1);
}
Disturbs-Inv {s} v (spurious e) = record {
  valid = v.valid;
  complete = complete_at asleep v e;
  ordered = Ordered-at asleep v e;
}

-- At every moment the buffer is well formed, and the files sent, with the one on its way, are a
-- first part of those submitted, in the same order and each once. While the buffer is in use,
-- those not sent are the one in the consumer's hand and then those in the buffer.
pub Reach-Inv : (capacity : ℕ) {s : System} → 0 < capacity → Reach (started capacity) s → Inv s
Reach-Inv capacity h here = started-Inv capacity h
Reach-Inv capacity h (consume r c) = Consumes-Inv (Reach-Inv capacity h r) c
Reach-Inv capacity h (disturb r c) = Disturbs-Inv (Reach-Inv capacity h r) c
