-- ===== src/Buffer/Shutdown.antt =====
-- `client_destroy`: `cleanupBuffer`, then `join` of the consumer.
use client_server_file_syste.Base.{
  ◌≡◌, ◌≢◌, refl, sym, ap, ◌∙◌, false, some, [], ◌∷◌, ◌++◌, append-nil, Bytes, arith,
}
use client_server_file_syste.Buffer.{BoundedBuffer, submit_request, fetch, cleanup_buffer}
use client_server_file_syste.Buffer.Refine.{fetch_done}
use client_server_file_syste.Buffer.Delivery.{passed-notified}
use client_server_file_syste.Buffer.Threads.{
  Phase, testing, fetching, committing, asleep, holding, sending, passed, pass, finished, System,
  notified, Consumes, enter, leave, take, commit, sleep, send, drop, Disturbs, submit, cleanup,
  spurious, Runs, stay, go_on, Reach, here, consume, disturb,
}

abbrev Ended : System → System → Type 0
Ended s t = (t.buf.not_done ≡ false) × (t.sent ++ passed t.phase ≡ s.sent ++ passed s.phase)

not_done-fetch :
    (b : BoundedBuffer) {b' : BoundedBuffer} {p : Bytes}
    → fetch b ≡ some (p, b')
    → b'.not_done ≡ b.not_done
unfolding fetch
not_done-fetch b e = ground arith

not_done-submit_request :
    (b : BoundedBuffer) {b' : BoundedBuffer} (p : Bytes)
    → submit_request p b ≡ some b'
    → b'.not_done ≡ b.not_done
unfolding submit_request
not_done-submit_request b p e = ground arith

at_phase :
    (s t : System) (phase : Phase)
    → Ended s t
    → t.phase ≡ phase
    → t.sent ++ passed phase ≡ s.sent ++ passed s.phase
at_phase s t phase e at = ap (λ (ph : Phase). t.sent ++ passed ph) (sym at) ∙ e.1

Consumes-Ended : (s : System) {t u : System} → Ended s t → Consumes t u → Ended s u
Consumes-Ended s e (enter p u) = cc
Consumes-Ended s {t = t} e (leave p u) = (e.0, at_phase s t testing e p)
Consumes-Ended s {t = t} e (take p b at f) =
    (not_done-fetch t.buf f ∙ e.0, at_phase s t fetching e at)
Consumes-Ended s {t = t} e (commit p f) = (e.0, at_phase s t fetching e p)
Consumes-Ended s {t = t} e (sleep p) = (e.0, at_phase s t committing e p)
Consumes-Ended s e (pass p at u) = cc
Consumes-Ended s {t = t} e (send p at) =
    (e.0, append-nil (t.sent ++ (p ∷ [])) ∙ at_phase s t (sending p) e at)
Consumes-Ended s {t = t} e (drop p at u) = (e.0, at_phase s t (holding p) e at)

Disturbs-Ended : (s : System) {t u : System} → Ended s t → Disturbs t u → Ended s u
unfolding cleanup_buffer
Disturbs-Ended s {t = t} e (submit p b at f) =
    (not_done-submit_request t.buf p f ∙ e.0, rw passed-notified e.1)
Disturbs-Ended s e cleanup = (refl, rw passed-notified e.1)
Disturbs-Ended s {t = t} e (spurious at) = (e.0, at_phase s t asleep e at)

-- Once `cleanupBuffer` has run, the files that are sent are those that were, and the one that was
-- on its way, whatever is still in the buffer.
pub sent_after_cleanup :
    {s t : System}
    → s.buf.not_done ≡ false
    → Reach s t
    → (t.buf.not_done ≡ false) × (t.sent ++ passed t.phase ≡ s.sent ++ passed s.phase)
sent_after_cleanup e here = (e, refl)
sent_after_cleanup {s} e (consume r c) = Consumes-Ended s (sent_after_cleanup e r) c
sent_after_cleanup {s} e (disturb r c) = Disturbs-Ended s (sent_after_cleanup e r) c

-- A sleeping consumer does nothing by itself.
asleep-stuck : {s t : System} → s.phase ≡ asleep → ¬ Consumes s t
asleep-stuck e (enter p u) = cc
asleep-stuck e (leave p u) = cc
asleep-stuck e (take p b at f) = cc
asleep-stuck e (commit p f) = cc
asleep-stuck e (sleep p) = cc
asleep-stuck e (pass p at u) = cc
asleep-stuck e (send p at) = cc
asleep-stuck e (drop p at u) = cc

-- `cleanupBuffer` takes no lock. If it runs when the consumer has found nothing to do and does
-- not sleep yet, its notification is lost: the consumer then falls asleep with the flag cleared,
-- and has no step of its own, so that the `join` waits for it.
pub shutdown_hangs :
    (s : System)
    → s.phase ≡ committing
    → (t : System) × Reach s t
      × (t.phase ≡ asleep)
      × (t.buf.not_done ≡ false)
      × ((u : System) → ¬ Consumes t u)
unfolding cleanup_buffer
shutdown_hangs s e =
    let t : System = record s { buf = cleanup_buffer s.buf; phase = notified s.phase } in
    (
      record t { phase = asleep },
      consume (disturb here cleanup) (sleep (ap notified e)),
      refl,
      refl,
      λ u. asleep-stuck refl,
    )

end_of_holding :
    (s t : System) (p : Bytes)
    → Runs s t
    → t.phase ≡ holding p
    → t.buf.not_done ≡ false
    → (u : System) × Runs s u × (u.phase ≡ finished)
end_of_holding s t p r e d =
    (record t { phase = finished }, go_on (go_on r (drop p e d)) (leave refl d), refl)

-- In every other phase a notified consumer comes to its end by its own steps.
pub shutdown_finishes :
    (s : System)
    → s.buf.not_done ≡ false
    → s.phase ≢ committing
    → s.phase ≢ asleep
    → (t : System) × Runs s t × (t.phase ≡ finished)
shutdown_finishes s d nc na = go s.phase refl
  where
    go : (ph : Phase) → s.phase ≡ ph → (t : System) × Runs s t × (t.phase ≡ finished)
    go testing e = (record s { phase = finished }, go_on stay (leave e d), refl)
    go fetching e =
        end_of_holding s (record s { phase = holding [] }) []
          (go_on stay (take [] s.buf e (fetch_done s.buf d))) refl d
    go committing e = absurd (nc e)
    go asleep e = absurd (na e)
    go (holding p) e = end_of_holding s s p stay e d
    go (sending p) e = (
      record s { phase = finished; sent = s.sent ++ (p ∷ []) },
      go_on (go_on stay (send p e)) (leave refl d),
      refl,
    )
    go finished e = (s, stay, e)
