-- ===== src/Server/Upload/Message.antt =====
-- One message of an upload.
use client_server_file_syste.Base.{
  ℕ, ◌≡◌, refl, sym, ap, ◌∙◌, ◌≢◌, inl, inr, true, false, none, some, [], ◌++◌, Bytes, arith,
  Bool-cases, text,
}
use client_server_file_syste.Sys.{Os, Sys, ret, err}
use client_server_file_syste.Sys.Laws.{Same, is_plain}
use client_server_file_syste.Sys.Contents.{Same-then}
use client_server_file_syste.Messages.{ok, FileContent, empty_info}
use client_server_file_syste.Stream.Writer.{Writer, raise_error, write, destruct}
use client_server_file_syste.Stream.Writer.Laws.{
  ofs-raise_error, open_again, open-ret, open-err, destruct-open, destruct-closed,
}
use client_server_file_syste.Server.Paths.{parent}
use client_server_file_syste.Server.Files.{does_path_exist, create_path}
use client_server_file_syste.Server.Upload.{
  Upload, Part, go_on, stop, fail, after_write, after_open, store, after_create, receive,
}
use client_server_file_syste.Server.Upload.Frame.{
  Setting, Kept, Frame-Kept, Receiving, Same-Kept, Wrote, write-Wrote, out_open-Receiving,
}

module _ (os : Os) where
  -- The `catch` clause never answers OK.
  fail-ne : (w : Writer) → fail os w ≢ (ok, empty_info)
  unfolding fail
  fail-ne w e = ground arith

module _ (σ : Setting) where
  open σ use {os, v, laws, d₀, temp}

  -- Between two messages: nothing has been received, or the stream is open.
  pub data Stage (got : Bytes) (u : Upload) (d : os.Disk) : Type 0 where
    before : got ≡ [] → u.writer.ofs ≡ none → Same v d₀ d → Stage got u d
    during : (h : ℕ) → Receiving σ got h u.writer d → Stage got u d

  pub Same-Stage :
      {got : Bytes} (u : Upload) (d d' : os.Disk) → Stage got u d → Same v d d' → Stage got u d'
  Same-Stage u d d' (before g o s) t = before g o (Same-then v d₀ d d' s t)
  Same-Stage u d d' (during h r) t = during h (record {
    is_open = r.is_open;
    called = r.called;
    named = t.names temp ∙ (r.named ∙ ap some (sym (t.targets h)));
    taken = rw (t.targets h, t.bytes (v.target d h), t.helds h) r.taken;
    frame = record {
      names = λ q ne. t.names q ∙ r.frame.names q ne;
      bytes = λ i ne. t.bytes i ∙ r.frame.bytes i (λ p. ne (p ∙ sym (t.targets h)));
      unused = λ q u. r.frame.unused q (u ∙ ap some (t.targets h));
    };
  })

  -- After a message: it has been received, or the handler returns with the rest of the disk kept.
  unfoldable pub Stored : Bytes → Bytes → Part Upload × Writer × os.Disk → Type 0
  Stored got final (go_on u, w, d) =
      (h : ℕ) × Receiving σ got h u.writer d × (u.temp_path ≡ temp) × (u.final_path ≡ final)
  Stored got final (stop reply, w, d) = Kept σ (destruct os w d) × (reply ≢ (ok, empty_info))

  after_write-Stored :
      (u : Upload) (h : ℕ) (got : Bytes) (res : Sys (Unit {0}) × Writer × os.Disk)
      → u.temp_path ≡ temp
      → Wrote σ got h res
      → Stored got u.final_path (after_write os u res)
  unfolding after_write Stored
  after_write-Stored u h got (ret _, w, d) tp x = (h, x, tp, refl)
  after_write-Stored u h got (err _, w, d) tp x = (x, fail-ne os w)

  after_open-Stored :
      (part : FileContent) (u : Upload) (h : ℕ) (got : Bytes) (w : Writer) (d : os.Disk)
      → u.temp_path ≡ temp
      → Receiving σ got h w d
      → Stored (got ++ part.content) u.final_path (after_open os part u (ret tt, w, d))
  unfolding after_open
  after_open-Stored part u h got w d tp r =
      after_write-Stored u h (got ++ part.content) (write os part.content w d) tp
        (write-Wrote σ got part.content h w d r)

  after_open-Kept :
      (part : FileContent) (u : Upload) (n : ℕ) (got : Bytes) (w : Writer) (d : os.Disk)
      → w.ofs ≡ none
      → Same v d₀ d
      → Stored got u.final_path (after_open os part u (err n, w, d))
  unfolding after_open Stored
  after_open-Kept part u n got w d o s =
      rw (destruct-closed os w d o) (Same-Kept σ d s, fail-ne os w)

  store-Stored :
      (part : FileContent) (u : Upload) (d : os.Disk) (got : Bytes)
      → v.node d₀ temp ≡ none
      → u.temp_path ≡ temp
      → Stage got u d
      → Stored (got ++ part.content) u.final_path (store os part u d)
  unfolding store
  store-Stored part u d got free tp (during h r) =
      rw (open_again os u.writer d u.temp_path h r.is_open)
        (after_open-Stored part u h got u.writer d tp r)
  store-Stored part u d got free tp (before g o s) = go (os.out_open d u.temp_path) refl
    where
      go :
          (res : Sys ℕ × os.Disk)
          → os.out_open d u.temp_path ≡ res
          → Stored (got ++ part.content) u.final_path (store os part u d)
      go (ret h, d') e = rw (open-ret os u.writer d u.temp_path h d' o e) (
          after_open-Stored part u h got
            (record { name = u.temp_path; ofs = some h; no_space = false }) d' tp
            (rw g (
              out_open-Receiving σ h (record { name = u.temp_path; ofs = some h; no_space = false })
                d d' free s (rw tp at e)
                (ap {B = Writer}
                  (λ (p : Bytes). record { name = p; ofs = some h; no_space = false }) tp))))
      go (err n, d') e = rw (open-err os u.writer d u.temp_path n d' o e) (
          after_open-Kept part u n (got ++ part.content) (raise_error n u.writer) d'
            (ofs-raise_error n u.writer ∙ o)
            (Same-then v d₀ d d' s (laws.out_open-err d u.temp_path n d' e)))

  pub stop_before-Kept :
      (w : Writer) (d : os.Disk) (u : Upload) (got : Bytes)
      → w ≡ u.writer
      → Stage got u d
      → Kept σ (destruct os w d)
  stop_before-Kept w d u got e (before g o s) =
      rw (e, destruct-closed os u.writer d o) (Same-Kept σ d s)
  stop_before-Kept w d u got e (during h r) =
      rw (e, destruct-open os u.writer d h r.is_open)
        (Frame-Kept σ {t = v.target d h} (record {
          names = λ q ne. (laws.out_close d h).names q ∙ r.frame.names q ne;
          bytes = λ i ne. (laws.out_close d h).other_bytes i ne ∙ r.frame.bytes i ne;
          unused = r.frame.unused;
        }))

  after_create-Stored :
      (part : FileContent) (u : Upload) (d : os.Disk) (got : Bytes) (res : Sys (Unit {0}) × os.Disk)
      → v.node d₀ temp ≡ none
      → u.temp_path ≡ temp
      → Same v d res.1
      → os.system d (text "mkdir -p " ++ parent u.final_path) ≡ res
      → Stage got u d
      → Stored (got ++ part.content) u.final_path (after_create os part u res)
  unfolding after_create Stored
  after_create-Stored part u d got (ret _, d') free tp s f st =
      store-Stored part u d' got free tp (Same-Stage u d d' st s)
  after_create-Stored part u d got (err n, d') free tp s f st = (
    stop_before-Kept u.writer d' u got refl (Same-Stage u d d' st s),
    λ p. laws.system-errno d _ n d' f (cc p),
  )

  pub receive-Stored :
      (part : FileContent) (u : Upload) (d : os.Disk) (got : Bytes)
      → v.node d₀ temp ≡ none
      → u.temp_path ≡ temp
      → is_plain (parent u.final_path) ≡ true
      → Stage got u d
      → Stored (got ++ part.content) u.final_path (receive os part u d)
  unfolding receive create_path
  receive-Stored part u d got free tp plain st =
      elim (Bool-cases (does_path_exist os u.final_path d)) [
        | inl there ↦ rw there (store-Stored part u d got free tp st)
        | inr missing ↦ rw missing (
            after_create-Stored part u d got (create_path os u.final_path d) free tp
              (laws.make_dirs d (parent u.final_path) plain) refl st)
      ]
