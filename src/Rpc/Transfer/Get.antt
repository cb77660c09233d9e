-- ===== src/Rpc/Transfer/Get.antt =====
-- One round of `rpc_getFile`: what it leaves on the disk of the client. The writer is the one that
-- the server receives an upload with, so the setting is that of Server/Upload.
pub mod Loop
pub mod Served
use client_server_file_syste.Base.{
  ℕ, ◌%◌, ◌≡◌, refl, sym, ap, ◌∙◌, ◌≢◌, ◌⊎◌, inl, inr, Bool, true, false, not, ◌&&◌, ◌||◌, ◌==◌,
  Bool-cases, if_either, Option, none, some, List, [], ◌∷◌, ◌++◌, Bytes, text, to_string, length,
  length-append, append_assoc, append-nil, arith, subst,
}
use client_server_file_syste.Sys.{Os, Sys, ret, err}
use client_server_file_syste.Sys.Laws.{View, IsStore, content, Same, Delivered}
use client_server_file_syste.Sys.Contents.{Same-refl, Same-then}
use client_server_file_syste.Messages.{
  Code, ok, deadline_exceeded, resource_exhausted, aborted, other, FileContent,
}
use client_server_file_syste.Stream.Writer.{
  Writer, new_writer, raise_error, open_if_necessary, write, destruct,
}
use client_server_file_syste.Stream.Writer.Laws.{
  ofs-raise_error, open_again, open-ret, open-err, destruct-open, destruct-closed,
}
use client_server_file_syste.Server.Upload.{Upload}
use client_server_file_syste.Server.Upload.Frame.{
  Setting, Kept, Receiving, Same-Kept, Wrote, write-Wrote, out_open-Receiving,
}
use client_server_file_syste.Server.Upload.Message.{
  Stage, before, during, Same-Stage, stop_before-Kept,
}
use client_server_file_syste.Server.Upload.Laws.{received, Renamed-Delivered, Renamed-others}
use client_server_file_syste.Rpc.Retry.{timed_out}
use client_server_file_syste.Rpc.Transfer.Parts.{with_writer, Saved, save_parts-Saved}
use client_server_file_syste.Rpc.Transfer.{
  Streams, Round, is_ok, temp_name, after_open, save_parts, get_finish, get_attempt,
}

-- A file that is not there cannot be renamed.
abbrev pub NeedsSource : (os : Os) → View os → Type 0
NeedsSource os v =
    (d : os.Disk) (from to : Bytes) → v.node d from ≡ none → (os.rename d from to).0 ≢ ret tt

is_ok-ok : (code : Code) → is_ok code ≡ true → code ≡ ok
is_ok-ok ok h = refl
is_ok-ok deadline_exceeded h = absurd cc
is_ok-ok resource_exhausted h = absurd cc
is_ok-ok aborted h = absurd cc
is_ok-ok (other n) h = absurd cc

module _ (σ : Setting) (filename : Bytes) where
  open σ use {os, v, laws, d₀, temp}

  module _ {S W : Type 0} (streams : Streams S W) where
    -- What a round has done, with the messages that it received and the status behind them.
    pub record RoundDone (got : Bytes) (code : Code) (r : Option Bool × os.Disk) : Type 0 where
      pub whole :
          (content v r.1 filename ≡ content v d₀ filename)
          ⊎ ((code ≡ ok) × (r.0 ≡ some true) × Delivered v filename got r.1)
      pub others : (q : Bytes) → q ≢ temp → q ≢ filename → content v r.1 q ≡ content v d₀ q

    Kept-RoundDone :
        (got : Bytes) (code : Code) (d : os.Disk) (res : Option Bool)
        → temp ≢ filename
        → Kept σ d
        → RoundDone got code (res, d)
    unfolding Kept
    Kept-RoundDone got code d res ne k = record {
      whole = inl (k filename (λ p. ne (sym p)));
      others = λ q nt nf. k q nt;
    }

    renamed-RoundDone :
        (got : Bytes) (w : Writer) (d : os.Disk) (res : Sys (Unit {0}) × os.Disk)
        → temp ≢ filename
        → v.node d₀ temp ≡ none
        → NeedsSource os v
        → Stage σ got (with_writer σ filename w) d
        → os.rename d temp filename ≡ res
        → RoundDone got ok (some true, destruct os w res.1)
    renamed-RoundDone got w d (err n, d') ne free needs st e =
        Kept-RoundDone got ok (destruct os w d') (some true) ne (
          stop_before-Kept σ w d' (with_writer σ filename w) got refl (
            Same-Stage σ (with_writer σ filename w) d d' st
              (laws.rename-err d temp filename n d' e)))
    renamed-RoundDone got w d (ret _, d') ne free needs (before g o s) e =
        absurd (needs d temp filename (s.names temp ∙ free) (ap (λ x. x.0) e))
    renamed-RoundDone got w d (ret _, d') ne free needs (during h r) e =
        let m = laws.rename-ret d temp filename d' e in
        rw (destruct-open os w d' h r.is_open) (record {
          whole = inr (refl, refl, Renamed-Delivered σ (with_writer σ filename w) d d' got h r m);
          others = λ q nt nf. Renamed-others σ (with_writer σ filename w) d d' got h q r m nt nf;
        })

    abbrev Done : Bytes → Code → Round os streams → Type 0
    Done got code (res, s, d) = RoundDone got code (res, d)

    get_finish-Done :
        (left : ℕ) (got : Bytes) (code : Code) (w : Writer) (s : S) (d : os.Disk)
        → temp ≢ filename
        → v.node d₀ temp ≡ none
        → NeedsSource os v
        → Stage σ got (with_writer σ filename w) d
        → Done got code (get_finish os streams left temp filename code w s d)
    unfolding get_finish
    get_finish-Done left got code w s d ne free needs st =
        let k : Kept σ (destruct os w d) =
          stop_before-Kept σ w d (with_writer σ filename w) got refl st in
        let failed = λ (res : Option Bool). Kept-RoundDone got code (destruct os w d) res ne k in
        elim (Bool-cases (is_ok code)) [
          | inl y ↦ rw y (
              subst
                (λ (c : Code).
                  RoundDone got c (some true, destruct os w (os.rename d temp filename).1))
                (sym (is_ok-ok code y))
                (renamed-RoundDone got w d (os.rename d temp filename) ne free needs st refl))
          | inr n ↦ rw n (
              if_either (Done got code) (not (timed_out code) || left == 0) (failed (some false))
                (failed none))
        ]

    -- The end of the `try` block.
    Saved-Done :
        (left : ℕ) (got : Bytes) (code : Code) (s : S) (res : Sys (Unit {0}) × Writer × os.Disk)
        → temp ≢ filename
        → v.node d₀ temp ≡ none
        → NeedsSource os v
        → Saved σ filename got res
        → Done got code (elim res.0 [
          | err e ↦ (some false, s, destruct os res.1 res.2)
          | ret _ ↦ get_finish os streams left temp filename code res.1 s res.2
        ])
    Saved-Done left got code s (err e, w, d) ne free needs k =
        Kept-RoundDone got code (destruct os w d) (some false) ne k
    Saved-Done left got code s (ret _, w, d) ne free needs st =
        get_finish-Done left got code w s d ne free needs st

pub temp_name-ne :
    (filename : Bytes) (rand : ℕ)
    → filename ++ (text "_" ++ (to_string (rand % 1000) ++ text ".txt")) ≢ filename
temp_name-ne filename rand e = omega (
  arith,
  ap length e,
  length-append filename (text "_" ++ (to_string (rand % 1000) ++ text ".txt")),
)

module _ (os : Os) (v : View os) (laws : IsStore os v) (needs : NeedsSource os v) {S W : Type 0}
    (streams : Streams S W) where
  abbrev pub round_setting : Bytes → ℕ → os.Disk → Setting
  round_setting filename rand d = record {
    os = os;
    v = v;
    laws = laws;
    d₀ = d;
    temp = temp_name os streams filename rand;
  }

  pub get_attempt-RoundDone :
      (left rand : ℕ) (root path : Bytes) (s : S) (d : os.Disk)
      → v.node d (temp_name os streams (root ++ path) rand) ≡ none
      → let ((parts, code), s') = streams.fetch path s in
        let (res, s'', d') = get_attempt os streams left rand root path s d in
        RoundDone
          (round_setting (root ++ path) rand d)
          (root ++ path)
          streams
          (received parts)
          code
          (res, d')
  unfolding get_attempt new_writer
  get_attempt-RoundDone left rand root path s d free =
      let σ = round_setting (root ++ path) rand d in
      let ((parts, code), s') = streams.fetch path s in
      Saved-Done σ (root ++ path) streams left (received parts) code s' _
        (temp_name-ne (root ++ path) rand) free needs
        (save_parts-Saved σ (root ++ path) streams parts [] new_writer d free
          (before refl refl (Same-refl v d)))
