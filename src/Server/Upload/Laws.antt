-- ===== src/Server/Upload/Laws.antt =====
-- What `afsfuse_putFile` leaves on the server's disk.
use client_server_file_syste.Base.{
  ℕ, ◌≡◌, refl, sym, ap, subst, ◌∙◌, ◌≢◌, ◌⊎◌, inl, inr, true, Option, none, some, List, [], ◌∷◌,
  ◌++◌, Bytes, map, append_assoc, append-nil, arith, flatten,
}
use client_server_file_syste.Sys.{Sys, ret, err}
use client_server_file_syste.Sys.Laws.{content, Renamed, Delivered, is_plain}
use client_server_file_syste.Sys.Contents.{content_of_node, Same-refl}
use client_server_file_syste.Messages.{Code, ok, FileContent, OutputInfo, empty_info}
use client_server_file_syste.Stream.Writer.{Writer, new_writer, destruct}
use client_server_file_syste.Stream.Writer.Laws.{destruct-open}
use client_server_file_syste.Server.Paths.{parent, upload_temp, upload_final}
use client_server_file_syste.Server.Paths.Laws.{upload_temp-ne-upload_final, upload_temp-ne-nil}
use client_server_file_syste.Server.Upload.{
  Upload, Part, go_on, stop, after_rename, after_part, name_upload, receive, finish, receive_all,
  afsfuse_put_file,
}
use client_server_file_syste.Server.Upload.Frame.{Setting, Kept, Receiving}
use client_server_file_syste.Server.Upload.Message.{
  before, during, Same-Stage, Stored, stop_before-Kept, receive-Stored,
}

module _ (σ : Setting) where
  open σ use {os, v, laws, d₀, temp}

  -- What the handler has done when it returns.
  pub record Outcome (final got : Bytes) (r : (Code × OutputInfo) × os.Disk) : Type 0 where
    pub atomic :
        ((r.0 ≡ (ok, empty_info)) × Delivered v final got r.1)
        ⊎ ((r.0 ≢ (ok, empty_info)) × (content v r.1 final ≡ content v d₀ final))
    pub others : (q : Bytes) → q ≢ temp → q ≢ final → content v r.1 q ≡ content v d₀ q

  -- The stream is closed behind the rename: the final name stands for what was received.
  pub Renamed-Delivered :
      (u : Upload) (d d' : os.Disk) (got : Bytes) (h : ℕ)
      → Receiving σ got h u.writer d
      → Renamed v d temp u.final_path d'
      → Delivered v u.final_path got (os.out_close d' h)
  Renamed-Delivered u d d' got h r m =
      let c = laws.out_close d' h in
      let file = v.target d' h in
      let taken : v.bytes_of d' file ++ v.held d' h ≡ got =
        rw (m.targets h, m.bytes (v.target d h), m.helds h) r.taken in
      record {
        before = d';
        stream = h;
        closed = refl;
        kept = c.kept;
        buffer = c.buffer;
        shown = v.bytes_of (os.out_close d' h) file;
        shows =
            content_of_node v (os.out_close d' h) u.final_path file
              (c.names u.final_path ∙ (m.moved ∙ (r.named ∙ ap some (sym (m.targets h)))));
        whole =
            ap (λ b. b ++ v.lost d' h) c.flushed
            ∙ (append_assoc (v.bytes_of d' file) c.kept (v.lost d' h)
                ∙ (ap (λ b. v.bytes_of d' file ++ b) (sym c.buffer) ∙ taken));
      }

  pub Renamed-others :
      (u : Upload) (d d' : os.Disk) (got : Bytes) (h : ℕ) (q : Bytes)
      → Receiving σ got h u.writer d
      → Renamed v d temp u.final_path d'
      → q ≢ temp
      → q ≢ u.final_path
      → content v (os.out_close d' h) q ≡ content v d₀ q
  Renamed-others u d d' got h q r m nt nf = go (v.node d₀ q) refl
    where
      names : v.node (os.out_close d' h) q ≡ v.node d₀ q
      names = (laws.out_close d' h).names q ∙ (m.other_names q nt nf ∙ r.frame.names q nt)

      go : (n : Option ℕ) → v.node d₀ q ≡ n → content v (os.out_close d' h) q ≡ content v d₀ q
      go none e = ground (arith, names)
      go (some i) e =
          let ne : i ≢ v.target d h = λ p. r.frame.unused q (e ∙ ap some p) in
          ground (
            arith,
            names,
            (laws.out_close d' h).other_bytes i (λ p. ne (p ∙ m.targets h)),
            m.bytes i,
            r.frame.bytes i ne,
          )

  after_rename-Outcome :
      (u : Upload) (d : os.Disk) (got : Bytes) (h : ℕ) (res : Sys (Unit {0}) × os.Disk)
      → temp ≢ u.final_path
      → Receiving σ got h u.writer d
      → os.rename d temp u.final_path ≡ res
      → Outcome u.final_path got (after_rename os u res)
  unfolding after_rename Kept
  after_rename-Outcome u d got h (ret _, d') ne r e =
      let m = laws.rename-ret d temp u.final_path d' e in
      rw (destruct-open os u.writer d' h r.is_open) (record {
        atomic = inl (refl, Renamed-Delivered u d d' got h r m);
        others = λ q nt nf. Renamed-others u d d' got h q r m nt nf;
      })
  after_rename-Outcome u d got h (err n, d') ne r e =
      let k =
        stop_before-Kept σ u.writer d' u got refl
          (Same-Stage σ u d d' (during h r) (laws.rename-err d temp u.final_path n d' e)) in
      record {
        atomic = inr (
          λ p. laws.rename-errno d temp u.final_path n d' e (cc p),
          k u.final_path (λ p. ne (sym p)),
        );
        others = λ q nt nf. k q nt;
      }

  after_stop-Outcome :
      (final got : Bytes) (w : Writer) (d : os.Disk) (reply : Code × OutputInfo)
      → temp ≢ final
      → Kept σ (destruct os w d) × (reply ≢ (ok, empty_info))
      → Outcome final got (reply, destruct os w d)
  unfolding Kept
  after_stop-Outcome final got w d reply ne k = record {
    atomic = inr (k.1, k.0 final (λ p. ne (sym p)));
    others = λ q nt nf. k.0 q nt;
  }

  after_part-Outcome :
      (next : Upload → os.Disk → (Code × OutputInfo) × os.Disk) (final got all : Bytes)
      (res : Part Upload × Writer × os.Disk)
      → temp ≢ final
      → ((u : Upload) (d : os.Disk) (h : ℕ)
          → u.temp_path ≡ temp
          → u.final_path ≡ final
          → Receiving σ got h u.writer d
          → Outcome final all (next u d))
      → Stored σ got final res
      → Outcome final all (after_part os next res)
  unfolding after_part Stored
  after_part-Outcome next final got all (go_on u, w, d) ne rest s = rest u d s.0 s.2 s.3 s.1
  after_part-Outcome next final got all (stop reply, w, d) ne rest s =
      after_stop-Outcome final all w d reply ne s

module _ (root : Bytes) (rand : ℕ) where
  name_upload_again :
      (part : FileContent) (p : Bytes) (u : Upload) → p ≢ [] → name_upload root rand part p u ≡ u
  unfolding name_upload
  name_upload_again part [] u ne = absurd (ne refl)
  name_upload_again part (c ∷ p) u ne = refl

-- The contents of the messages, in order.
abbrev pub received : List FileContent → Bytes
received parts = flatten (map (λ m. m.content) parts)

module _ (σ : Setting) (root : Bytes) (rand : ℕ) where
  open σ use {os, v, laws, d₀, temp}

  receive_all-Outcome :
      (parts : List FileContent) (u : Upload) (d : os.Disk) (got final : Bytes) (h : ℕ)
      → v.node d₀ temp ≡ none
      → temp ≢ []
      → temp ≢ final
      → is_plain (parent final) ≡ true
      → u.temp_path ≡ temp
      → u.final_path ≡ final
      → Receiving σ got h u.writer d
      → Outcome σ final (got ++ received parts) (receive_all os root rand parts u d)
  unfolding receive_all finish
  receive_all-Outcome [] u d got final h free tn ne plain tp fp r = rw append-nil (
      subst (λ (f : Bytes). Outcome σ f got (finish os u d)) fp
        (after_rename-Outcome σ u d got h (os.rename d u.temp_path u.final_path) (λ p. ne (p ∙ fp))
          r (ap (λ (p : Bytes). os.rename d p u.final_path) (sym tp))))
  receive_all-Outcome (part ∷ parts) u d got final h free tn ne plain tp fp r =
      rw (name_upload_again root rand part u.temp_path u (λ p. tn (sym tp ∙ p))) (
        rw (← append_assoc got part.content (received parts)) (
          after_part-Outcome σ (receive_all os root rand parts) final (got ++ part.content) _
            (receive os part u d) ne
            (λ u' d' h' tp' fp' r'.
              receive_all-Outcome parts u' d' (got ++ part.content) final h' free tn ne plain tp'
                fp' r')
            (subst (λ (f : Bytes). Stored σ (got ++ part.content) f (receive os part u d)) fp
              (receive-Stored σ part u d got free tp (rw fp plain) (during h r)))))

  abbrev named : FileContent → Upload
  named part = record {
    temp_path = upload_temp root rand part.name;
    final_path = upload_final root part.name;
    writer = new_writer;
  }

  put_file_first :
      (part : FileContent) (parts : List FileContent)
      → afsfuse_put_file os root rand (part ∷ parts) d₀
        ≡ after_part os (receive_all os root rand parts) (receive os part (named part) d₀)
  unfolding afsfuse_put_file new_writer
  put_file_first part parts = refl

  -- Of an upload of at least one message, under a temporary name that no file has, into a
  -- directory whose name the shell takes as it is, either the handler answers OK with no error
  -- and the final path holds the contents of all the messages in order, but for an end that was
  -- lost when the stream was closed that held it; or it answers otherwise and the final path
  -- shows what it showed before. In either case every other path but the temporary one shows what
  -- it showed before.
  pub put_file_lem :
      (part : FileContent) (parts : List FileContent)
      → temp ≡ upload_temp root rand part.name
      → v.node d₀ temp ≡ none
      → is_plain (parent (upload_final root part.name)) ≡ true
      → Outcome σ
          (upload_final root part.name)
          (received (part ∷ parts))
          (afsfuse_put_file os root rand (part ∷ parts) d₀)
  unfolding new_writer
  put_file_lem part parts te free plain =
      let ne : temp ≢ upload_final root part.name =
        λ p. upload_temp-ne-upload_final root rand part.name (sym te ∙ p) in
      let tn : temp ≢ [] = λ p. upload_temp-ne-nil root rand part.name (sym te ∙ p) in
      rw (put_file_first part parts) (
        after_part-Outcome σ (receive_all os root rand parts) (upload_final root part.name)
          part.content (received (part ∷ parts)) (receive os part (named part) d₀) ne
          (λ u d h tp fp r.
            receive_all-Outcome parts u d part.content (upload_final root part.name) h free tn ne
              plain tp fp r)
          (receive-Stored σ part (named part) d₀ [] free (sym te) plain
            (before refl refl (Same-refl v d₀))))
