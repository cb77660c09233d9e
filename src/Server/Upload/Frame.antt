-- ===== src/Server/Upload/Frame.antt =====
-- An upload in progress, as the server's disk shows it: which names and files have changed, and
-- what the stream that writes the temporary file has taken. Setting of the proofs about
-- `afsfuse_putFile`.
use client_server_file_syste.Base.{
  ℕ, ◌≡◌, refl, sym, ap, ◌∙◌, ◌≢◌, false, Option, none, some, [], ◌++◌, Bytes, arith,
}
use client_server_file_syste.Sys.{Os, Sys, ret, err}
use client_server_file_syste.Sys.Laws.{View, IsStore, content, Same}
use client_server_file_syste.Stream.Writer.{Writer, raise_error, write, destruct}
use client_server_file_syste.Stream.Writer.Laws.{
  ofs-raise_error, write-ret, write-err, destruct-closed,
}

-- The server's system, the disk when the request comes, and the temporary name.
pub record Setting : Type 1 where
  pub os : Os
  pub v : View os
  pub laws : IsStore os v
  pub d₀ : os.Disk
  pub temp : Bytes

module _ (σ : Setting) where
  open σ use {os, v, laws, d₀, temp}

  -- Behind another name than the temporary one a reader sees what was there before.
  unfoldable pub Kept : os.Disk → Type 0
  Kept d = (q : Bytes) → q ≢ temp → content v d q ≡ content v d₀ q

  -- The temporary name stands for a file `t` that no name stood for, and no other name and no
  -- other file has changed.
  pub record Frame (t : ℕ) (d : os.Disk) : Type 0 where
    pub names : (q : Bytes) → q ≢ temp → v.node d q ≡ v.node d₀ q
    pub bytes : (i : ℕ) → i ≢ t → v.bytes_of d i ≡ v.bytes_of d₀ i
    pub unused : (q : Bytes) → v.node d₀ q ≢ some t

  pub Frame-Kept : {t : ℕ} {d : os.Disk} → Frame t d → Kept d
  unfolding Kept
  Frame-Kept {t} {d} f q ne = go (v.node d₀ q) refl
    where
      go : (n : Option ℕ) → v.node d₀ q ≡ n → content v d q ≡ content v d₀ q
      go none e = ground (arith, f.names q ne)
      go (some i) e = ground (arith, f.names q ne, f.bytes i (λ p. f.unused q (e ∙ ap some p)))

  -- The handler has received `got`: part of it is in the file, the rest in the stream.
  pub record Receiving (got : Bytes) (h : ℕ) (w : Writer) (d : os.Disk) : Type 0 where
    pub is_open : w.ofs ≡ some h
    pub called : w.name ≡ temp
    pub named : v.node d temp ≡ some (v.target d h)
    pub taken : v.bytes_of d (v.target d h) ++ v.held d h ≡ got
    pub frame : Frame (v.target d h) d

  pub Same-Kept : (d : os.Disk) → Same v d₀ d → Kept d
  unfolding Kept
  Same-Kept d s q ne = go (v.node d₀ q) refl
    where
      go : (n : Option ℕ) → v.node d₀ q ≡ n → content v d q ≡ content v d₀ q
      go none e = ground (arith, s.names q)
      go (some i) e = ground (arith, s.names q, s.bytes i)

  pub out_open-Receiving :
      (h : ℕ) (w : Writer) (d d' : os.Disk)
      → v.node d₀ temp ≡ none
      → Same v d₀ d
      → os.out_open d temp ≡ (ret h, d')
      → w ≡ record { name = temp; ofs = some h; no_space = false }
      → Receiving [] h w d'
  out_open-Receiving h w d d' free s e eq =
      let o = laws.out_open-ret d temp h d' e in
      record {
        is_open = ap (λ (w : Writer). w.ofs) eq;
        called = ap (λ (w : Writer). w.name) eq;
        named = o.named;
        taken = rw (o.empty, o.nothing_held) refl;
        frame = record {
          names = λ q ne. o.other_names q ne ∙ s.names q;
          bytes = λ i ne. o.other_bytes i ne ∙ s.bytes i;
          unused = λ q u. o.fresh q (s.names temp ∙ free) (s.names q ∙ u);
        };
      }

  out_write-Receiving :
      (got bytes : Bytes) (h : ℕ) (w : Writer) (d d' : os.Disk)
      → Receiving got h w d
      → os.out_write d h bytes ≡ (ret tt, d')
      → Receiving (got ++ bytes) h w d'
  out_write-Receiving got bytes h w d d' r e =
      let o = laws.out_write-ret d h bytes d' e in
      record {
        is_open = r.is_open;
        called = r.called;
        named = cc (o.names temp, r.named, o.targets h);
        taken = rw (o.targets h) (rw (o.taken, r.taken) refl);
        frame = record {
          names = λ q ne. o.names q ∙ r.frame.names q ne;
          bytes = λ i ne.
              let ne' : i ≢ v.target d h = λ p. ne (p ∙ sym (o.targets h)) in
              o.other_bytes i ne' ∙ r.frame.bytes i ne';
          unused = λ q u. r.frame.unused q (u ∙ ap some (o.targets h));
        };
      }

  -- A failed write: the stream is closed and the temporary file removed.
  out_write-Frame :
      (got bytes : Bytes) (e h : ℕ) (w : Writer) (d d' : os.Disk)
      → Receiving got h w d
      → os.out_write d h bytes ≡ (err e, d')
      → Frame (v.target d h) (os.remove (os.out_close d' h) w.name)
  out_write-Frame got bytes e h w d d' r eq =
      let o = laws.out_write-err d h bytes e d' eq in
      let c = laws.out_close d' h in
      let m = laws.remove (os.out_close d' h) w.name in
      record {
        names = λ q ne.
            m.other_names q (λ p. ne (p ∙ r.called))
            ∙ (c.names q ∙ (o.names q ∙ r.frame.names q ne));
        bytes = λ i ne.
            m.bytes i
            ∙ (c.other_bytes i (λ p. ne (p ∙ o.targets h))
                ∙ (o.other_bytes i ne ∙ r.frame.bytes i ne));
        unused = r.frame.unused;
      }

  -- After `Write`: the bytes have been received, or the handler gives up.
  abbrev pub Wrote : Bytes → ℕ → Sys (Unit {0}) × Writer × os.Disk → Type 0
  Wrote got h (ret _, w, d) = Receiving got h w d
  Wrote got h (err _, w, d) = Kept (destruct os w d)

  pub write-Wrote :
      (got bytes : Bytes) (h : ℕ) (w : Writer) (d : os.Disk)
      → Receiving got h w d
      → Wrote (got ++ bytes) h (write os bytes w d)
  write-Wrote got bytes h w d r = go (os.out_write d h bytes) refl
    where
      go :
          (res : Sys (Unit {0}) × os.Disk)
          → os.out_write d h bytes ≡ res
          → Wrote (got ++ bytes) h (write os bytes w d)
      go (ret _, d') e =
          rw (write-ret os w d bytes h d' r.is_open e) (out_write-Receiving got bytes h w d d' r e)
      go (err n, d') e = rw (write-err os w d bytes h n d' r.is_open e) (
          rw
            (destruct-closed os (raise_error n (record w { ofs = none }))
              (os.remove (os.out_close d' h) w.name) (ofs-raise_error n (record w { ofs = none })))
            (Frame-Kept (out_write-Frame got bytes n h w d d' r e)))
