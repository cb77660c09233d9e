-- ===== src/Rpc/Transfer/Parts.antt =====
-- The messages of `rpc_getFile`, as they go to a writer. It is the one that the server receives an
-- upload with, so the setting is that of Server/Upload.
use client_server_file_syste.Base.{
  ℕ, ◌≡◌, refl, sym, ◌∙◌, false, none, some, List, [], ◌∷◌, ◌++◌, Bytes, append_assoc, append-nil,
  subst,
}
use client_server_file_syste.Sys.{Sys, ret, err}
use client_server_file_syste.Sys.Contents.{Same-then}
use client_server_file_syste.Messages.{FileContent}
use client_server_file_syste.Stream.Writer.{Writer, raise_error, open_if_necessary, write, destruct}
use client_server_file_syste.Stream.Writer.Laws.{
  ofs-raise_error, open_again, open-ret, open-err, destruct-closed,
}
use client_server_file_syste.Server.Upload.{Upload}
use client_server_file_syste.Server.Upload.Frame.{
  Setting, Kept, Receiving, Same-Kept, Wrote, write-Wrote, out_open-Receiving,
}
use client_server_file_syste.Server.Upload.Message.{Stage, before, during}
use client_server_file_syste.Server.Upload.Laws.{received}
use client_server_file_syste.Rpc.Transfer.{Streams, after_open, save_parts}

module _ (σ : Setting) (filename : Bytes) where
  open σ use {os, v, laws, d₀, temp}

  -- The writer of a round, in the place of that of an upload.
  abbrev pub with_writer : Writer → Upload
  with_writer w = record { temp_path = temp; final_path = filename; writer = w }

  -- Behind `OpenIfNecessary`: the stream is open, or nothing is.
  abbrev pub Ready : Bytes → Sys (Unit {0}) × Writer × os.Disk → Type 0
  Ready got (ret _, w, d) = (h : ℕ) × Receiving σ got h w d
  Ready got (err _, w, d) = Kept σ (destruct os w d)

  open-Ready :
      (got : Bytes) (w : Writer) (d : os.Disk)
      → v.node d₀ temp ≡ none
      → Stage σ got (with_writer w) d
      → Ready got (open_if_necessary os temp w d)
  open-Ready got w d free (during h r) = rw (open_again os w d temp h r.is_open) (h, r)
  open-Ready got w d free (before g o s) = go (os.out_open d temp) refl
    where
      go :
          (res : Sys ℕ × os.Disk)
          → os.out_open d temp ≡ res
          → Ready got (open_if_necessary os temp w d)
      go (ret h, d') e = rw (open-ret os w d temp h d' o e) (
        h,
        rw g (
            out_open-Receiving σ h (record { name = temp; ofs = some h; no_space = false }) d d'
              free s e refl),
      )
      go (err n, d') e =
          rw
            (
              open-err os w d temp n d' o e,
              destruct-closed os (raise_error n w) d' (ofs-raise_error n w ∙ o),
            )
            (Same-Kept σ d' (Same-then v d₀ d d' s (laws.out_open-err d temp n d' e)))

  -- Behind the loop.
  abbrev pub Saved : Bytes → Sys (Unit {0}) × Writer × os.Disk → Type 0
  Saved got (ret _, w, d) = Stage σ got (with_writer w) d
  Saved got (err _, w, d) = Kept σ (destruct os w d)

  Wrote-Ready :
      (got : Bytes) (h : ℕ) (res : Sys (Unit {0}) × Writer × os.Disk)
      → Wrote σ got h res
      → Ready got res
  Wrote-Ready got h (ret _, w, d) r = (h, r)
  Wrote-Ready got h (err _, w, d) k = k

  module _ {S W : Type 0} (streams : Streams S W) where
    after_open-Saved :
        (next : Writer → os.Disk → Sys (Unit {0}) × Writer × os.Disk) (got all : Bytes)
        (res : Sys (Unit {0}) × Writer × os.Disk)
        → Ready got res
        → ((h : ℕ) (w : Writer) (d : os.Disk) → Receiving σ got h w d → Saved all (next w d))
        → Saved all (after_open os streams next res)
    unfolding after_open
    after_open-Saved next got all (ret _, w, d) (h, r) rest = rest h w d r
    after_open-Saved next got all (err _, w, d) k rest = k

    pub save_parts-Saved :
        (parts : List FileContent) (got : Bytes) (w : Writer) (d : os.Disk)
        → v.node d₀ temp ≡ none
        → Stage σ got (with_writer w) d
        → Saved (got ++ received parts) (save_parts os streams temp parts w d)
    unfolding save_parts
    save_parts-Saved [] got w d free st =
        subst (λ (x : Bytes). Stage σ x (with_writer w) d) (sym (append-nil got)) st
    save_parts-Saved (part ∷ parts) got w d free st =
        subst (λ (x : Bytes). Saved x (save_parts os streams temp (part ∷ parts) w d))
          (append_assoc got part.content (received parts))
          (after_open-Saved _ got _ (open_if_necessary os temp w d) (open-Ready got w d free st)
            (λ h w' d' r.
              after_open-Saved (save_parts os streams temp parts) (got ++ part.content) _
                (write os part.content w' d')
                (Wrote-Ready (got ++ part.content) h (write os part.content w' d')
                  (write-Wrote σ got part.content h w' d' r))
                (λ h' w'' d'' r'.
                  save_parts-Saved parts (got ++ part.content) w'' d'' free (during h' r'))))
