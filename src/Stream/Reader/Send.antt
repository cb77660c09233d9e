-- ===== src/Stream/Reader/Send.antt =====
-- A file that is opened, read and sent.

use client_server_file_syste.Base.{ℕ, ◌≡◌, refl, ap, ◌∙◌, Bool, Bytes, ◌++◌}
use client_server_file_syste.Sys.{Os, Sys, ret, err}
use client_server_file_syste.Messages.{FileContent}
use client_server_file_syste.Stream.Reader.{
  Reader, o_rdonly, construct, destruct, read, after_construct, stream_file,
}
use client_server_file_syste.Stream.Reader.Leak.{construct-open, destruct-construct}

module _ (os : Os) {W : Type 0} (write : FileContent → W → Bool × W) where
  after_construct-ret :
      (max : ℕ) (w : W) (r : Reader) (made : Sys Reader × os.Disk)
      → made.0 ≡ ret r
      → after_construct os write max w made
        ≡ ((read write r max w).0, (read write r max w).1, destruct os r made.1)
  unfolding after_construct
  after_construct-ret max w r (ret q, d) e = let p : r ≡ q = cc in rw p refl
  after_construct-ret max w r (err n, d) e = absurd cc

  after_construct-disk :
      (max : ℕ) (w : W) (made : Sys Reader × os.Disk)
      → ((r : Reader) → made.0 ≡ ret r → destruct os r made.1 ≡ made.1)
      → (after_construct os write max w made).2 ≡ made.1
  unfolding after_construct
  after_construct-disk max w (ret r, d) h = h r refl
  after_construct-disk max w (err n, d) h = refl

  stream_file-made :
      (root path : Bytes) (max : ℕ) (w : W) (d : os.Disk)
      → stream_file os write root path max w d
        ≡ after_construct os write max w (construct os root path d)
  unfolding stream_file
  stream_file-made root path max w d = refl

  -- Sending a file runs neither `close` nor anything else on the disk behind `open`.
  pub stream_file-disk :
      (root path : Bytes) (max : ℕ) (w : W) (d : os.Disk)
      → (stream_file os write root path max w d).2 ≡ (os.open_file d (root ++ path) o_rdonly 0).1
  stream_file-disk root path max w d =
      ap (λ x. x.2) (stream_file-made root path max w d)
      ∙ (after_construct-disk max w (construct os root path d)
            (λ r e. destruct-construct os root path d (construct os root path d).1 e)
          ∙ construct-open os root path d)

  pub stream_file-ret :
      (root path : Bytes) (max : ℕ) (w : W) (d : os.Disk) (r : Reader)
      → (construct os root path d).0 ≡ ret r
      → ((stream_file os write root path max w d).0 ≡ (read write r max w).0)
        × ((stream_file os write root path max w d).1 ≡ (read write r max w).1)
  stream_file-ret root path max w d r c =
      let e =
        stream_file-made root path max w d
        ∙ after_construct-ret max w r (construct os root path d) c in
      (ap (λ x. x.0) e, ap (λ x. x.1) e)

  after_construct-err :
      (max : ℕ) (w : W) (n : ℕ) (made : Sys Reader × os.Disk)
      → made.0 ≡ err n
      → (after_construct os write max w made).0 ≡ err n
  unfolding after_construct
  after_construct-err max w n (ret r, d) e = absurd cc
  after_construct-err max w n (err m, d) e = cc

  pub stream_file-err :
      (root path : Bytes) (max : ℕ) (w : W) (d : os.Disk) (n : ℕ)
      → (construct os root path d).0 ≡ err n
      → (stream_file os write root path max w d).0 ≡ err n
  stream_file-err root path max w d n e =
      ap (λ x. x.0) (stream_file-made root path max w d)
      ∙ after_construct-err max w n (construct os root path d) e
