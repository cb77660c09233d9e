-- ===== src/Stream/Writer/Laws.antt =====
-- `OpenIfNecessary`, `Write` and the destructor of `SequentialFileWriter`, branch by branch.
use client_server_file_syste.Base.{ℕ, ◌≡◌, false, none, some, Bytes, arith}
use client_server_file_syste.Sys.{Os, ret, err}
use client_server_file_syste.Stream.Writer.{Writer, raise_error, open_if_necessary, write, destruct}

pub ofs-raise_error : (e : ℕ) (w : Writer) → (raise_error e w).ofs ≡ w.ofs
unfolding raise_error
ofs-raise_error e w = ground arith

module _ (os : Os) (w : Writer) (d : os.Disk) where
  pub open_again :
      (name : Bytes) (h : ℕ) → w.ofs ≡ some h → open_if_necessary os name w d ≡ (ret tt, w, d)
  unfolding open_if_necessary
  open_again name h o = ground arith

  pub open-ret :
      (name : Bytes) (h : ℕ) (d' : os.Disk)
      → w.ofs ≡ none
      → os.out_open d name ≡ (ret h, d')
      → open_if_necessary os name w d
        ≡ (ret tt, record { name = name; ofs = some h; no_space = false }, d')
  unfolding open_if_necessary
  open-ret name h d' o e = ground arith

  pub open-err :
      (name : Bytes) (n : ℕ) (d' : os.Disk)
      → w.ofs ≡ none
      → os.out_open d name ≡ (err n, d')
      → open_if_necessary os name w d ≡ (err n, raise_error n w, d')
  unfolding open_if_necessary
  open-err name n d' o e = ground arith

  pub write-ret :
      (bytes : Bytes) (h : ℕ) (d' : os.Disk)
      → w.ofs ≡ some h
      → os.out_write d h bytes ≡ (ret tt, d')
      → write os bytes w d ≡ (ret tt, w, d')
  unfolding write
  write-ret bytes h d' o e = ground arith

  pub write-err :
      (bytes : Bytes) (h n : ℕ) (d' : os.Disk)
      → w.ofs ≡ some h
      → os.out_write d h bytes ≡ (err n, d')
      → write os bytes w d
        ≡ (err n, raise_error n (record w { ofs = none }), os.remove (os.out_close d' h) w.name)
  unfolding write
  write-err bytes h n d' o e = ground arith

  pub destruct-open : (h : ℕ) → w.ofs ≡ some h → destruct os w d ≡ os.out_close d h
  unfolding destruct
  destruct-open h o = ground arith

  pub destruct-closed : w.ofs ≡ none → destruct os w d ≡ d
  unfolding destruct
  destruct-closed o = ground arith
