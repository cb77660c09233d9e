-- ===== src/Stream/Writer.antt =====
-- AFS/sequential_file_writer.cc: the file that a stream of chunks is written into.
pub mod Laws
use client_server_file_syste.Base.{
  ℕ, Bool, true, false, ◌||◌, Option, none, some, [], Bytes, ◌==◌, if◌then◌else◌,
}
use client_server_file_syste.Sys.{Os, Sys, ret, err}

-- `m_ofs` is the handle of the open stream.
pub record Writer : Type 0 where
  pub name : Bytes
  pub ofs : Option ℕ
  pub no_space : Bool

unfoldable pub new_writer : Writer
new_writer = record { name = []; ofs = none; no_space = false }

abbrev pub efbig : ℕ
efbig = 27

abbrev pub enospc : ℕ
enospc = 28

-- `RaiseError` notes a full disk, and throws on with the same error number.
unfoldable pub raise_error : ℕ → Writer → Writer
raise_error ec w = if ec == enospc || ec == efbig then record w { no_space = true } else w

unfoldable pub no_space_left : Writer → Bool
no_space_left w = w.no_space

module _ (os : Os) where
  open_stream : Bytes → Writer → os.Disk → Sys (Unit {0}) × Writer × os.Disk
  unfolding raise_error
  open_stream name w d =
      let (res, d') = os.out_open d name in
      elim res [
        | err e ↦ (err e, raise_error e w, d')
        | ret h ↦ (ret tt, record { name = name; ofs = some h; no_space = false }, d')
      ]

  unfoldable pub open_if_necessary : Bytes → Writer → os.Disk → Sys (Unit {0}) × Writer × os.Disk
  unfolding open_stream
  open_if_necessary name w d = elim w.ofs [ some _ ↦ (ret tt, w, d) | none ↦ open_stream name w d ]

  -- `Write` is called behind `OpenIfNecessary`; on a stream that is not open `<<` fails with
  -- `badbit`, which has no error number of the system.
  write_stream : ℕ → Bytes → Writer → os.Disk → Sys (Unit {0}) × Writer × os.Disk
  unfolding raise_error
  write_stream h bytes w d =
      let (res, d') = os.out_write d h bytes in
      elim res [
        | ret _ ↦ (ret tt, w, d')
        | err e ↦
            (err e, raise_error e (record w { ofs = none }), os.remove (os.out_close d' h) w.name)
      ]

  unfoldable pub write : Bytes → Writer → os.Disk → Sys (Unit {0}) × Writer × os.Disk
  unfolding write_stream
  write bytes w d = elim w.ofs [
    | none ↦ (err 1, w, os.remove d w.name)
    | some h ↦ write_stream h bytes w d
  ]

  -- `~ofstream` closes an open stream.
  unfoldable pub destruct : Writer → os.Disk → os.Disk
  destruct w d = elim w.ofs [ none ↦ d | some h ↦ os.out_close d h ]
