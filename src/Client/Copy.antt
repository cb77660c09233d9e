-- ===== src/Client/Copy.antt =====
-- AFS/afsfuse_client.cc: `cp`, which makes the temporary copy of a file. `read` and `write` move
-- the offset of a descriptor; here they are `pread` and `pwrite` at an offset that is passed on.
pub mod Exact
use client_server_file_syste.Base.{
  ℕ, zero, suc, ◌+◌, ◌-◌, Bool, true, false, List, [], ◌∷◌, Bytes, length, drop, ltb, ◌==◌,
  if◌then◌else◌,
}
use client_server_file_syste.Sys.{Os, Sys, ret, err}

-- `EINTR`; `sizeof buf`; `O_RDONLY`; `O_WRONLY | O_CREAT | O_EXCL`
abbrev pub eintr : ℕ
eintr = 4

abbrev pub buffer_size : ℕ
buffer_size = 131072

abbrev o_rdonly : ℕ
o_rdonly = 0

abbrev o_wronly_creat_excl : ℕ
o_wronly_creat_excl = 193

module _ (os : Os) where
  -- The inner loop, on fuel: what is left of the buffer, and where it goes. An interrupted call is
  -- made again. The result is the offset behind the buffer.
  unfoldable pub write_all : ℕ → ℕ → Bytes → ℕ → os.Disk → Sys ℕ × os.Disk
  write_all zero fd bytes off d = (err eintr, d)
  write_all (suc fuel) fd bytes off d =
      let (res, d') = os.pwrite d fd bytes off in
      elim res [
        | err e ↦ elim (e == eintr) [ true ↦ write_all fuel fd bytes off d' | false ↦ (err e, d') ]
        | ret n ↦ elim (ltb n (length bytes)) [
          | true ↦ write_all fuel fd (drop n bytes) (off + n) d'
          | false ↦ (ret (off + n), d')
        ]
      ]

  -- The outer loop, on fuel; the first argument is the fuel of the inner one.
  unfoldable pub copy_loop : ℕ → ℕ → ℕ → ℕ → ℕ → os.Disk → Sys (Unit {0}) × os.Disk
  copy_loop tries zero from to off d = (err eintr, d)
  copy_loop tries (suc rounds) from to off d = elim (os.pread d from buffer_size off) [
    | err e ↦ (err e, d)
    | ret bytes ↦ elim bytes [
      | [] ↦ (ret tt, d)
      | b ∷ bs ↦
          let (res, d') = write_all tries to (b ∷ bs) off d in
          elim res [ err e ↦ (err e, d') | ret off' ↦ copy_loop tries rounds from to off' d' ]
    ]
  ]

  close_both : ℕ → ℕ → os.Disk → os.Disk
  close_both from to d = (os.close (os.close d from).1 to).1

  -- Behind the loop.
  pub after_copy : ℕ → ℕ → Sys (Unit {0}) × os.Disk → Sys (Unit {0}) × os.Disk
  unfolding close_both
  after_copy from to (err e, d) = (err e, close_both from to d)
  after_copy from to (ret _, d) = let (closed, d') = os.close d to in (closed, (os.close d' from).1)

  -- `cp(to, from)`: 0, or -1 with `errno`.
  unfoldable pub cp : ℕ → Bytes → Bytes → os.Disk → Sys (Unit {0}) × os.Disk
  unfolding write_all copy_loop after_copy
  cp fuel to from d =
      let (source, d₁) = os.open_file d from o_rdonly 0 in
      elim source [
        | err e ↦ (err e, d₁)
        | ret fd_from ↦
            let (target, d₂) = os.open_file d₁ to o_wronly_creat_excl 438 in
            elim target [
              | err e ↦ (err e, (os.close d₂ fd_from).1)
              | ret fd_to ↦ after_copy fd_from fd_to (copy_loop fuel fuel fd_from fd_to 0 d₂)
            ]
      ]
