-- ===== src/Client/Files.antt =====
-- AFS/afsfuse_client.cc: the operations on files that are open: `client_getattr`,
-- `client_readdir`, `client_read`, `client_write`, `client_fsync`.
use client_server_file_syste.Base.{
  ℕ, ◌%◌, Bool, true, false, Option, none, some, Bytes, length, leb, if◌then◌else◌,
}
use client_server_file_syste.Base.Int.{ℤ, pos, neg, minus_one}
use client_server_file_syste.Sys.{Os, Sys, ret, err, Stat, zero_stat}
use client_server_file_syste.Rpc.Calls.{Stub, rpc_getattr, rpc_readdir}
use client_server_file_syste.Rpc.Transfer.{Streams}
use client_server_file_syste.Cache.{cached_path, is_cached}
use client_server_file_syste.Client.{World}

-- `O_RDONLY`, and `O_RDWR | O_APPEND`
abbrev o_rdonly : ℕ
o_rdonly = 0

abbrev o_rdwr_append : ℕ
o_rdwr_append = 1026

-- `if (res == -1) return -errno; return 0;`, with the buffer that `memset` cleared.
abbrev pub stat_answer : Sys Stat → ℤ × Stat
stat_answer (ret st) = (pos 0, st)
stat_answer (err e) = (neg e, zero_stat)

module _ (os : Os) {S W : Type 0} (stub : Stub S) (streams : Streams S W) (rands : ℕ → ℕ) where
  -- The descriptor is that of `fi`, if there is one.
  unfoldable pub client_getattr : Bytes → Option ℕ → World S os.Disk → (ℤ × Stat) × World S os.Disk
  client_getattr path (some fd) w = (stat_answer (os.fstat w.disk fd), w)
  client_getattr path none w =
      let (cached, s', d') = is_cached os stub streams rands w.cache path w.server w.disk in
      let w' = record w { server = s'; disk = d' } in
      elim cached [
        | true ↦ (stat_answer (os.lstat d' (cached_path w.cache path)), w')
        | false ↦ (let (out, s'') = rpc_getattr stub path s' in (out, record w' { server = s'' }))
      ]

  unfoldable pub client_readdir :
      {F : Type 0}
      → (Bytes → Stat → F → Bool × F)
      → Bytes
      → F
      → World S os.Disk
      → (ℤ × F) × World S os.Disk
  client_readdir filler path buf w =
      let (out, s') = rpc_readdir stub filler path buf w.server in (out, record w { server = s' })

  -- `fi`, or a descriptor of the cached file.
  unfoldable pub descriptor : Bytes → ℕ → Option ℕ → World S os.Disk → Sys ℕ × World S os.Disk
  descriptor path flags (some fd) w = (ret fd, w)
  descriptor path flags none w =
      let (opened, d') = os.open_file w.disk (cached_path w.cache path) flags 0 in
      (opened, record w { disk = d' })

  -- The bytes read, and their number.
  unfoldable pub client_read :
      Bytes → ℕ → ℕ → Option ℕ → World S os.Disk → (ℤ × Option Bytes) × World S os.Disk
  client_read path size offset fi w =
      let (opened, w') = descriptor path o_rdonly fi w in
      elim opened [
        | err _ ↦ ((minus_one, none), w')
        | ret fd ↦ elim (os.pread w'.disk fd size offset) [
          | err _ ↦ ((minus_one, none), w')
          | ret bytes ↦ ((pos (length bytes), some bytes), w')
        ]
      ]

  -- One write in ten, by `rand()`, is flushed at once.
  unfoldable pub client_write :
      ℕ → Bytes → Bytes → ℕ → Option ℕ → World S os.Disk → ℤ × World S os.Disk
  client_write rand path buf offset fi w =
      let (opened, w') = descriptor path o_rdwr_append fi w in
      elim opened [
        | err _ ↦ (minus_one, w')
        | ret fd ↦
            let (res, d') = os.pwrite w'.disk fd buf offset in
            let d'' = if leb 90 (rand % 100) then (os.fdatasync d' fd).1 else d' in
            elim res [
              | err _ ↦ (minus_one, record w' { disk = d'' })
              | ret n ↦ (pos n, record w' { disk = d'' })
            ]
      ]

  unfoldable pub client_fsync : Bool → ℕ → World S os.Disk → ℤ × World S os.Disk
  client_fsync is_data_sync fd w =
      let (res, d') = if is_data_sync then os.fdatasync w.disk fd else os.fsync w.disk fd in
      (elim res [ ret _ ↦ pos 0 | err _ ↦ minus_one ], record w { disk = d' })
