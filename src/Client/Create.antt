-- ===== src/Client/Create.antt =====
-- AFS/afsfuse_client.cc: `client_create`, which makes a file on the server and then in the cache.
use client_server_file_syste.Base.{ℕ, ◌-◌, ◌/◌, ◌%◌, Bytes, ◌==◌, if◌then◌else◌}
use client_server_file_syste.Base.Int.{ℤ, pos, minus_one, is_zero, is_minus_one}
use client_server_file_syste.Sys.{Os, Sys, ret, err}
use client_server_file_syste.Rpc.Calls.{Stub, rpc_create, rpc_getattr}
use client_server_file_syste.Cache.{cached_path, mirror_directory_structure}
use client_server_file_syste.Client.{World}

-- `flags & ~(O_CREAT)`; O_CREAT is 64.
abbrev pub without_creat : ℕ → ℕ
without_creat flags = if flags / 64 % 2 == 1 then flags - 64 else flags

module _ (os : Os) {S : Type 0} (stub : Stub S) where
  -- "Sync access and modified time of server with local create"
  unfoldable pub sync_times : Bytes → World S os.Disk → World S os.Disk
  sync_times path w =
      let ((res, remote), s') = rpc_getattr stub path w.server in
      if is_minus_one res then record w { server = s' } else record w {
        server = s';
        disk = (os.utimensat w.disk (cached_path w.cache path) remote.atim remote.mtim).1;
      }

  -- What becomes of `fd`: the second `open`, if the first failed. The result, and `fi->fh`.
  unfoldable pub opened_or_again :
      Bytes → ℕ → ℕ → Sys ℕ → World S os.Disk → (ℤ × ℕ) × World S os.Disk
  opened_or_again path flags fh (ret fd) w = ((pos 0, fd), w)
  opened_or_again path flags fh (err _) w =
      let (again, d') = os.open_file w.disk (cached_path w.cache path) (without_creat flags) 0 in
      elim again [
        | err _ ↦ ((minus_one, fh), record w { disk = d' })
        | ret fd ↦ ((pos 0, fd), record w { disk = d' })
      ]

  unfoldable pub create_locally : Bytes → ℕ → ℕ → ℕ → World S os.Disk → (ℤ × ℕ) × World S os.Disk
  create_locally path mode flags fh w =
      let d = mirror_directory_structure os w.cache path w.disk in
      let (opened, d') = os.open_file d (cached_path w.cache path) flags mode in
      opened_or_again path flags fh opened (sync_times path (record w { disk = d' }))

  -- `fi->fh` before and behind the call is the last argument but one and the second result.
  unfoldable pub client_create : Bytes → ℕ → ℕ → ℕ → World S os.Disk → (ℤ × ℕ) × World S os.Disk
  client_create path mode flags fh w =
      let ((res, fh'), s') = rpc_create stub path mode flags fh w.server in
      if is_zero res
      then create_locally path mode flags fh' (record w { server = s' })
      else ((res, fh'), record w { server = s' })
