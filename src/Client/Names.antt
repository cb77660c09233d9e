-- ===== src/Client/Names.antt =====
-- AFS/afsfuse_client.cc: the operations on names, which the server makes first and the cache
-- after it: `client_mkdir`, `client_rmdir`, `client_unlink`, `client_rename`, `client_mknod`,
-- `client_utimens`.
pub mod Unreached
use client_server_file_syste.Base.{ℕ, Bytes, if◌then◌else◌}
use client_server_file_syste.Base.Int.{ℤ, pos, minus_one, is_zero}
use client_server_file_syste.Sys.{Os, Sys, ret, err, Time, is_reg, is_fifo}
use client_server_file_syste.Rpc.Calls.{
  Stub, rpc_mkdir, rpc_rmdir, rpc_unlink, rpc_rename, rpc_utimens, rpc_mknod,
}
use client_server_file_syste.Cache.{cached_path}
use client_server_file_syste.Client.{World}

abbrev pub int_of : Sys (Unit {0}) → ℤ
int_of (ret _) = pos 0
int_of (err _) = minus_one

module _ (os : Os) {S : Type 0} (stub : Stub S) where
  -- A call on the cache, if the server's call gave 0.
  unfoldable pub locally :
      (os.Disk → Sys (Unit {0}) × os.Disk) → ℤ × S → World S os.Disk → ℤ × World S os.Disk
  locally call (res, s') w =
      if is_zero res
      then (let (done, d') = call w.disk in (int_of done, record w { server = s'; disk = d' }))
      else (res, record w { server = s' })

  unfoldable pub client_mkdir : Bytes → ℕ → World S os.Disk → ℤ × World S os.Disk
  unfolding locally
  client_mkdir path mode w =
      locally (λ d. os.mkdir d (cached_path w.cache path) mode) (rpc_mkdir stub path mode w.server)
        w

  unfoldable pub client_rmdir : Bytes → World S os.Disk → ℤ × World S os.Disk
  unfolding locally
  client_rmdir path w =
      locally (λ d. os.rmdir d (cached_path w.cache path)) (rpc_rmdir stub path w.server) w

  unfoldable pub client_unlink : Bytes → World S os.Disk → ℤ × World S os.Disk
  unfolding locally
  client_unlink path w =
      locally (λ d. os.unlink d (cached_path w.cache path)) (rpc_unlink stub path w.server) w

  -- The result is 0 whatever happened.
  unfoldable pub client_rename : Bytes → Bytes → ℕ → World S os.Disk → ℤ × World S os.Disk
  unfolding locally
  client_rename from to flags w =
      let (_, w') =
        locally (λ d. os.rename d (cached_path w.cache from) (cached_path w.cache to))
          (rpc_rename stub from to flags w.server) w in
      (pos 0, w')

  unfoldable pub client_mknod : Bytes → ℕ → ℕ → World S os.Disk → ℤ × World S os.Disk
  unfolding locally
  client_mknod path mode rdev w =
      locally
        (λ d.
          if is_fifo mode
          then os.mkfifo d (cached_path w.cache path) mode
          else os.mknod d (cached_path w.cache path) mode rdev)
        (rpc_mknod stub path mode rdev w.server) w

  -- `path_stat` is not cleared: `stack_mode` is the mode that stands in it if `stat` fails. The
  -- result of the server's call is overwritten.
  unfoldable pub client_utimens : ℕ → Bytes → Time → Time → World S os.Disk → ℤ × World S os.Disk
  client_utimens stack_mode path atim mtim w =
      let mode : ℕ = elim (os.stat w.disk (cached_path w.cache path)) [
        | ret st ↦ st.mode
        | err _ ↦ stack_mode
      ] in
      let s' = if is_reg mode then w.server else (rpc_utimens stub path atim mtim w.server).1 in
      let (done, d') = os.utimensat w.disk (cached_path w.cache path) atim mtim in
      (int_of done, record w { server = s'; disk = d' })
