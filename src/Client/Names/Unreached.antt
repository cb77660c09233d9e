-- ===== src/Client/Names/Unreached.antt =====
-- The operations on names when the server answers nothing.
use client_server_file_syste.Base.{ℕ, ◌≡◌, refl, false, [], Bytes, if◌then◌else◌}
use client_server_file_syste.Base.Int.{ℤ, pos}
use client_server_file_syste.Sys.{Os, Sys, zero_time, is_fifo}
use client_server_file_syste.Rpc.Calls.{
  Stub, rpc_mkdir, rpc_rmdir, rpc_unlink, rpc_rename, rpc_mknod,
}
use client_server_file_syste.Rpc.Calls.Down.{IsDown, down_reports_success}
use client_server_file_syste.Cache.{cached_path}
use client_server_file_syste.Client.{World}
use client_server_file_syste.Client.Names.{
  int_of, locally, client_mkdir, client_rmdir, client_unlink, client_rename, client_mknod,
}

module _ (os : Os) {S : Type 0} (stub : Stub S) where
  -- The result and the disk are those of a call on the cache.
  abbrev pub Local : ℤ × World S os.Disk → Sys (Unit {0}) × os.Disk → Type 0
  Local (res, w) (done, d) = (res ≡ int_of done) × (w.disk ≡ d)

  locally-Local :
      (call : os.Disk → Sys (Unit {0}) × os.Disk) (r : ℤ × S) (w : World S os.Disk)
      → r.0 ≡ pos 0
      → Local (locally os stub call r w) (call w.disk)
  unfolding locally
  locally-Local call (res, s') w e = rw e (refl, refl)

  -- Against a server that answers no attempt before its deadline, `client_mkdir`, `client_rmdir`,
  -- `client_unlink` and `client_mknod` change the names in the cache, and give the result that the
  -- cache gives; `client_rename` changes them too.
  pub unreached_names :
      (path to : Bytes) (mode rdev flags : ℕ) (w : World S os.Disk)
      → IsDown stub
      → let p = cached_path w.cache path in
        Local (client_mkdir os stub path mode w) (os.mkdir w.disk p mode)
        × Local (client_rmdir os stub path w) (os.rmdir w.disk p)
        × Local (client_unlink os stub path w) (os.unlink w.disk p)
        × Local
            (client_mknod os stub path mode rdev w)
            (if is_fifo mode then os.mkfifo w.disk p mode else os.mknod w.disk p mode rdev)
        × ((client_rename os stub path to flags w).1.disk
            ≡ (os.rename w.disk p (cached_path w.cache to)).1)
  unfolding client_mkdir client_rmdir client_unlink client_mknod client_rename
  unreached_names path to mode rdev flags w h =
      let all =
        down_reports_success stub {F = Unit {0}} (λ name st f. (false, f)) tt path to [] mode flags
          0 rdev 0 zero_time zero_time w.server h in
      let renamed =
        locally-Local (λ d. os.rename d (cached_path w.cache path) (cached_path w.cache to))
          (rpc_rename stub path to flags w.server) w all.9 in
      (
        locally-Local (λ d. os.mkdir d (cached_path w.cache path) mode)
            (rpc_mkdir stub path mode w.server) w all.6,
        locally-Local (λ d. os.rmdir d (cached_path w.cache path)) (rpc_rmdir stub path w.server) w
            all.7,
        locally-Local (λ d. os.unlink d (cached_path w.cache path)) (rpc_unlink stub path w.server)
            w all.8,
        locally-Local
            (λ d.
              if is_fifo mode
              then os.mkfifo d (cached_path w.cache path) mode
              else os.mknod d (cached_path w.cache path) mode rdev)
            (rpc_mknod stub path mode rdev w.server) w all.11,
        renamed.1,
      )
