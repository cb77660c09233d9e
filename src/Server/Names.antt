-- ===== src/Server/Names.antt =====
-- AFS/afsfuse_server.cc: the handlers that change names: `afsfuse_mkdir`, `afsfuse_rmdir`,
-- `afsfuse_unlink`, `afsfuse_rename`, `afsfuse_mknod`.
use client_server_file_syste.Base.{ℕ, Bytes, text, ◌==◌, if◌then◌else◌}
use client_server_file_syste.Sys.{Os, Sys, ret, err, is_fifo}
use client_server_file_syste.Messages.{
  Code, ok, OutputInfo, empty_info, MkdirRequest, RenameRequest, MknodRequest,
}
use client_server_file_syste.Server.Paths.{server_path}

-- `EINVAL`
abbrev pub einval : ℕ
einval = 22

-- The end of each handler: `reply->set_err(res == -1 ? errno : 0); return Status::OK;`
abbrev pub answer {ℓ} : {D : Type ℓ} → Sys (Unit {0}) × D → (Code × OutputInfo) × D
answer (ret _, d) = ((ok, empty_info), d)
answer (err e, d) = ((ok, record empty_info { err = e }), d)

module _ (os : Os) (root : Bytes) where
  unfoldable pub afsfuse_mkdir : MkdirRequest → os.Disk → (Code × OutputInfo) × os.Disk
  afsfuse_mkdir input d = answer (os.mkdir d (server_path root input.s) input.mode)

  unfoldable pub afsfuse_rmdir : Bytes → os.Disk → (Code × OutputInfo) × os.Disk
  afsfuse_rmdir input d = answer (os.rmdir d (server_path root input))

  unfoldable pub afsfuse_unlink : Bytes → os.Disk → (Code × OutputInfo) × os.Disk
  afsfuse_unlink input d = answer (os.unlink d (server_path root input))

  unfoldable pub afsfuse_rename : RenameRequest → os.Disk → (Code × OutputInfo) × os.Disk
  afsfuse_rename input d =
      if input.flag == 0
      then answer (os.rename d (server_path root input.fp) (server_path root input.tp))
      else ((ok, record { str = text "rename fail"; err = einval }), d)

  unfoldable pub afsfuse_mknod : MknodRequest → os.Disk → (Code × OutputInfo) × os.Disk
  afsfuse_mknod input d =
      if is_fifo input.mode
      then answer (os.mkfifo d (server_path root input.path) input.mode)
      else answer (os.mknod d (server_path root input.path) input.mode input.rdev)
