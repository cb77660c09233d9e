-- ===== src/Client.antt =====
-- AFS/afsfuse_client.cc: what the client does when a program closes a file: `isFileModified`,
-- `client_flush`, `client_release`, `closeOnServer`, and the recovery file in between.
pub mod Saved
pub mod Names
pub mod Files
pub mod Create
pub mod Copy
pub mod Open
pub mod Recover
pub mod Session
use client_server_file_syste.Base.{
  ℕ, Bool, true, false, Option, none, some, List, [], ◌∷◌, ◌++◌, Bytes, text, find_last_of, drop,
  ltb, ◌==◌, if◌then◌else◌,
}
use client_server_file_syste.Base.Int.{ℤ, pos, minus_one, is_zero}
use client_server_file_syste.Sys.{Os, Sys, ret, err, Exit, returned, killed, Stat}
use client_server_file_syste.Rpc.Calls.{Stub, rpc_getattr}
use client_server_file_syste.Rpc.Transfer.{Streams, rpc_put_file}
use client_server_file_syste.Cache.{
  Cache, after_draws, cached_path, temp_path, is_temp_file, clear_temp_file,
}

-- The client, the server that it reaches, and the paths given to `submitRequest`, oldest first.
pub record World (S D : Type 0) : Type 0 where
  pub server : S
  pub disk : D
  pub cache : Cache
  pub submitted : List Bytes

-- `parallel_close_file_size_thresh`
abbrev pub parallel_close_file_size_thresh : ℕ
parallel_close_file_size_thresh = 167772160

-- `s.substr(s.find_last_of("/"))`; the paths here have a '/'.
abbrev pub base_name : Bytes → Bytes
base_name s = elim (find_last_of b'/' s) [ none ↦ [] | some n ↦ drop n s ]

abbrev pub recovery_of : Bytes → Bytes
recovery_of temp = temp ++ text ".recover"

module _ (os : Os) {S W : Type 0} (stub : Stub S) (streams : Streams S W) where
  abbrev Client : Type 0
  Client = World S os.Disk

  -- What `fstat` of the descriptor makes of the server's answer.
  abbrev pub compare_times : Stat → Sys Stat → Bool
  compare_times remote (err _) = true
  compare_times remote (ret here) = if here.mtim.nsec == remote.mtim.nsec then false else true

  unfoldable pub is_file_modified : Bytes → ℕ → Client → Bool × Client
  is_file_modified path fd w =
      let ((res, remote), s') = rpc_getattr stub path w.server in
      (
        if is_zero res then compare_times remote (os.fstat w.disk fd) else true,
        record w { server = s' },
      )

  -- The first argument says whether `close(dup(fd))` gives 0.
  unfoldable pub client_flush : Bool → Bytes → Option ℕ → Client → ℤ × Client
  client_flush closed path none w = (pos 0, w)
  client_flush closed path (some fd) w =
      let (modified, w₁) = is_file_modified path fd w in
      (
        if closed then pos 0 else minus_one,
        if modified then record w₁ { disk = (os.fdatasync w₁.disk fd).1 } else w₁,
      )

  unfoldable pub get_file_size : Bytes → Client → ℕ
  get_file_size path w = elim (os.lstat w.disk (cached_path w.cache path)) [
    | err _ ↦ 0
    | ret st ↦ st.size
  ]

  unfoldable pub close_on_server : Bytes → Client → Client
  close_on_server path w =
      let (_, s', d') = rpc_put_file os streams w.cache.cached_root path w.server w.disk in
      record w { server = s'; disk = d' }

  -- `createRecoveryPath`; the result of `rename` is not looked at.
  unfoldable pub create_recovery_path : ℕ → Client → Client
  create_recovery_path fd w = record w {
    disk = (os.rename w.disk (temp_path w.cache fd) (recovery_of (temp_path w.cache fd))).1;
    cache = record w.cache { draws = after_draws fd w.cache.draws };
  }

  -- `renameRecoveryFileDuringRelease`, and `clearTempFile` behind it.
  unfoldable pub keep_recovery : Bytes → Bytes → ℕ → Client → Client
  keep_recovery recovery path fd w = record w {
    disk = (os.rename w.disk recovery (cached_path w.cache path)).1;
    cache = clear_temp_file fd w.cache;
  }

  -- A changed temporary file that is not too large: sent at once.
  unfoldable pub release_small : ℕ → Bytes → ℕ → Bytes → Client → Exit ℤ × Client
  release_small crash_site path fd recovery w =
      if crash_site == 2
      then (killed, w)
      else (let w₁ = close_on_server (base_name recovery) w in
          if crash_site == 1
          then (killed, w₁)
          else (returned (pos 0), keep_recovery recovery path fd w₁))

  -- A large one is queued.
  unfoldable pub release_large : Bytes → ℕ → Bytes → Client → Exit ℤ × Client
  release_large path fd recovery w =
      let w₁ = keep_recovery recovery path fd w in
      (returned (pos 0), record w₁ { submitted = w₁.submitted ++ (path ∷ []) })

  -- Behind `close`, for a file that is to be sent.
  unfoldable pub send_released : ℕ → Bytes → ℕ → Bool → Bytes → Client → Exit ℤ × Client
  send_released crash_site path fd is_temp recovery w =
      if ltb parallel_close_file_size_thresh (get_file_size path w)
      then (if is_temp
          then release_large path fd recovery w
          else (returned (pos 0), record w { submitted = w.submitted ++ (path ∷ []) }))
      else (if is_temp
          then release_small crash_site path fd recovery w
          else (returned (pos 0), close_on_server path w))

  after_close : ℕ → Bytes → ℕ → Bool → Bool → Bytes → Sys (Unit {0}) → Client → Exit ℤ × Client
  after_close crash_site path fd need_to_send is_temp recovery (err _) w = (returned minus_one, w)
  after_close crash_site path fd need_to_send is_temp recovery (ret _) w =
      if need_to_send
      then send_released crash_site path fd is_temp recovery w
      else (returned (pos 0), w)

  -- `close`, and what stands behind it.
  unfoldable pub close_released : ℕ → Bytes → ℕ → Bool → Bool → Bytes → Client → Exit ℤ × Client
  unfolding after_close
  close_released crash_site path fd need_to_send is_temp recovery w =
      let (res, d') = os.close w.disk fd in
      after_close crash_site path fd need_to_send is_temp recovery res (record w { disk = d' })

  unfoldable pub client_release : ℕ → Bytes → Option ℕ → Client → Exit ℤ × Client
  client_release crash_site path none w = (returned (pos 0), w)
  client_release crash_site path (some fd) w =
      let (need_to_send, w₁) = is_file_modified path fd w in
      let is_temp = is_temp_file fd w.cache in
      if need_to_send
      then (let w₂ = record w₁ { disk = (os.fdatasync w₁.disk fd).1 } in
          if is_temp
          then (if crash_site == 5
              then (killed, w₂)
              else close_released crash_site path fd true true (recovery_of (temp_path w.cache fd))
                  (create_recovery_path fd w₂))
          else close_released crash_site path fd true false [] w₂)
      else close_released crash_site path fd false is_temp [] w₁
