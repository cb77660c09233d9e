-- ===== src/Rpc/Calls/Once.antt =====
-- The calls that change names, and what comes of them when replies are lost.
use client_server_file_syste.Base.{
  ℕ, ◌≡◌, refl, ap, ◌∙◌, ◌⊎◌, Bool, true, false, if◌then◌else◌, Bytes, arith,
}
use client_server_file_syste.Base.Int.{ℤ, pos, neg}
use client_server_file_syste.Sys.{Os, Sys, ret, err, is_fifo}
use client_server_file_syste.Messages.{u32, Code, OutputInfo, empty_info}
use client_server_file_syste.Server.Paths.{server_path}
use client_server_file_syste.Server.Names.{
  answer, afsfuse_mkdir, afsfuse_rmdir, afsfuse_unlink, afsfuse_rename, afsfuse_mknod,
}
use client_server_file_syste.Rpc.Retry.{Call, request}
use client_server_file_syste.Rpc.Retry.Outcome.{IsRpc, request-Ran}
use client_server_file_syste.Rpc.Calls.{
  Stub, negated, rpc_mkdir, rpc_rmdir, rpc_unlink, rpc_rename, rpc_mknod,
}
use client_server_file_syste.Rpc.Calls.Executed.{Ran-first}

pub data NameCall : Type 0 where
  mkdir : Bytes → ℕ → NameCall
  rmdir : Bytes → NameCall
  unlink : Bytes → NameCall
  rename : Bytes → Bytes → NameCall
  mknod : Bytes → ℕ → ℕ → NameCall

abbrev pub without_code {ℓ} : {D : Type ℓ} → (Code × OutputInfo) × D → OutputInfo × D
without_code ((c, r), d) = (r, d)

answer-if :
    {D : Type 0} (b : Bool) (x y : Sys (Unit {0}) × D)
    → without_code (if b then answer x else answer y) ≡ without_code (answer (if b then x else y))
answer-if true x y = refl
answer-if false x y = refl

module _ (os : Os) (root : Bytes) where
  -- The call of the server's system that a request is for.
  abbrev pub system_call : NameCall → os.Disk → Sys (Unit {0}) × os.Disk
  system_call (mkdir path mode) d = os.mkdir d (server_path root path) mode
  system_call (rmdir path) d = os.rmdir d (server_path root path)
  system_call (unlink path) d = os.unlink d (server_path root path)
  system_call (rename from to) d = os.rename d (server_path root from) (server_path root to)
  system_call (mknod path mode rdev) d =
      if is_fifo mode
      then os.mkfifo d (server_path root path) mode
      else os.mknod d (server_path root path) mode (u32 rdev)

  -- The reply of the handler, and the server behind it.
  unfoldable pub serve : NameCall → os.Disk → OutputInfo × os.Disk
  serve (mkdir path mode) d =
      without_code (afsfuse_mkdir os root (record { s = path; mode = mode }) d)
  serve (rmdir path) d = without_code (afsfuse_rmdir os root path d)
  serve (unlink path) d = without_code (afsfuse_unlink os root path d)
  serve (rename from to) d =
      without_code (afsfuse_rename os root (record { fp = from; tp = to; flag = 0 }) d)
  serve (mknod path mode rdev) d =
      without_code (afsfuse_mknod os root (record { path = path; mode = mode; rdev = u32 rdev }) d)

  serve-answer : (c : NameCall) (d : os.Disk) → serve c d ≡ without_code (answer (system_call c d))
  unfolding serve afsfuse_mkdir afsfuse_rmdir afsfuse_unlink afsfuse_rename afsfuse_mknod
  serve-answer (mkdir path mode) d = refl
  serve-answer (rmdir path) d = refl
  serve-answer (unlink path) d = refl
  serve-answer (rename from to) d = refl
  serve-answer (mknod path mode rdev) d =
      answer-if (is_fifo mode) (os.mkfifo d (server_path root path) mode)
        (os.mknod d (server_path root path) mode (u32 rdev))

module _ {S : Type 0} (stub : Stub S) where
  abbrev pub attempt : NameCall → Call S OutputInfo
  attempt (mkdir path mode) = stub.mkdir (record { s = path; mode = mode })
  attempt (rmdir path) = stub.rmdir path
  attempt (unlink path) = stub.unlink path
  attempt (rename from to) = stub.rename (record { fp = from; tp = to; flag = 0 })
  attempt (mknod path mode rdev) = stub.mknod (record { path = path; mode = mode; rdev = u32 rdev })

  unfoldable pub call : NameCall → S → ℤ × S
  call (mkdir path mode) s = rpc_mkdir stub path mode s
  call (rmdir path) s = rpc_rmdir stub path s
  call (unlink path) s = rpc_unlink stub path s
  call (rename from to) s = rpc_rename stub from to 0 s
  call (mknod path mode rdev) s = rpc_mknod stub path mode rdev s

  call-request : (c : NameCall) (s : S) → call c s ≡ negated stub (request (attempt c) empty_info s)
  unfolding call rpc_mkdir rpc_rmdir rpc_unlink rpc_rename rpc_mknod
  call-request (mkdir path mode) s = refl
  call-request (rmdir path) s = refl
  call-request (unlink path) s = refl
  call-request (rename from to) s = refl
  call-request (mknod path mode rdev) s = refl

  module _ (os : Os) (root : Bytes) (disk : S → os.Disk) where
    -- A call of `rpc_mkdir`, `rpc_rmdir`, `rpc_unlink`, `rpc_rename` with the flags 0 or
    -- `rpc_mknod`, of which grpc runs each attempt at most once, before the attempt ends, for a
    -- change that the server can make once, and that it refuses with an error, and no change,
    -- once it is made: either nothing was changed, no reply came and the call reports success; or
    -- the change was made, and the call reports success or, when the reply to the run that made
    -- it was lost, that error.
    pub changed_once :
        (c : NameCall) (s : S) (made : os.Disk) (e : ℕ)
        → IsRpc (attempt c) disk (serve os root c)
        → system_call os root c (disk s) ≡ (ret tt, made)
        → system_call os root c made ≡ (err e, made)
        → let (res, s') = call c s in
          ((res ≡ pos 0) × (disk s' ≡ disk s))
          ⊎ (((res ≡ pos 0) ⊎ (res ≡ neg e)) × (disk s' ≡ made))
    changed_once c s made e rpc first again =
        let run =
          Ran-first {made = made} {first = empty_info} {again = record empty_info { err = e }}
            (serve-answer os root c (disk s) ∙ ap (λ x. without_code (answer x)) first)
            (serve-answer os root c made ∙ ap (λ x. without_code (answer x)) again)
            (request-Ran (attempt c) disk (serve os root c) empty_info s rpc) in
        rw (call-request c s) (ground (arith, run))
