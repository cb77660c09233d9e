-- ===== src/Tests/Rpc.antt =====
-- The calls against the server's handlers on a disk in memory.
use client_server_file_syste.Base.{
  ℕ, zero, suc, ◌≡◌, ◌⊎◌, ◌≤◌, ◌<◌, refl, none, some, [], ◌∷◌, Bytes, text, bytes_eq, length, arith,
  Bool, false, List, subst,
}
use client_server_file_syste.Base.Int.{pos, neg}
use client_server_file_syste.Sys.{Stat, zero_time, zero_stat, ret}
use client_server_file_syste.Sys.Memory.{Disk, file_stat, memory, memory_calls}
use client_server_file_syste.Sys.Memory.Assoc.{lookup}
use client_server_file_syste.Messages.{deadline_exceeded, ok, MkdirRequest}
use client_server_file_syste.Server.Paths.{server_path}
use client_server_file_syste.Server.Names.{afsfuse_mkdir}
use client_server_file_syste.Rpc.Retry.{Call, request, retry}
use client_server_file_syste.Rpc.Retry.Bounds.{IsBackoff, sum, request_bounds}
use client_server_file_syste.Rpc.Retry.Outcome.{
  answered, unanswered, Ran, Tried, IsRpc, request_runs,
}
use client_server_file_syste.Rpc.Calls.{
  Stub, rpc_getattr, rpc_readdir, rpc_open, rpc_read, rpc_write, rpc_create, rpc_mkdir, rpc_rmdir,
  rpc_unlink, rpc_rename, rpc_utimens, rpc_mknod,
}
use client_server_file_syste.Server.Names.{afsfuse_unlink}
use client_server_file_syste.Rpc.Calls.Once.{unlink, call, serve, changed_once}
use client_server_file_syste.Rpc.Calls.Down.{IsDown, down_reports_success}
use client_server_file_syste.Rpc.Calls.Executed.{
  serve_getattr, serve_mkdir, Fits, Seen, getattr_lem,
}

abbrev pub disk : Disk
disk = record {
  names = (text "/s/f", 4) ∷ [];
  dirs = λ p. bytes_eq p (text "/s");
  files = λ i. text "old";
  buffers = λ h. [];
  times = λ i. zero_time;
}

-- The second component counts the replies that are still to be lost.
abbrev pub link : {R : Type 0} → (Disk → R × Disk) → Call (Disk × ℕ) R
link handler backoff (d, zero) = ((ok, some (handler d).0), ((handler d).1, zero))
link handler backoff (d, suc n) = ((deadline_exceeded, none), ((handler d).1, n))

pub link-IsRpc : {R : Type 0} (handler : Disk → R × Disk) → IsRpc (link handler) (λ s. s.0) handler
link-IsRpc handler backoff (d, zero) = answered
link-IsRpc handler backoff (d, suc n) = unanswered deadline_exceeded (λ p. cc (p))

abbrev pub silence : {S R : Type 0} → Call S R
silence backoff s = ((deadline_exceeded, none), s)

abbrev pub down : Stub Disk
down = record {
  getattr = λ m. silence;
  readdir = λ m b s. ((deadline_exceeded, []), s);
  open_file = λ m. silence;
  read = λ m. silence;
  write = λ m. silence;
  create = λ m. silence;
  mkdir = λ m. silence;
  rmdir = λ m. silence;
  unlink = λ m. silence;
  rename = λ m. silence;
  utimens = λ m. silence;
  mknod = λ m. silence;
}

pub down-IsDown : IsDown down
down-IsDown = record {
  getattr = λ m b s. refl;
  readdir = λ m b s. refl;
  open_file = λ m b s. refl;
  read = λ m b s. refl;
  write = λ m b s. refl;
  create = λ m b s. refl;
  mkdir = λ m b s. refl;
  rmdir = λ m b s. refl;
  unlink = λ m b s. refl;
  rename = λ m b s. refl;
  utimens = λ m b s. refl;
  mknod = λ m b s. refl;
}

-- Three calls that reach the server; the others do not.
abbrev up : Stub (Disk × ℕ)
up = record {
  getattr = λ path. link (serve_getattr memory (text "/s") path);
  readdir = λ m b s. ((deadline_exceeded, []), s);
  open_file = λ m. silence;
  read = λ m. silence;
  write = λ m. silence;
  create = λ m. silence;
  mkdir = λ m. link (serve_mkdir memory (text "/s") m);
  rmdir = λ m. silence;
  unlink = λ path. link (serve memory (text "/s") (unlink path));
  rename = λ m. silence;
  utimens = λ m. silence;
  mknod = λ m. silence;
}

abbrev request_d : MkdirRequest
request_d = record { s = text "/d"; mode = 493 }

abbrev made : Disk
unfolding memory_calls
made = (memory.mkdir disk (text "/s/d") 493).1

request_bounds_example :
    let ds = (request (up.mkdir request_d) (record { str = []; err = 0 }) (disk, 2)).0.deadlines in
    (0 < length ds) × (length ds ≤ 13) × IsBackoff 50 ds × (sum ds ≤ 19262)
request_bounds_example =
    request_bounds (up.mkdir request_d) (record { str = []; err = 0 }) (disk, 2)

request_runs_example :
    let out = request (up.mkdir request_d) (record { str = []; err = 0 }) (disk, 2) in
    Ran
      (serve_mkdir memory (text "/s") request_d)
      13
      disk
      (record { str = []; err = 0 })
      out.0.result
      out.1.0
    × Tried (up.mkdir request_d) 12 50 (disk, 2) out.0.deadlines out.1
request_runs_example =
    request_runs (up.mkdir request_d) (λ s. s.0) (serve_mkdir memory (text "/s") request_d)
      (record { str = []; err = 0 }) (disk, 2)
      (link-IsRpc (serve_mkdir memory (text "/s") request_d))

-- Lost twice, the reply to a call that made a directory is EEXIST.
mkdir_runs : (rpc_mkdir up (text "/d") 493 (disk, 2)).0 ≡ neg 17
unfolding rpc_mkdir afsfuse_mkdir retry memory_calls
mkdir_runs = refl

-- The first run removes the file, and its reply is lost.
unlink_runs : (call up (unlink (text "/f")) (disk, 1)).0 ≡ neg 2
unfolding call rpc_unlink serve afsfuse_unlink retry memory_calls lookup
unlink_runs = refl

changed_once_example :
    let (res, s') = call up (unlink (text "/f")) (disk, 1) in
    let removed = (memory.unlink disk (text "/s/f")).1 in
    ((res ≡ pos 0) × (s'.0 ≡ disk)) ⊎ (((res ≡ pos 0) ⊎ (res ≡ neg 2)) × (s'.0 ≡ removed))
unfolding memory_calls lookup
changed_once_example =
    changed_once up memory (text "/s") (λ s. s.0) (unlink (text "/f")) (disk, 1)
      (memory.unlink disk (text "/s/f")).1 2
      (link-IsRpc (serve memory (text "/s") (unlink (text "/f")))) refl refl

fits : (st : Stat) → memory.lstat disk (text "/s/f") ≡ ret st → Fits st
unfolding memory_calls lookup
fits st e =
    let p : file_stat disk 4 ≡ st = cc in
    subst Fits p (record {
      ino = omega arith;
      mode = omega arith;
      nlink = omega arith;
      uid = omega arith;
      gid = omega arith;
      ctime = omega arith;
    })

getattr_lem_example :
    let (res, s') = rpc_getattr up (text "/f") (disk, 3) in
    (s'.0 ≡ disk)
    × ((res ≡ (pos 0, zero_stat))
        ⊎ Seen (memory.lstat disk (server_path (text "/s") (text "/f"))) res)
getattr_lem_example =
    getattr_lem memory (text "/s") up (λ s. s.0) (text "/f") (disk, 3)
      (link-IsRpc (serve_getattr memory (text "/s") (text "/f"))) fits

abbrev filler : Bytes → Stat → List Bytes → Bool × List Bytes
filler name st names = (false, name ∷ names)

down_reports_success_example :
    ((rpc_getattr down (text "/f") disk).0 ≡ (pos 0, zero_stat))
    × ((rpc_readdir down filler (text "/f") [] disk).0 ≡ (pos 0, []))
    × ((rpc_open down (text "/f") 0 9 disk).0 ≡ (pos 0, 0))
    × ((rpc_read down (text "/f") (text "abc") 3 0 disk).0 ≡ (pos 0, []))
    × ((rpc_write down (text "/f") (text "abc") 3 0 disk).0 ≡ pos 0)
    × ((rpc_create down (text "/f") 420 0 9 disk).0 ≡ (pos 0, 0))
    × ((rpc_mkdir down (text "/f") 420 disk).0 ≡ pos 0)
    × ((rpc_rmdir down (text "/f") disk).0 ≡ pos 0)
    × ((rpc_unlink down (text "/f") disk).0 ≡ pos 0)
    × ((rpc_rename down (text "/f") (text "/g") 0 disk).0 ≡ pos 0)
    × ((rpc_utimens down (text "/f") zero_time zero_time disk).0 ≡ pos 0)
    × ((rpc_mknod down (text "/f") 420 3 disk).0 ≡ pos 0)
down_reports_success_example =
    down_reports_success down filler [] (text "/f") (text "/g") (text "abc") 420 0 9 3 0 zero_time
      zero_time disk down-IsDown
