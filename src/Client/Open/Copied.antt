-- ===== src/Client/Open/Copied.antt =====
-- What a program gets when it opens a file that is in the cache.
use client_server_file_syste.Base.{◌^◌, ℕ, ◌<◌, ◌≡◌, true, some, [], Bytes}
use client_server_file_syste.Base.Int.{ℤ, pos}
use client_server_file_syste.Sys.{Os, Sys, ret, Stat}
use client_server_file_syste.Sys.Laws.{View, content, Same}
use client_server_file_syste.Rpc.Calls.{Stub}
use client_server_file_syste.Rpc.Transfer.{Streams}
use client_server_file_syste.Cache.{Cache, cached_path, is_temp_file, temp_path}
use client_server_file_syste.Cache.Fetched.{KeepsFiles}
use client_server_file_syste.Client.{World}
use client_server_file_syste.Client.Saved.{IsQuiet}
use client_server_file_syste.Client.Copy.{copy_loop, cp}
use client_server_file_syste.Client.Copy.Exact.{IsCopying}

-- The disk when both files of a copy are open.
abbrev pub both_open : (os : Os) → Bytes → Bytes → os.Disk → os.Disk
both_open os cached temp d = (os.open_file (os.open_file d cached 0 0).1 temp 193 438).1

-- How the calls of a copy answer when none fails: the cached file is opened, the temporary one is
-- made and is empty, and the copy can be opened for the program without a change of the files.
pub record CanCopy (os : Os) (v : View os) (cached temp : Bytes) (flags fd : ℕ) (d : os.Disk)
    (b : Bytes) : Type 1 where
  -- The descriptor that open gives is not negative as an `int`.
  pub valid : fd < 2 ^ 31
  pub from : ℕ
  pub to : ℕ
  pub inode : os.Disk → ℕ → ℕ
  pub Good : os.Disk → Type 0
  pub named : (e : os.Disk) → Good e → v.node e temp ≡ some (inode e to)
  pub copying : IsCopying os from to (λ e k. v.bytes_of e (inode e k)) Good
  pub shown : content v d cached ≡ some b
  pub source : (os.open_file d cached 0 0).0 ≡ ret from
  pub target : (os.open_file (os.open_file d cached 0 0).1 temp 193 438).0 ≡ ret to
  pub good : Good (both_open os cached temp d)
  pub empty : v.bytes_of (both_open os cached temp d) (inode (both_open os cached temp d) to) ≡ []
  pub whole : v.bytes_of (both_open os cached temp d) (inode (both_open os cached temp d) from) ≡ b
  pub kept :
      (e : os.Disk) → Good e → (q : Bytes) → v.node e q ≡ v.node (both_open os cached temp d) q
  pub looks :
      (e : os.Disk)
      → ((q : Bytes) → v.node e q ≡ v.node (both_open os cached temp d) q)
      → (st : Stat) × (os.lstat e cached ≡ ret st)
  pub opens :
      (e : os.Disk)
      → ((q : Bytes) → v.node e q ≡ v.node (both_open os cached temp d) q)
      → ((os.open_file e temp flags 0).0 ≡ ret fd) × Same v e (os.open_file e temp flags 0).1

module _ (os : Os) (v : View os) (quiet : IsQuiet os v) (cached temp : Bytes) (flags fd : ℕ)
    (d : os.Disk) (b : Bytes) (can : CanCopy os v cached temp flags fd d b) (fuel : ℕ) where
  abbrev copy : Sys (Unit {0}) × os.Disk
  copy = copy_loop os fuel fuel can.from can.to 0 (both_open os cached temp d)

module _ (os : Os) {S W : Type 0} (stub : Stub S) (streams : Streams S W) (rands : ℕ → ℕ) (fuel : ℕ)
    (path temp : Bytes) (flags fh fd : ℕ) (w : World S os.Disk) (st : Stat) where
  abbrev copied : os.Disk
  copied = (cp os fuel temp (cached_path w.cache path) w.disk).1

  abbrev timed : os.Disk
  timed = (os.utimensat copied temp st.atim st.mtim).1

module _ (os : Os) (v : View os) (quiet : IsQuiet os v) (keeps : KeepsFiles os v) {S W : Type 0}
    (stub : Stub S) (streams : Streams S W) (rands : ℕ → ℕ) (fd : ℕ) where
  -- The program is given `fd`, which stands for the temporary file, and that file holds the bytes.
  -- The cache stays in its folder.
  pub record Given (root temp b : Bytes) (r : (ℤ × ℕ) × World S os.Disk) : Type 0 where
    pub result : r.0 ≡ (pos 0, fd)
    pub rooted : r.1.cache.cached_root ≡ root
    pub noted : is_temp_file fd r.1.cache ≡ true
    pub name : temp_path r.1.cache fd ≡ temp
    pub holds : content v r.1.disk temp ≡ some b
