-- ===== src/Cache.antt =====
-- AFS/afsfuse_client.cc: `class Cache`: the whole files that the client keeps under its cache
-- folder, the names of the files that a write goes to, and whether a kept file is out of date.
pub mod Fresh
pub mod Fetched
pub mod Descriptors
use client_server_file_syste.Base.{
  ℕ, suc, ◌%◌, ◌-◌, ◌^◌, Bool, true, false, ◌&&◌, ◌||◌, not, Option, none, some, List, [], ◌∷◌,
  ◌++◌, map, Bytes, text, to_string, find_last_of, prefix_to, drop, ltb, ◌==◌, if◌then◌else◌,
}
use client_server_file_syste.Base.Int.{ℤ, is_minus_one}
use client_server_file_syste.Sys.{Os, Sys, ret, err, Time, Stat, is_dir}
use client_server_file_syste.Rpc.Calls.{Stub, rpc_getattr}
use client_server_file_syste.Rpc.Transfer.{Streams, rpc_get_file}

pub record Cache : Type 0 where
  pub cached_root : Bytes
  -- `tempFdToPathMap`
  pub temp_files : List (ℕ × Bytes)
  -- What the calls of `rand()` to come give that name a temporary path by the descriptor -1; the
  -- calls of other places, and one whose name is not used, are not among them.
  pub draws : ℕ → ℕ

-- The `int` that is the key of the map, by its bit pattern, and the key -1.
abbrev pub key_of : ℕ → ℕ
key_of fh = fh % 2 ^ 32

abbrev pub no_key : ℕ
no_key = 2 ^ 32 - 1

abbrev pub lookup_fd : ℕ → List (ℕ × Bytes) → Option Bytes
lookup_fd fd [] = none
lookup_fd fd ((k, path) ∷ rest) = if fd == k then some path else lookup_fd fd rest

abbrev pub erase_fd : ℕ → List (ℕ × Bytes) → List (ℕ × Bytes)
erase_fd fd [] = []
erase_fd fd ((k, path) ∷ rest) =
    let others = erase_fd fd rest in if fd == k then others else (k, path) ∷ others

-- `setTimeFileNameWithFd`, `isTempFile`, `clearTempFile`
unfoldable pub set_temp_file : ℕ → Bytes → Cache → Cache
set_temp_file fd path c = record c {
  temp_files = (key_of fd, path) ∷ erase_fd (key_of fd) c.temp_files;
}

unfoldable pub is_temp_file : ℕ → Cache → Bool
is_temp_file fd c = elim (lookup_fd (key_of fd) c.temp_files) [ none ↦ false | some _ ↦ true ]

unfoldable pub clear_temp_file : ℕ → Cache → Cache
clear_temp_file fd c = record c { temp_files = erase_fd (key_of fd) c.temp_files }

-- `getCachedPath(path)`
abbrev pub cached_path : Cache → Bytes → Bytes
cached_path c path = c.cached_root ++ path

-- `getCachedPath(path, true)`, by `rand()`, and `getCachedPath(path, true, fd)`.
unfoldable pub new_temp_path : Cache → Bytes → ℕ → Bytes
new_temp_path c path rand = (c.cached_root ++ path) ++ (text ".temp." ++ to_string (rand % 10000))

-- The latter is called with the path "" where its name is used. The descriptor -1 is given a new
-- name, also if the map has it as a key.
unfoldable pub temp_path : Cache → ℕ → Bytes
unfolding new_temp_path
temp_path c fd =
    if key_of fd == no_key
    then new_temp_path c [] (c.draws 0)
    else elim (lookup_fd (key_of fd) c.temp_files) [ none ↦ [] | some path ↦ path ]

-- `createRecoveryPath` of the descriptor -1 takes a number.
abbrev pub after_draws : ℕ → (ℕ → ℕ) → ℕ → ℕ
after_draws fd draws = if key_of fd == no_key then (λ n. draws (suc n)) else draws

-- The test of `correctStaleness`: the first time is before the second.
abbrev pub older : Time → Time → Bool
older a b = ltb a.sec b.sec || ((a.sec == b.sec) && ltb a.nsec b.nsec)

-- What stands before each '/' of a path, the first one left out.
abbrev pub slash_prefixes : Bytes → List Bytes
slash_prefixes [] = []
slash_prefixes (x ∷ s) =
    let more = map (◌∷◌ x) (slash_prefixes s) in if x == b'/' then [] ∷ more else more

module _ (os : Os) where
  -- `makeCacheFolder`
  unfoldable pub make_cache_folder : Cache → os.Disk → os.Disk
  make_cache_folder c d = elim (os.stat d c.cached_root) [
    | ret _ ↦ d
    | err _ ↦ (os.mkdir d c.cached_root 511).1
  ]

  -- The loop of `mirrorDirectoryStructure`; 0777 is 511.
  pub make_folders : Cache → List Bytes → os.Disk → os.Disk
  make_folders c [] d = d
  make_folders c (p ∷ ps) d = make_folders c ps (elim (os.stat d (c.cached_root ++ p)) [
    | ret _ ↦ d
    | err _ ↦ (os.mkdir d (c.cached_root ++ p) 511).1
  ])

  -- The first test looks at the directory outside the cache folder.
  unfoldable pub mirror_directory_structure : Cache → Bytes → os.Disk → os.Disk
  unfolding make_folders
  mirror_directory_structure c path d = elim (os.stat d (prefix_to (find_last_of b'/' path) path)) [
    | ret _ ↦ d
    | err _ ↦ make_folders c (drop 1 (slash_prefixes path)) d
  ]

module _ (os : Os) {S W : Type 0} (stub : Stub S) (streams : Streams S W) (rands : ℕ → ℕ) where
  -- `rands` gives `rand()` of the rounds of `rpc_getFile`, whose result is not looked at.
  unfoldable pub fetch_file : Cache → Bytes → S → os.Disk → S × os.Disk
  fetch_file c path s d =
      let (_, s₁, d₁) = rpc_get_file os streams rands c.cached_root path s d in
      let ((res, remote), s₂) = rpc_getattr stub path s₁ in
      if is_minus_one res
      then (s₂, d₁)
      else (s₂, (os.utimensat d₁ (cached_path c path) remote.atim remote.mtim).1)

  unfoldable pub correct_staleness : Cache → Bytes → Stat → S → os.Disk → S × os.Disk
  unfolding fetch_file
  correct_staleness c path buffer s d =
      let ((res, remote), s') = rpc_getattr stub path s in
      if is_minus_one res
      then (s', d)
      else if older buffer.mtim remote.mtim
      then fetch_file c path s' d
      else (s', d)

  unfoldable pub is_cached : Cache → Bytes → S → os.Disk → Bool × S × os.Disk
  unfolding correct_staleness
  is_cached c path s d = elim (os.lstat d (cached_path c path)) [
    | err _ ↦ (false, s, d)
    | ret buffer ↦
        if is_dir buffer.mode
        then (true, s, d)
        else (let (s', d') = correct_staleness c path buffer s d in (true, s', d'))
  ]

  unfoldable pub cache_file : Cache → Bytes → S → os.Disk → S × os.Disk
  unfolding fetch_file
  cache_file c path s d = fetch_file c path s (mirror_directory_structure os c path d)
