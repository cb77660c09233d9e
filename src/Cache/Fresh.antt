-- ===== src/Cache/Fresh.antt =====
-- When a kept file is fetched again.
use client_server_file_syste.Base.{ℕ, ◌≡◌, refl, ap, ◌∙◌, true, false, Bytes, arith}
use client_server_file_syste.Base.Int.{pos}
use client_server_file_syste.Sys.{Os, ret, Time, Stat}
use client_server_file_syste.Rpc.Calls.{Stub, rpc_getattr}
use client_server_file_syste.Rpc.Transfer.{Streams, rpc_get_file}
use client_server_file_syste.Cache.{
  Cache, cached_path, older, fetch_file, correct_staleness, is_cached,
}

older_irrefl : (t : Time) → older t t ≡ false
older_irrefl t = ground arith

-- `utimensat` sets the time that `lstat` reports.
abbrev pub SetsTimes : Os → Type 0
SetsTimes os =
    (d : os.Disk) (p : Bytes) (atim mtim : Time) (d' : os.Disk) (st : Stat)
    → os.utimensat d p atim mtim ≡ (ret tt, d')
    → os.lstat d' p ≡ ret st
    → st.mtim ≡ mtim

module _ (os : Os) {S W : Type 0} (stub : Stub S) (streams : Streams S W) (rands : ℕ → ℕ)
    (c : Cache) where
  -- The attributes that the server answers with, whenever it is asked.
  abbrev pub Answers : Bytes → Stat → Type 0
  Answers path st = (s : S) → (rpc_getattr stub path s).0 ≡ (pos 0, st)

  fetch_file-disk :
      (path : Bytes) (remote : Stat) (s : S) (d : os.Disk)
      → Answers path remote
      → (fetch_file os stub streams rands c path s d).1
        ≡ (os.utimensat
            (rpc_get_file os streams rands c.cached_root path s d).2
            (cached_path c path)
            remote.atim
            remote.mtim).1
  unfolding fetch_file
  fetch_file-disk path remote s d h =
      rw (h (rpc_get_file os streams rands c.cached_root path s d).1) refl

  correct_staleness-kept :
      (path : Bytes) (remote buffer : Stat) (s : S) (d : os.Disk)
      → Answers path remote
      → older buffer.mtim remote.mtim ≡ false
      → (correct_staleness os stub streams rands c path buffer s d).1 ≡ d
  unfolding correct_staleness
  correct_staleness-kept path remote buffer s d h o = rw (h s, o) refl

  is_cached-kept :
      (path : Bytes) (remote buffer : Stat) (s : S) (d : os.Disk)
      → Answers path remote
      → os.lstat d (cached_path c path) ≡ ret buffer
      → older buffer.mtim remote.mtim ≡ false
      → ((is_cached os stub streams rands c path s d).0 ≡ true)
        × ((is_cached os stub streams rands c path s d).2 ≡ d)
  unfolding is_cached
  is_cached-kept path remote buffer s d h l o =
      ground (arith, l, correct_staleness-kept path remote buffer s d h o)

  -- While the server's attributes of a file stay as they are, and the client can set times,
  -- a file that was just fetched is found in the cache and is not fetched again.
  pub fetched_once :
      (path : Bytes) (remote buffer : Stat) (s t : S) (d d' : os.Disk)
      → SetsTimes os
      → Answers path remote
      → os.utimensat
          (rpc_get_file os streams rands c.cached_root path s d).2
          (cached_path c path)
          remote.atim
          remote.mtim
        ≡ (ret tt, d')
      → os.lstat d' (cached_path c path) ≡ ret buffer
      → let fetched = (fetch_file os stub streams rands c path s d).1 in
        ((is_cached os stub streams rands c path t fetched).0 ≡ true)
        × ((is_cached os stub streams rands c path t fetched).2 ≡ fetched)
  fetched_once path remote buffer s t d d' law h u l =
      let now : (fetch_file os stub streams rands c path s d).1 ≡ d' =
        fetch_file-disk path remote s d h ∙ ap (λ x. x.1) u in
      let m = law _ (cached_path c path) remote.atim remote.mtim d' buffer u l in
      rw now (is_cached-kept path remote buffer t d' h l (rw m (older_irrefl remote.mtim)))
