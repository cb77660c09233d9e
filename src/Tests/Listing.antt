-- ===== src/Tests/Listing.antt =====
-- A directory with two entries that is listed over a link that cuts the first replies short.
use client_server_file_syste.Base.{ℕ, zero, suc, ◌≡◌, refl, [], ◌∷◌, Bytes, text, take, List, map}
use client_server_file_syste.Base.Int.{pos}
use client_server_file_syste.Sys.{Os, Entry, ret}
use client_server_file_syste.Sys.Memory.{Disk, memory}
use client_server_file_syste.Messages.{Code, deadline_exceeded, ok, other, Dirent}
use client_server_file_syste.Server.Attributes.{afsfuse_readdir}
use client_server_file_syste.Rpc.Retry.{max_num_retries, retry}
use client_server_file_syste.Rpc.Calls.{Stub, readdir_attempt, read_entries, rpc_readdir}
use client_server_file_syste.Rpc.Calls.Listed.{seen, fill, found, IsStream, IsListing}
use client_server_file_syste.Rpc.Calls.Listed.Attempts.{LastStatus, rpc_readdir-IsListing}
use client_server_file_syste.Tests.Rpc.{disk, silence, down}

abbrev two : List Entry
two =
    (record { ino = 7; name = text "a"; type = 8 })
    ∷ (record { ino = 9; name = text "b"; type = 4 })
    ∷ []

abbrev host : Os
host = record memory { read_dir = λ d p. ret two }

abbrev cut_readdir : Bytes → ℕ → Disk × ℕ → (Code × List Dirent) × (Disk × ℕ)
cut_readdir path b (d, zero) = (afsfuse_readdir host (text "/s") path d, (d, zero))
cut_readdir path b (d, suc n) =
    ((deadline_exceeded, take 1 (afsfuse_readdir host (text "/s") path d).1), (d, n))

abbrev cut : Stub (Disk × ℕ)
cut = record {
  getattr = λ m. silence;
  readdir = cut_readdir;
  open_file = λ m. silence;
  read = λ m. silence;
  write = λ m. silence;
  create = λ m. silence;
  mkdir = λ m. silence;
  rmdir = λ m. silence;
  unlink = λ m. silence;
  rename = λ m. silence;
  utimens = λ m. silence;
  mknod = λ m. silence;
}

cut-IsStream : IsStream host (text "/s") cut (λ s. s.0) (text "/d")
unfolding afsfuse_readdir
cut-IsStream = record { unchanged = kept; in_order = starts; whole = ends }
  where
    kept : (backoff : ℕ) (s : Disk × ℕ) → (cut.readdir (text "/d") backoff s).1.0 ≡ s.0
    kept backoff (d, zero) = refl
    kept backoff (d, suc n) = refl

    starts :
        (backoff : ℕ) (s : Disk × ℕ)
        → (k : ℕ) × ((cut.readdir (text "/d") backoff s).0.1
            ≡ take k (afsfuse_readdir host (text "/s") (text "/d") s.0).1)
    starts backoff (d, zero) = (2, refl)
    starts backoff (d, suc n) = (1, refl)

    ends :
        (backoff : ℕ) (s : Disk × ℕ)
        → (cut.readdir (text "/d") backoff s).0.0 ≡ ok
        → (cut.readdir (text "/d") backoff s).0.1
          ≡ (afsfuse_readdir host (text "/s") (text "/d") s.0).1
    ends backoff (d, zero) h = refl
    ends backoff (d, suc n) h = cc (h)

-- The first entry is there twice.
listed_twice :
    (rpc_readdir cut fill (text "/d") [] (disk, 1)).0
    ≡ (pos 0, map seen (record { ino = 7; name = text "a"; type = 8 } ∷ two))
unfolding rpc_readdir readdir_attempt retry read_entries afsfuse_readdir
listed_twice = refl

-- A server that goes away behind the first entry: the listing is short, and the result is 0.
gone_readdir : Bytes → ℕ → Disk → (Code × List Dirent) × Disk
gone_readdir path b d = ((other 14, take 1 (afsfuse_readdir host (text "/s") path d).1), d)

listed_short :
    (rpc_readdir (record down { readdir = gone_readdir }) fill (text "/d") [] disk).0
    ≡ (pos 0, map seen (take 1 two))
unfolding rpc_readdir readdir_attempt retry read_entries afsfuse_readdir gone_readdir
listed_short = refl

rpc_readdir-IsListing_example :
    ((rpc_readdir cut fill (text "/d") [] (disk, 1)).0.0 ≡ pos 0)
    × ((rpc_readdir cut fill (text "/d") [] (disk, 1)).1.0 ≡ disk)
    × IsListing
        (LastStatus host
          (text "/s")
          (text "/d")
          cut
          (λ s. s.0)
          cut-IsStream
          (rpc_readdir cut fill (text "/d") [] (disk, 1)).1)
        (map seen (found host (text "/s") (text "/d") disk))
        max_num_retries
        []
        (rpc_readdir cut fill (text "/d") [] (disk, 1)).0.1
rpc_readdir-IsListing_example =
    rpc_readdir-IsListing host (text "/s") (text "/d") cut (λ s. s.0) cut-IsStream [] (disk, 1)
