-- ===== src/Rpc/Calls/Listed.antt =====
-- A directory as the server's handler finds it, and as `rpc_readdir` fills it in.
pub mod Attempts
use client_server_file_syste.Base.{
  ℕ, zero, suc, ◌+◌, ◌*◌, ◌%◌, ◌≤◌, ◌≡◌, refl, sym, ap, ◌∙◌, subst, ◌⊎◌, inl, inr, Bool, true,
  false, List, [], ◌∷◌, ◌++◌, map, flatten, length, take, All, append_assoc, append-nil, Bytes,
  c_string, arith, Bool-cases,
}
use client_server_file_syste.Base.Int.{ℤ, pos, neg}
use client_server_file_syste.Sys.{Os, Sys, ret, err, Entry, Stat, zero_stat}
use client_server_file_syste.Messages.{Code, ok, deadline_exceeded, u32, Dirent}
use client_server_file_syste.Server.Paths.{server_path}
use client_server_file_syste.Server.Attributes.{dirent, afsfuse_readdir}
use client_server_file_syste.Rpc.Retry.{Call, timed_out, max_num_retries, initial_backoff_ms}
use client_server_file_syste.Rpc.Retry.Rule.{retry_rule}
use client_server_file_syste.Rpc.Calls.{
  Stub, Listing, no_dirent, read_entries, readdir_attempt, rpc_readdir,
}

-- What FUSE is given for an entry.
abbrev pub Filled : Type 0
Filled = List (Bytes × Stat)

abbrev pub seen : Entry → Bytes × Stat
seen e = (c_string e.name, record zero_stat { ino = u32 e.ino; mode = e.type % 256 * 4096 })

-- A filler whose buffer is never full.
abbrev pub fill : Bytes → Stat → Filled → Bool × Filled
fill name st buf = (false, buf ++ ((name, st) ∷ []))

-- What the server finds in a directory; one that it cannot open is empty.
abbrev pub found : (os : Os) → Bytes → Bytes → os.Disk → List Entry
found os root path d = elim (os.read_dir d (server_path root path)) [ err _ ↦ [] | ret es ↦ es ]

-- What grpc promises of a stream of replies: they come in order, and all of them if the status is
-- OK. Behind any other status some may be missing at the end.
pub record IsStream (os : Os) (root : Bytes) {S : Type 0} (stub : Stub S) (disk : S → os.Disk)
    (path : Bytes) : Type 0 where
  pub unchanged : (backoff : ℕ) (s : S) → disk (stub.readdir path backoff s).1 ≡ disk s
  pub in_order :
      (backoff : ℕ) (s : S)
      → (k : ℕ) × ((stub.readdir path backoff s).0.1
          ≡ take k (afsfuse_readdir os root path (disk s)).1)
  pub whole :
      (backoff : ℕ) (s : S)
      → (stub.readdir path backoff s).0.0 ≡ ok
      → (stub.readdir path backoff s).0.1 ≡ (afsfuse_readdir os root path (disk s)).1

pub take-map {ℓ κ} :
    {A : Type ℓ} {B : Type κ} (f : A → B) (n : ℕ) (xs : List A)
    → take n (map f xs) ≡ map f (take n xs)
take-map f zero xs = refl
take-map f (suc n) [] = refl
take-map f (suc n) (x ∷ xs) = ap (◌∷◌ (f x)) (take-map f n xs)

-- The entries are filled in behind one another; none of the messages has an error.
pub read_entries-fill :
    (es : List Entry) (l : Listing Filled)
    → l.last.err ≡ 0
    → ((read_entries fill (map dirent es) l).last.err ≡ 0)
      × ((read_entries fill (map dirent es) l).filled ≡ l.filled ++ map seen es)
unfolding read_entries
read_entries-fill [] l h = (h, sym (append-nil l.filled))
read_entries-fill (e ∷ es) l h =
    let (none, more) =
      read_entries-fill es (record { last = dirent e; filled = l.filled ++ (seen e ∷ []) }) refl in
    (none, more ∙ append_assoc l.filled (seen e ∷ []) (map seen es))

module _ (os : Os) (root path : Bytes) where
  pub readdir-found :
      (d : os.Disk) → (afsfuse_readdir os root path d).1 ≡ map dirent (found os root path d)
  unfolding afsfuse_readdir
  readdir-found d = ground arith

abbrev pub IsStart : Filled → Filled → Type 0
IsStart entries part = (k : ℕ) × (part ≡ take k entries)

-- What `left` attempts that may be too late and one more have filled in. `Status` says that the
-- last attempt ended with a status.
pub record IsListing (Status : Code → Type 0) (entries : Filled) (left : ℕ) (before after : Filled)
    : Type 0 where
  pub code : Code
  pub status : Status code
  pub early : List Filled
  pub last : Filled
  pub few : length early ≤ left
  pub starts : All (IsStart entries) early
  pub begins : IsStart entries last
  pub whole : code ≡ ok → last ≡ entries
  pub given_up : code ≡ deadline_exceeded → length early ≡ left
  pub filled : after ≡ before ++ (flatten early ++ last)

pub IsListing-late :
    {Status : Code → Type 0} {entries part before middle after : Filled} {left : ℕ}
    → IsStart entries part
    → middle ≡ before ++ part
    → IsListing Status entries left middle after
    → IsListing Status entries (suc left) before after
IsListing-late {part = part} {before = before} {after = after} start more listing = record {
  code = listing.code;
  status = listing.status;
  early = part ∷ listing.early;
  last = listing.last;
  few = omega (arith, listing.few);
  starts = (start, listing.starts);
  begins = listing.begins;
  whole = listing.whole;
  given_up = λ c. ap suc (listing.given_up c);
  filled =
      subst (λ x. after ≡ x ++ (flatten listing.early ++ listing.last)) more listing.filled
      ∙ simp (append_assoc);
}
