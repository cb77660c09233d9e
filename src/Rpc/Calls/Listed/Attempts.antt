-- ===== src/Rpc/Calls/Listed/Attempts.antt =====
-- `rpc_readdir` against the handler that its attempts reach.
use client_server_file_syste.Base.{
  ℕ, suc, ◌≡◌, refl, sym, ap, ◌∙◌, subst, drop, length, drop-append, true, false, [], ◌++◌, map,
  take, Bytes, arith,
}
use client_server_file_syste.Base.Int.{pos, neg}
use client_server_file_syste.Sys.{Os}
use client_server_file_syste.Messages.{Code, ok, deadline_exceeded}
use client_server_file_syste.Server.Attributes.{dirent}
use client_server_file_syste.Rpc.Retry.{Call, timed_out, max_num_retries, initial_backoff_ms}
use client_server_file_syste.Rpc.Retry.Rule.{retry_rule}
use client_server_file_syste.Rpc.Calls.{Stub, Listing, no_dirent, readdir_attempt, rpc_readdir}
use client_server_file_syste.Rpc.Calls.Listed.{
  Filled, seen, fill, found, IsStream, IsStart, IsListing, take-map, read_entries-fill,
  readdir-found, IsListing-late,
}

append-cancel : (xs : Filled) {ys zs : Filled} → xs ++ ys ≡ xs ++ zs → ys ≡ zs
append-cancel xs {ys} {zs} e =
    sym (drop-append xs ys) ∙ (ap (drop (length xs)) e ∙ drop-append xs zs)

module _ (os : Os) (root path : Bytes) {S : Type 0} (stub : Stub S) (disk : S → os.Disk)
    (stream : IsStream os root stub disk path) where
  abbrev entries : S → Filled
  entries s = map seen (found os root path (disk s))

  abbrev attempt : Call (S × Listing Filled) (Unit {0})
  attempt = readdir_attempt stub fill path

  -- What one attempt adds: a beginning of the listing, and all of it if it is in time.
  attempt-IsStart :
      (backoff : ℕ) (s : S) (l : Listing Filled)
      → l.last.err ≡ 0
      → ((attempt backoff (s, l)).1.1.last.err ≡ 0)
        × (part : Filled) × IsStart (entries s) part
        × ((attempt backoff (s, l)).1.1.filled ≡ l.filled ++ part)
  unfolding readdir_attempt
  attempt-IsStart backoff s l h =
      let (k, e) = stream.in_order backoff s in
      let sent : (stub.readdir path backoff s).0.1
          ≡ map dirent (take k (found os root path (disk s))) =
        e ∙ ap (take k) (readdir-found os root path (disk s)) ∙ take-map dirent k _ in
      let (none, more) = read_entries-fill (take k (found os root path (disk s))) l h in
      rw (sent) (none, _, (k, sym (take-map seen k _)), more)

  attempt-whole :
      (backoff : ℕ) (s : S) (l : Listing Filled)
      → l.last.err ≡ 0
      → (stub.readdir path backoff s).0.0 ≡ ok
      → (attempt backoff (s, l)).1.1.filled ≡ l.filled ++ entries s
  unfolding readdir_attempt
  attempt-whole backoff s l h fine =
      rw (stream.whole backoff s fine, readdir-found os root path (disk s))
        (read_entries-fill (found os root path (disk s)) l h).1

  attempt-code :
      (backoff : ℕ) (s : S) (l : Listing Filled)
      → (attempt backoff (s, l)).0.0 ≡ (stub.readdir path backoff s).0.0
  unfolding readdir_attempt
  attempt-code backoff s l = refl

  attempt-state :
      (backoff : ℕ) (s : S) (l : Listing Filled)
      → (attempt backoff (s, l)).1.0 ≡ (stub.readdir path backoff s).1
  unfolding readdir_attempt
  attempt-state backoff s l = refl

  -- The attempt that left the state ended with the status.
  abbrev pub LastStatus : S → Code → Type 0
  LastStatus t code =
      (backoff : ℕ) × (s : S) × ((stub.readdir path backoff s).0.0 ≡ code)
      × (t ≡ (stub.readdir path backoff s).1)

  -- One attempt that is the last, by what has been filled in.
  attempt-IsListing :
      (left backoff : ℕ) (s : S) (l : Listing Filled)
      → l.last.err ≡ 0
      → ((stub.readdir path backoff s).0.0 ≡ deadline_exceeded → 0 ≡ left)
      → IsListing
          (LastStatus (attempt backoff (s, l)).1.0)
          (entries s)
          left
          l.filled
          (attempt backoff (s, l)).1.1.filled
  attempt-IsListing left backoff s l h ends =
      let (_, part, start, more) = attempt-IsStart backoff s l h in
      record {
        code = (stub.readdir path backoff s).0.0;
        status = (backoff, s, refl, attempt-state backoff s l);
        early = [];
        last = part;
        few = omega arith;
        starts = tt;
        begins = start;
        whole = λ fine. append-cancel l.filled (sym more ∙ attempt-whole backoff s l h fine);
        given_up = ends;
        filled = more;
      }

  abbrev Through : ℕ → S × Listing Filled → S × Listing Filled → Type 0
  Through left (s, l) (t, m) =
      l.last.err ≡ 0
      → (disk t ≡ disk s)
        × (m.last.err ≡ 0)
        × IsListing (LastStatus t) (entries s) left l.filled m.filled

  attempt-unchanged :
      (backoff : ℕ) (x : S × Listing Filled) → disk (attempt backoff x).1.0 ≡ disk x.0
  unfolding readdir_attempt
  attempt-unchanged backoff (s, l) = stream.unchanged backoff s

  last-Through : (backoff : ℕ) (x : S × Listing Filled) → Through 0 x (attempt backoff x).1
  last-Through backoff (s, l) h = (
    attempt-unchanged backoff (s, l),
    (attempt-IsStart backoff s l h).0,
    attempt-IsListing 0 backoff s l h (λ e. refl),
  )

  done-Through :
      (left backoff : ℕ) (x : S × Listing Filled)
      → timed_out (attempt backoff x).0.0 ≡ false
      → Through (suc left) x (attempt backoff x).1
  done-Through left backoff (s, l) in_time h = (
    attempt-unchanged backoff (s, l),
    (attempt-IsStart backoff s l h).0,
    attempt-IsListing (suc left) backoff s l h
        (λ e. absurd (cc (in_time, ap timed_out (attempt-code backoff s l ∙ e)))),
  )

  more-Through :
      (left backoff : ℕ) (x y : S × Listing Filled)
      → timed_out (attempt backoff x).0.0 ≡ true
      → Through left (attempt backoff x).1 y
      → Through (suc left) x y
  more-Through left backoff (s, l) y late through h =
      let (none, part, start, more) = attempt-IsStart backoff s l h in
      let same = attempt-unchanged backoff (s, l) in
      let (kept, good, listing) = through none in
      let now : IsListing (LastStatus y.0) (entries s) left (attempt backoff (s, l)).1.1.filled
          y.1.filled =
        subst
          (λ d.
            IsListing (LastStatus y.0) (map seen (found os root path d)) left
              (attempt backoff (s, l)).1.1.filled y.1.filled)
          same listing in
      (kept ∙ same, good, IsListing-late start more now)

  -- The 12 attempts that `rpc_readdir` may repeat, through to its result, for a stream that is a
  -- beginning of what the server's handler writes, all of it if the status is OK, and a filler
  -- that is never full. The result is 0, whatever the statuses are. What is filled in behind
  -- `buf` are at most 12 beginnings of the directory's listing, and then what the last attempt
  -- brought: all of the listing if its status was OK, and a beginning of it if it had another
  -- status; if that was DEADLINE_EXCEEDED, 12 attempts stand before it. The names are cut at
  -- their first zero byte; the disk is not changed. A directory that cannot be opened is an empty
  -- listing.
  pub rpc_readdir-IsListing :
      (buf : Filled) (s : S)
      → ((rpc_readdir stub fill path buf s).0.0 ≡ pos 0)
        × (disk (rpc_readdir stub fill path buf s).1 ≡ disk s)
        × IsListing
            (LastStatus (rpc_readdir stub fill path buf s).1)
            (map seen (found os root path (disk s)))
            max_num_retries
            buf
            (rpc_readdir stub fill path buf s).0.1
  unfolding rpc_readdir
  rpc_readdir-IsListing buf s =
      let (kept, none, listing) =
        retry_rule attempt Through last-Through done-Through more-Through max_num_retries
          initial_backoff_ms tt (s, record { last = no_dirent; filled = buf }) refl in
      (ap neg none, kept, listing)
