-- ===== src/Rpc/Transfer/Get/Loop.antt =====
-- All rounds of `rpc_getFile`.
use client_server_file_syste.Base.{
  ℕ, zero, suc, ◌%◌, ◌≤◌, ◌<◌, ◌≡◌, refl, sym, ap, ◌∙◌, ◌≢◌, ◌⊎◌, inl, inr, Bool, true, false,
  Option, none, some, List, ◌++◌, Bytes, text, length, drop, drop-append, arith, if◌then◌else◌,
}
use client_server_file_syste.Base.Int.{ℤ, pos}
use client_server_file_syste.Base.Number.{number, to_string_injective}
use client_server_file_syste.Sys.{Os}
use client_server_file_syste.Sys.Laws.{View, IsStore, content, Delivered}
use client_server_file_syste.Messages.{ok, FileContent}
use client_server_file_syste.Server.Upload.Laws.{received}
use client_server_file_syste.Rpc.Transfer.{
  Streams, Round, temp_name, get_attempt, get_loop, rpc_get_file,
}
use client_server_file_syste.Rpc.Transfer.Get.{
  NeedsSource, RoundDone, round_setting, get_attempt-RoundDone, temp_name-ne,
}

-- ".txt" behind a number is not read with it.
number-txt : (k : ℕ) → number k (text ".txt") ≡ k
unfolding number
number-txt k = refl

module _ (os : Os) {S W : Type 0} (streams : Streams S W) where
  temp_name_injective :
      (filename : Bytes) (a b : ℕ)
      → temp_name os streams filename a ≡ temp_name os streams filename b
      → a % 1000 ≡ b % 1000
  temp_name_injective filename a b e =
      to_string_injective (a % 1000) (b % 1000) (text ".txt") (omega arith) (omega arith) number-txt
        (ap (drop 1)
          (sym (drop-append filename _) ∙ (ap (drop (length filename)) e ∙ drop-append filename _)))

  -- No two of the first rounds draw the same name.
  abbrev pub Distinct : ℕ → (ℕ → ℕ) → Type 0
  Distinct last rands = (j k : ℕ) → j < k → k ≤ last → rands j % 1000 ≢ rands k % 1000

module _ (os : Os) (v : View os) (laws : IsStore os v) (needs : NeedsSource os v) {S W : Type 0}
    (streams : Streams S W) (rands : ℕ → ℕ) (root path : Bytes) where
  abbrev temp : ℕ → Bytes
  temp k = temp_name os streams (root ++ path) (rands k)

  -- The messages of one fetch, whose status was OK.
  abbrev pub Fetched : os.Disk → Type 0
  Fetched d =
      (s : S) × (parts : List FileContent) × ((streams.fetch path s).0 ≡ (parts, ok))
      × Delivered v (root ++ path) (received parts) d

  pub record Downloaded (last : ℕ) (d : os.Disk) (r : ℤ × S × os.Disk) : Type 0 where
    pub whole :
        (content v r.2 (root ++ path) ≡ content v d (root ++ path)) ⊎ ((r.0 ≡ pos 1) × Fetched r.2)
    pub others :
        (q : Bytes)
        → q ≢ root ++ path
        → ((k : ℕ) → k ≤ last → q ≢ temp k)
        → content v r.2 q ≡ content v d q

  -- What is known of the k-th round.
  abbrev RoundOk : ℕ → S → os.Disk → Round os streams → Type 0
  RoundOk k s d (res, s', d') =
      RoundDone (round_setting os v laws needs streams (root ++ path) (rands k) d) (root ++ path)
        streams (received (streams.fetch path s).0.0) (streams.fetch path s).0.1 (res, d')

  finished-Downloaded :
      (k last : ℕ) (done : Bool) (s s' : S) (d d' : os.Disk)
      → k ≤ last
      → RoundOk k s d (some done, s', d')
      → Downloaded last d (if done then pos 1 else pos 0, s', d')
  finished-Downloaded k last true s s' d d' l o = record {
    whole = elim o.whole [
      | inl same ↦ inl same
      | inr (code, _, bytes) ↦ inr (
        refl,
        (s, (streams.fetch path s).0.0, ap (λ c. ((streams.fetch path s).0.0, c)) code, bytes),
      )
    ];
    others = λ q nf nt. o.others q (nt k l) nf;
  }
  finished-Downloaded k last false s s' d d' l o = record {
    whole = elim o.whole [ inl same ↦ inl same | inr (code, bad, bytes) ↦ absurd cc ];
    others = λ q nf nt. o.others q (nt k l) nf;
  }

  -- A round that is made again has left the file as it was.
  again-same :
      (k : ℕ) (s s' : S) (d d' : os.Disk)
      → RoundOk k s d (none, s', d')
      → content v d' (root ++ path) ≡ content v d (root ++ path)
  again-same k s s' d d' o = elim o.whole [ inl same ↦ same | inr (code, bad, bytes) ↦ absurd cc ]

  again-free :
      (k j : ℕ) (s s' : S) (d d' : os.Disk)
      → rands j % 1000 ≢ rands k % 1000
      → RoundOk k s d (none, s', d')
      → v.node d (temp j) ≡ none
      → v.node d' (temp j) ≡ none
  again-free k j s s' d d' apart o free =
      let same : content v d' (temp j) ≡ content v d (temp j) =
        o.others (temp j)
          (λ e. apart (temp_name_injective os streams (root ++ path) (rands j) (rands k) e))
          (temp_name-ne (root ++ path) (rands j)) in
      node_none d' (temp j) (same ∙ content_none d (temp j) free)
    where
      node_none : (d : os.Disk) (p : Bytes) → content v d p ≡ none → v.node d p ≡ none
      node_none d p e = go (v.node d p) refl
        where
          go : (n : Option ℕ) → v.node d p ≡ n → v.node d p ≡ none
          go none h = h
          go (some i) h = absurd (ground (arith, h, e))

      content_none : (d : os.Disk) (p : Bytes) → v.node d p ≡ none → content v d p ≡ none
      content_none d p e = ground (arith, e)

  last_round-Downloaded :
      (s : S) (d : os.Disk) (r : Round os streams)
      → RoundOk 0 s d r
      → Downloaded 0 d
          (elim r.0 [ none ↦ pos 0 | some done ↦ if done then pos 1 else pos 0 ], r.1, r.2)
  last_round-Downloaded s d (some done, s', d') o =
      finished-Downloaded 0 0 done s s' d d' (omega arith) o
  last_round-Downloaded s d (none, s', d') o = record {
    whole = inl (again-same 0 s s' d d' o);
    others = λ q nf nt. o.others q (nt 0 (omega arith)) nf;
  }

  round-Downloaded :
      (left : ℕ) (s : S) (d : os.Disk) (next : S → os.Disk → ℤ × S × os.Disk) (r : Round os streams)
      → Distinct os streams (suc left) rands
      → ((k : ℕ) → k ≤ suc left → v.node d (temp k) ≡ none)
      → ((s' : S) (d' : os.Disk)
          → ((k : ℕ) → k ≤ left → v.node d' (temp k) ≡ none)
          → Downloaded left d' (next s' d'))
      → RoundOk (suc left) s d r
      → Downloaded
          (suc left)
          d
          (elim r.0 [ some done ↦ (if done then pos 1 else pos 0, r.1, r.2) | none ↦ next r.1 r.2 ])
  round-Downloaded left s d next (some done, s', d') apart free rest o =
      finished-Downloaded (suc left) (suc left) done s s' d d' (omega arith) o
  round-Downloaded left s d next (none, s', d') apart free rest o =
      let more = rest s' d' (λ k l.
        again-free (suc left) k s s' d d' (apart k (suc left) (omega (arith, l)) (omega arith)) o
          (free k (omega (arith, l)))) in
      record {
        whole = elim more.whole [
          | inl same ↦ inl (same ∙ again-same (suc left) s s' d d' o)
          | inr new ↦ inr new
        ];
        others = λ q nf nt.
            more.others q nf (λ k l. nt k (omega (arith, l)))
            ∙ o.others q (nt (suc left) (omega arith)) nf;
      }

  get_loop-Downloaded :
      (left : ℕ) (s : S) (d : os.Disk)
      → Distinct os streams left rands
      → ((k : ℕ) → k ≤ left → v.node d (temp k) ≡ none)
      → Downloaded left d (get_loop os streams left rands root path s d)
  unfolding get_loop
  get_loop-Downloaded zero s d apart free =
      last_round-Downloaded s d (get_attempt os streams 0 (rands 0) root path s d) (
        get_attempt-RoundDone os v laws needs streams 0 (rands 0) root path s d
          (free 0 (omega arith)))
  get_loop-Downloaded (suc left) s d apart free =
      round-Downloaded left s d (get_loop os streams left rands root path)
        (get_attempt os streams (suc left) (rands (suc left)) root path s d) apart free
        (λ s' d' free'.
          get_loop-Downloaded left s' d' (λ j k l m. apart j k l (omega (arith, m))) free')
        (get_attempt-RoundDone os v laws needs streams (suc left) (rands (suc left)) root path s d
          (free (suc left) (omega arith)))

  -- On a system that renames no file that is not there, and while the rounds draw different
  -- temporary names that no file has: `rpc_getFile` either leaves the file in the cache as it
  -- was, or gives true and the file holds all the messages of one fetch whose status was OK, in
  -- order, but for an end that was lost when the stream was closed that held it. Every other path
  -- but the temporary ones shows what it showed before.
  pub get_file_Downloaded :
      (s : S) (d : os.Disk)
      → Distinct os streams 11 rands
      → ((k : ℕ) → k ≤ 11 → v.node d (temp_name os streams (root ++ path) (rands k)) ≡ none)
      → Downloaded 11 d (rpc_get_file os streams rands root path s d)
  unfolding rpc_get_file
  get_file_Downloaded s d apart free = get_loop-Downloaded 11 s d apart free
