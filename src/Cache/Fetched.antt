-- ===== src/Cache/Fetched.antt =====
-- What `fetchFile` leaves in the cache.
use client_server_file_syste.Base.{
  ℕ, ◌≤◌, ◌≡◌, ◌≢◌, refl, ◌∙◌, ◌⊎◌, inl, inr, none, Bytes, if_either,
}
use client_server_file_syste.Base.Int.{is_minus_one}
use client_server_file_syste.Sys.{Os, Time}
use client_server_file_syste.Sys.Laws.{View, IsStore, content, Same, Delivered}
use client_server_file_syste.Sys.Contents.{content-Same}
use client_server_file_syste.Rpc.Calls.{Stub, rpc_getattr}
use client_server_file_syste.Rpc.Transfer.{Streams, temp_name, rpc_get_file}
use client_server_file_syste.Rpc.Transfer.Get.{NeedsSource}
use client_server_file_syste.Rpc.Transfer.Get.Loop.{Distinct, get_file_Downloaded}
use client_server_file_syste.Rpc.Transfer.Get.Served.{IsDownload, MapsWhole, Served, fetch-Served}
use client_server_file_syste.Cache.{Cache, cached_path, fetch_file}

-- Setting the times of a file changes neither its name nor its bytes.
abbrev pub KeepsFiles : (os : Os) → View os → Type 0
KeepsFiles os v =
    (d : os.Disk) (p : Bytes) (atim mtim : Time) → Same v d (os.utimensat d p atim mtim).1

module _ (os : Os) (v : View os) (laws : IsStore os v) (needs : NeedsSource os v)
    (keeps : KeepsFiles os v) {S W : Type 0} (stub : Stub S) (streams : Streams S W) (host : Os)
    (root : Bytes) (server : S → host.Disk) (down : IsDownload streams host root server)
    (maps : MapsWhole host root) (rands : ℕ → ℕ) (c : Cache) where
  fetch_file-content :
      (path q : Bytes) (s : S) (d : os.Disk)
      → content v (fetch_file os stub streams rands c path s d).1 q
        ≡ content v (rpc_get_file os streams rands c.cached_root path s d).2 q
  unfolding fetch_file
  fetch_file-content path q s d =
      let (_, s₁, d₁) = rpc_get_file os streams rands c.cached_root path s d in
      let ((res, remote), s₂) = rpc_getattr stub path s₁ in
      if_either (λ (x : S × os.Disk). content v x.1 q ≡ content v d₁ q) (is_minus_one res) refl
        (content-Same v d₁ _ q (keeps d₁ (cached_path c path) remote.atim remote.mtim))

  -- On a client that renames no file that is not there and keeps files when it sets times, and
  -- from a server that maps the files that it opens whole: while the rounds draw different
  -- temporary names that no file has, `fetchFile` leaves the file in the cache as it was, or the
  -- file is that of the server, as it was when one of the rounds asked for it, but for an end
  -- that was lost when the stream was closed that held it. Every other path but the temporary
  -- ones shows what it showed before.
  pub fetch_file-Served :
      (path : Bytes) (s : S) (d : os.Disk)
      → Distinct os streams 11 rands
      → ((k : ℕ) → k ≤ 11 → v.node d (temp_name os streams (cached_path c path) (rands k)) ≡ none)
      → let d' = (fetch_file os stub streams rands c path s d).1 in
        ((content v d' (cached_path c path) ≡ content v d (cached_path c path))
          ⊎ ((s' : S) × (bytes : Bytes) × (d₁ : os.Disk) × Delivered v (cached_path c path) bytes d₁
              × (content v d' (cached_path c path) ≡ content v d₁ (cached_path c path))
              × Served host root path (server s') bytes))
        × ((q : Bytes)
            → q ≢ cached_path c path
            → ((k : ℕ) → k ≤ 11 → q ≢ temp_name os streams (cached_path c path) (rands k))
            → content v d' q ≡ content v d q)
  fetch_file-Served path s d apart free =
      let o = get_file_Downloaded os v laws needs streams rands c.cached_root path s d apart free in
      let now = fetch_file-content path (cached_path c path) s d in
      (
        elim o.whole [
          | inl same ↦ inl (now ∙ same)
          | inr (_, (s', parts, e, bytes)) ↦ inr (
            s',
            _,
            _,
            bytes,
            now,
            fetch-Served streams host root server down maps path s' parts e,
          )
        ],
        λ q nf nt. fetch_file-content path q s d ∙ o.others q nf nt,
      )
