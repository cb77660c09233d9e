-- ===== src/Client/Saved.antt =====
-- What a program has written survives `client_release`, wherever the client is stopped.
use client_server_file_syste.Base.{
  if_either, if_true, ℕ, ◌≡◌, ◌≢◌, ◌⊎◌, inl, inr, refl, sym, ap, ◌∙◌, Bool, true, false, some, [],
  Bytes, text, arith, length, length-append, ltb, ◌==◌,
}
use client_server_file_syste.Base.Int.{ℤ}
use client_server_file_syste.Sys.{Os, Sys, ret, err, Exit}
use client_server_file_syste.Sys.Laws.{View, IsStore, content, Same}
use client_server_file_syste.Sys.Contents.{content-Same, Renamed-to, Renamed-other}
use client_server_file_syste.Stream.Reader.{o_rdonly}
use client_server_file_syste.Rpc.Calls.{Stub}
use client_server_file_syste.Rpc.Transfer.{Streams}
use client_server_file_syste.Rpc.Transfer.Disk.{put_file-keeps}
use client_server_file_syste.Cache.{cached_path, temp_path, is_temp_file}
use client_server_file_syste.Client.{
  World, base_name, recovery_of, parallel_close_file_size_thresh, get_file_size, after_close,
  is_file_modified, close_on_server, create_recovery_path, keep_recovery, release_small,
  release_large, send_released, close_released, client_release,
}

-- Calls that change nothing that a reader of a path sees.
pub record IsQuiet (os : Os) (v : View os) : Type 0 where
  pub fdatasync : (d : os.Disk) (fd : ℕ) → Same v d (os.fdatasync d fd).1
  pub close : (d : os.Disk) (fd : ℕ) → Same v d (os.close d fd).1
  pub open_rdonly : (d : os.Disk) (p : Bytes) → Same v d (os.open_file d p o_rdonly 0).1

create_recovery_path-cache :
    (os : Os) {S W : Type 0} (stub : Stub S) (streams : Streams S W) (path : Bytes) (fd : ℕ)
    (w : World S os.Disk)
    → cached_path (create_recovery_path os stub streams fd w).cache path ≡ cached_path w.cache path
unfolding create_recovery_path
create_recovery_path-cache os stub streams path fd w = refl

module _ (os : Os) (v : View os) (laws : IsStore os v) (quiet : IsQuiet os v) where
  module _ (temp recovery cached b : Bytes) (differ : temp ≢ recovery) (apart : temp ≢ cached) where
    abbrev Temp : os.Disk → Type 0
    Temp d = content v d temp ≡ some b

    abbrev Kept : os.Disk → Type 0
    Kept d = (content v d temp ≡ some b) ⊎ (content v d recovery ≡ some b)

    abbrev Saved : os.Disk → Type 0
    Saved d =
        (content v d temp ≡ some b)
        ⊎ ((content v d recovery ≡ some b) ⊎ (content v d cached ≡ some b))

    Temp-Same : (d d' : os.Disk) → Same v d d' → Temp d → Temp d'
    Temp-Same d d' s h = content-Same v d d' temp s ∙ h

    Kept-Same : (d d' : os.Disk) → Same v d d' → Kept d → Kept d'
    Kept-Same d d' s (inl h) = inl (content-Same v d d' temp s ∙ h)
    Kept-Same d d' s (inr h) = inr (content-Same v d d' recovery s ∙ h)

    Kept-Saved : (d : os.Disk) → Kept d → Saved d
    Kept-Saved d (inl h) = inl h
    Kept-Saved d (inr h) = inr (inl h)

    rename-Kept :
        (d : os.Disk) (res : Sys (Unit {0}) × os.Disk)
        → os.rename d temp recovery ≡ res
        → Temp d
        → Kept res.1
    rename-Kept d (ret _, d') e h =
        inr (Renamed-to v d d' temp recovery (laws.rename-ret d temp recovery d' e) ∙ h)
    rename-Kept d (err n, d') e h = inl (Temp-Same d d' (laws.rename-err d temp recovery n d' e) h)

    rename-Saved :
        (d : os.Disk) (res : Sys (Unit {0}) × os.Disk)
        → os.rename d recovery cached ≡ res
        → Kept d
        → Saved res.1
    rename-Saved d (ret _, d') e (inl h) = inl (
        Renamed-other v d d' recovery cached temp (laws.rename-ret d recovery cached d' e) differ
          apart
        ∙ h)
    rename-Saved d (ret _, d') e (inr h) =
        inr (inr (Renamed-to v d d' recovery cached (laws.rename-ret d recovery cached d' e) ∙ h))
    rename-Saved d (err n, d') e h =
        Kept-Saved d' (Kept-Same d d' (laws.rename-err d recovery cached n d' e) h)

    module _ {S W : Type 0} (stub : Stub S) (streams : Streams S W) (path : Bytes) (fd : ℕ) where
      abbrev Client : Type 0
      Client = World S os.Disk

      close_on_server-Kept :
          (name : Bytes) (w : Client)
          → Kept w.disk
          → Kept (close_on_server os stub streams name w).disk
      unfolding close_on_server
      close_on_server-Kept name w h =
          put_file-keeps os streams Kept
            (λ d p. Kept-Same d (os.open_file d p o_rdonly 0).1 (quiet.open_rdonly d p))
            w.cache.cached_root name w.server w.disk h

      close_on_server-cache :
          (name : Bytes) (w : Client)
          → cached_path (close_on_server os stub streams name w).cache path
            ≡ cached_path w.cache path
      unfolding close_on_server
      close_on_server-cache name w = refl

      keep_recovery-Saved :
          (w : Client)
          → cached_path w.cache path ≡ cached
          → Kept w.disk
          → Saved (keep_recovery os stub streams recovery path fd w).disk
      unfolding keep_recovery
      keep_recovery-Saved w c h =
          rename-Saved w.disk (os.rename w.disk recovery (cached_path w.cache path))
            (ap (os.rename w.disk recovery) (sym c)) h

      abbrev After : Exit ℤ × Client → Type 0
      After r = Saved r.1.disk

      release_small-Saved :
          (crash_site : ℕ) (w : Client)
          → cached_path w.cache path ≡ cached
          → Kept w.disk
          → After (release_small os stub streams crash_site path fd recovery w)
      unfolding release_small
      release_small-Saved crash_site w c h =
          let w₁ = close_on_server os stub streams (base_name recovery) w in
          let k = close_on_server-Kept (base_name recovery) w h in
          if_either After (crash_site == 2) (Kept-Saved w.disk h) (
            if_either After (crash_site == 1) (Kept-Saved w₁.disk k)
              (keep_recovery-Saved w₁ (close_on_server-cache (base_name recovery) w ∙ c) k))

      release_large-Saved :
          (w : Client)
          → cached_path w.cache path ≡ cached
          → Kept w.disk
          → After (release_large os stub streams path fd recovery w)
      unfolding release_large
      release_large-Saved w c h = keep_recovery-Saved w c h

      after_close-Saved :
          (crash_site : ℕ) (w : Client) (res : Sys (Unit {0}))
          → cached_path w.cache path ≡ cached
          → Kept w.disk
          → After (after_close os stub streams crash_site path fd true true recovery res w)
      unfolding after_close send_released
      after_close-Saved crash_site w (err n) c h = Kept-Saved w.disk h
      after_close-Saved crash_site w (ret _) c h =
          if_either After
            (ltb parallel_close_file_size_thresh (get_file_size os stub streams path w))
            (release_large-Saved w c h) (release_small-Saved crash_site w c h)

      close_released-Saved :
          (crash_site : ℕ) (w : Client)
          → cached_path w.cache path ≡ cached
          → Kept w.disk
          → After (close_released os stub streams crash_site path fd true true recovery w)
      unfolding close_released
      close_released-Saved crash_site w c h =
          let w₁ : Client = record w { disk = (os.close w.disk fd).1 } in
          after_close-Saved crash_site w₁ (os.close w.disk fd).0 c
            (Kept-Same w.disk w₁.disk (quiet.close w.disk fd) h)

      after_close-Temp :
          (crash_site : ℕ) (is_temp : Bool) (w : Client) (res : Sys (Unit {0}))
          → Temp w.disk
          → After (after_close os stub streams crash_site path fd false is_temp [] res w)
      unfolding after_close
      after_close-Temp crash_site is_temp w (err n) h = inl h
      after_close-Temp crash_site is_temp w (ret _) h = inl h

      close_released-Temp :
          (crash_site : ℕ) (is_temp : Bool) (w : Client)
          → Temp w.disk
          → After (close_released os stub streams crash_site path fd false is_temp [] w)
      unfolding close_released
      close_released-Temp crash_site is_temp w h =
          let w₁ : Client = record w { disk = (os.close w.disk fd).1 } in
          after_close-Temp crash_site is_temp w₁ (os.close w.disk fd).0
            (Temp-Same w.disk w₁.disk (quiet.close w.disk fd) h)

      create_recovery_path-Kept :
          (w : Client)
          → temp_path w.cache fd ≡ temp
          → recovery_of temp ≡ recovery
          → Temp w.disk
          → Kept (create_recovery_path os stub streams fd w).disk
      unfolding create_recovery_path
      create_recovery_path-Kept w t r h =
          rename-Kept w.disk
            (os.rename w.disk (temp_path w.cache fd) (recovery_of (temp_path w.cache fd)))
            (rw (t, r) refl) h

  module _ {S W : Type 0} (stub : Stub S) (streams : Streams S W) where
    -- When a file that is open under a temporary name is closed, what was written to it is not
    -- lost: whether the client goes on, fails to close it, or is killed at a crash site, one of
    -- the temporary file, the recovery file and the cached file holds the bytes that the temporary
    -- file held.
    pub saved_by_release :
        (crash_site : ℕ) (path : Bytes) (fd : ℕ) (w : World S os.Disk) (b : Bytes)
        → is_temp_file fd w.cache ≡ true
        → temp_path w.cache fd ≢ cached_path w.cache path
        → content v w.disk (temp_path w.cache fd) ≡ some b
        → let (exit, w') = client_release os stub streams crash_site path (some fd) w in
          (content v w'.disk (temp_path w.cache fd) ≡ some b)
          ⊎ ((content v w'.disk (recovery_of (temp_path w.cache fd)) ≡ some b)
              ⊎ (content v w'.disk (cached_path w.cache path) ≡ some b))
    unfolding client_release is_file_modified
    saved_by_release crash_site path fd w b t apart h =
        let temp = temp_path w.cache fd in
        let recovery = recovery_of temp in
        let cached = cached_path w.cache path in
        let differ : temp ≢ recovery =
          λ p. omega (arith, ap length p, length-append temp (text ".recover")) in
        let w₁ = (is_file_modified os stub streams path fd w).1 in
        let w₂ : World S os.Disk = record w₁ { disk = (os.fdatasync w₁.disk fd).1 } in
        let synced : Temp temp recovery cached b differ apart w₂.disk =
          Temp-Same temp recovery cached b differ apart w₁.disk w₂.disk (quiet.fdatasync w₁.disk fd)
            h in
        let After' = After temp recovery cached b differ apart stub streams path fd in
        if_either After' (is_file_modified os stub streams path fd w).0
          (if_true After' (is_temp_file fd w.cache) _ t (
            if_either After' (crash_site == 5) (inl synced) (
              close_released-Saved temp recovery cached b differ apart stub streams path fd
                crash_site (create_recovery_path os stub streams fd w₂)
                (create_recovery_path-cache os stub streams path fd w₂)
                (create_recovery_path-Kept temp recovery cached b differ apart stub streams path fd
                  w₂ refl refl synced))))
          (close_released-Temp temp recovery cached b differ apart stub streams path fd crash_site
            (is_temp_file fd w.cache) w₁ h)
