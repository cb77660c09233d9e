-- ===== src/Client/Recover/Restart.antt =====
-- AFS/afsfuse_client.cc: a client that is killed in `client_release` and starts again.
use client_server_file_syste.Base.{
  ℕ, ◌≡◌, ◌≢◌, refl, ap, ◌∙◌, true, some, none, List, [], ◌∷◌, ◌++◌, All, Bytes, text, find,
  to_string, ◌%◌, ◌==◌, arith, if_true, if_false,
}
use client_server_file_syste.Base.Int.{ℤ}
use client_server_file_syste.Base.Search.{contains, contains-append}
use client_server_file_syste.Sys.{Os, ret, Exit, returned, killed}
use client_server_file_syste.Sys.Laws.{View, IsStore, content}
use client_server_file_syste.Sys.Contents.{content-Same}
use client_server_file_syste.Rpc.Calls.{Stub}
use client_server_file_syste.Rpc.Transfer.{Streams}
use client_server_file_syste.Cache.{cached_path, temp_path, new_temp_path, is_temp_file}
use client_server_file_syste.Client.{
  World, recovery_of, is_file_modified, create_recovery_path, client_release,
}
use client_server_file_syste.Client.Saved.{IsQuiet}
use client_server_file_syste.Client.Recover.{translate_path, recurse_directory_traversal}
use client_server_file_syste.Client.Recover.Plain.{IsPlain}
use client_server_file_syste.Client.Recover.Shown.{
  RenamesAll, translate_path-recovery_of, rename-content, Safe, close_released-Safe,
  traversal-Shows,
}

module _ (os : Os) {S W : Type 0} (stub : Stub S) (streams : Streams S W) where
  -- A client that was killed starts again: a new `Cache`, and in `client_init` the traversal of
  -- the cache folder. What `rand()` gives it is not known, so `draws` goes on. The queue of the
  -- process that was killed is lost.
  unfoldable pub start_again : ℕ → List Bytes → World S os.Disk → World S os.Disk
  start_again stack listing w =
      recurse_directory_traversal os stub streams stack listing (record w {
        cache = record {
          cached_root = w.cache.cached_root;
          temp_files = [];
          draws = w.cache.draws;
        };
        submitted = [];
      })

  unfoldable pub again_if_killed : ℕ → List Bytes → Exit ℤ × World S os.Disk → World S os.Disk
  again_if_killed stack listing (killed, w) = start_again stack listing w
  again_if_killed stack listing (returned _, w) = w

module _ (os : Os) (v : View os) (laws : IsStore os v) (renames : RenamesAll os v)
    (quiet : IsQuiet os v) {S W : Type 0} (stub : Stub S) (streams : Streams S W) where
  again_if_killed-Shows :
      (recovery cached b : Bytes) (stack : ℕ) (before after : List Bytes)
      (r : Exit ℤ × World S os.Disk)
      → All IsPlain before
      → All IsPlain after
      → contains (text ".recover") recovery ≡ true
      → translate_path recovery ≡ cached
      → Safe os v laws renames quiet recovery cached b stub streams r
      → content v (again_if_killed os stub streams stack (before ++ recovery ∷ after) r).disk cached
        ≡ some b
  unfolding again_if_killed start_again
  again_if_killed-Shows recovery cached b stack before after (killed, w) hb ha c t h =
      traversal-Shows os v laws renames quiet recovery cached b stub streams stack before after _ hb
        ha c t h
  again_if_killed-Shows recovery cached b stack before after (returned _, w) hb ha c t h = h

  -- On a system that renames every file that is there, and closes the descriptor: when a changed
  -- file is closed that `client_open` has given its temporary name, with no ".temp" in its cached
  -- path, the cached file holds what the temporary file held, also if the client is killed at
  -- crash site 1 or 2, once it has started again. No other path that it finds in the cache then is
  -- one of a recovery file or of a temporary file.
  pub closed_or_recovered :
      (crash_site stack fd rand : ℕ) (path b : Bytes) (before after : List Bytes)
      (w : World S os.Disk)
      → is_temp_file fd w.cache ≡ true
      → temp_path w.cache fd ≡ new_temp_path w.cache path rand
      → find (text ".temp") (cached_path w.cache path) ≡ none
      → All IsPlain before
      → All IsPlain after
      → (is_file_modified os stub streams path fd w).0 ≡ true
      → ((d : os.Disk) → (os.close d fd).0 ≡ ret tt)
      → crash_site ≢ 5
      → content v w.disk (temp_path w.cache fd) ≡ some b
      → let listing = before ++ recovery_of (temp_path w.cache fd) ∷ after in
        content v
          (again_if_killed os stub streams stack listing
            (client_release os stub streams crash_site path (some fd) w)).disk
          (cached_path w.cache path)
        ≡ some b
  unfolding client_release is_file_modified create_recovery_path new_temp_path
  closed_or_recovered crash_site stack fd rand path b before after w t name free hb ha modified
        closes site h =
      let temp = temp_path w.cache fd in
      let recovery = recovery_of temp in
      let cached = cached_path w.cache path in
      let w₁ = (is_file_modified os stub streams path fd w).1 in
      let w₂ : World S os.Disk = record w₁ { disk = (os.fdatasync w₁.disk fd).1 } in
      let synced : content v w₂.disk temp ≡ some b =
        content-Same v w₁.disk w₂.disk temp (quiet.fdatasync w₁.disk fd) ∙ h in
      let Safe' = Safe os v laws renames quiet recovery cached b stub streams in
      again_if_killed-Shows recovery cached b stack before after _ hb ha
        (contains-append temp (text ".recover"))
        (ap (λ (x : Bytes). translate_path (recovery_of x)) name
          ∙ translate_path-recovery_of cached (text "." ++ to_string (rand % 10000)) free)
        (if_true Safe' (is_file_modified os stub streams path fd w).0 _ modified (
          if_true Safe' (is_temp_file fd w.cache) _ t (
            if_false Safe' (crash_site == 5) _ (ground (arith, site)) (
              close_released-Safe os v laws renames quiet recovery cached b stub streams path fd
                crash_site (create_recovery_path os stub streams fd w₂) (closes _) refl
                (rename-content os v laws renames w₂.disk temp recovery b synced)))))
