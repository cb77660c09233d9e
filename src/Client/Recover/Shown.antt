-- ===== src/Client/Recover/Shown.antt =====
-- Where the bytes of a file are while it is closed and when the client starts again, on a system
-- that renames every file that is there.
use client_server_file_syste.Base.{
  ℕ, ◌≡◌, ap, ◌∙◌, true, some, none, List, ◌∷◌, ◌++◌, All, Bytes, text, find, prefix_to,
  take-append, append_assoc, ltb, ◌==◌, if_either, if_true,
}
use client_server_file_syste.Base.Int.{ℤ}
use client_server_file_syste.Base.Search.{contains, find-temp}
use client_server_file_syste.Sys.{Os, Sys, ret, Exit, returned, killed}
use client_server_file_syste.Sys.Laws.{View, IsStore, content}
use client_server_file_syste.Sys.Contents.{content-Same, Renamed-to}
use client_server_file_syste.Stream.Reader.{o_rdonly}
use client_server_file_syste.Rpc.Calls.{Stub}
use client_server_file_syste.Rpc.Transfer.{Streams}
use client_server_file_syste.Rpc.Transfer.Disk.{put_file-keeps}
use client_server_file_syste.Cache.{cached_path}
use client_server_file_syste.Client.{
  World, base_name, recovery_of, parallel_close_file_size_thresh, get_file_size, after_close,
  close_on_server, keep_recovery, release_small, release_large, send_released, close_released,
}
use client_server_file_syste.Client.Saved.{IsQuiet}
use client_server_file_syste.Client.Recover.Plain.{IsPlain, traversal-one}
use client_server_file_syste.Client.Recover.{
  translate_path, original_file, rename_file, recover_entry, recurse_directory_traversal,
}

-- A file that is there can be renamed.
abbrev pub RenamesAll : (os : Os) → View os → Type 0
RenamesAll os v =
    (d : os.Disk) (from to b : Bytes) → content v d from ≡ some b → (os.rename d from to).0 ≡ ret tt

-- The recovery file of a name that `client_open` has made leads back to the cached path.
pub translate_path-recovery_of :
    (cached name : Bytes)
    → find (text ".temp") cached ≡ none
    → translate_path (recovery_of (cached ++ (text ".temp" ++ name))) ≡ cached
translate_path-recovery_of cached name h =
    let more : Bytes = text ".temp" ++ (name ++ text ".recover") in
    let e : recovery_of (cached ++ (text ".temp" ++ name)) ≡ cached ++ more =
      append_assoc cached (text ".temp" ++ name) (text ".recover") in
    ap translate_path e
    ∙ (ap (λ n. prefix_to n (cached ++ more)) (find-temp cached (name ++ text ".recover") h)
        ∙ take-append cached more)

module _ (os : Os) (v : View os) (laws : IsStore os v) (renames : RenamesAll os v) where
  pub rename-content :
      (d : os.Disk) (from to b : Bytes)
      → content v d from ≡ some b
      → content v (os.rename d from to).1 to ≡ some b
  rename-content d from to b h =
      Renamed-to v d (os.rename d from to).1 from to (
        laws.rename-ret d from to (os.rename d from to).1
          (ap (λ (r : Sys (Unit {0})). (r, (os.rename d from to).1)) (renames d from to b h)))
      ∙ h

  module _ (quiet : IsQuiet os v) (recovery cached b : Bytes) where
    abbrev pub Shows : Bytes → os.Disk → Type 0
    Shows p d = content v d p ≡ some b

    module _ {S W : Type 0} (stub : Stub S) (streams : Streams S W) where
      abbrev Client : Type 0
      Client = World S os.Disk

      -- Killed with the bytes in the recovery file, or done with them in the cached file.
      abbrev pub Safe : Exit ℤ × Client → Type 0
      Safe (killed, w) = Shows recovery w.disk
      Safe (returned _, w) = Shows cached w.disk

      close_on_server-Shows :
          (p name : Bytes) (w : Client)
          → Shows p w.disk
          → Shows p (close_on_server os stub streams name w).disk
      unfolding close_on_server
      close_on_server-Shows p name w h =
          put_file-keeps os streams (Shows p)
            (λ d q k.
              content-Same v d (os.open_file d q o_rdonly 0).1 p (quiet.open_rdonly d q) ∙ k)
            w.cache.cached_root name w.server w.disk h

      module _ (path : Bytes) (fd : ℕ) where
        keep_recovery-Shows :
            (w : Client)
            → cached_path w.cache path ≡ cached
            → Shows recovery w.disk
            → Shows cached (keep_recovery os stub streams recovery path fd w).disk
        unfolding keep_recovery
        keep_recovery-Shows w c h =
            rw (← c) (rename-content w.disk recovery (cached_path w.cache path) b h)

        release_small-Safe :
            (crash_site : ℕ) (w : Client)
            → cached_path w.cache path ≡ cached
            → Shows recovery w.disk
            → Safe (release_small os stub streams crash_site path fd recovery w)
        unfolding release_small close_on_server
        release_small-Safe crash_site w c h =
            let w₁ = close_on_server os stub streams (base_name recovery) w in
            let k = close_on_server-Shows recovery (base_name recovery) w h in
            if_either Safe (crash_site == 2) h
              (if_either Safe (crash_site == 1) k (keep_recovery-Shows w₁ c k))

        after_close-Safe :
            (crash_site : ℕ) (w : Client)
            → cached_path w.cache path ≡ cached
            → Shows recovery w.disk
            → Safe (after_close os stub streams crash_site path fd true true recovery (ret tt) w)
        unfolding after_close send_released release_large
        after_close-Safe crash_site w c h =
            if_either Safe
              (ltb parallel_close_file_size_thresh (get_file_size os stub streams path w))
              (keep_recovery-Shows w c h) (release_small-Safe crash_site w c h)

        pub close_released-Safe :
            (crash_site : ℕ) (w : Client)
            → (os.close w.disk fd).0 ≡ ret tt
            → cached_path w.cache path ≡ cached
            → Shows recovery w.disk
            → Safe (close_released os stub streams crash_site path fd true true recovery w)
        unfolding close_released
        close_released-Safe crash_site w e c h =
            let d' = (os.close w.disk fd).1 in
            rw e (
              after_close-Safe crash_site (record w { disk = d' }) c
                (content-Same v w.disk d' recovery (quiet.close w.disk fd) ∙ h))

      rename_file-Shows :
          (w : Client)
          → Shows recovery w.disk
          → Shows cached (rename_file os stub streams recovery cached w).disk
      unfolding rename_file
      rename_file-Shows w h = rename-content w.disk recovery cached b h

      recover_entry-Shows :
          (stack : ℕ) (w : Client)
          → contains (text ".recover") recovery ≡ true
          → translate_path recovery ≡ cached
          → Shows recovery w.disk
          → Shows cached (recover_entry os stub streams stack recovery w).disk
      unfolding recover_entry
      recover_entry-Shows stack w c t h =
          if_true (λ (x : Client). Shows cached x.disk) (contains (text ".recover") recovery) _ c
            (close_on_server-Shows cached (original_file stack (translate_path recovery)) _
              (rw t (rename_file-Shows w h)))

      pub traversal-Shows :
          (stack : ℕ) (before after : List Bytes) (w : Client)
          → All IsPlain before
          → All IsPlain after
          → contains (text ".recover") recovery ≡ true
          → translate_path recovery ≡ cached
          → Shows recovery w.disk
          → Shows cached
              (recurse_directory_traversal os stub streams stack
                (before ++ recovery ∷ after)
                w).disk
      traversal-Shows stack before after w hb ha c t h =
          rw (traversal-one os stub streams stack recovery before after w hb ha)
            (recover_entry-Shows stack w c t h)
