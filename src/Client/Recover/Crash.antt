-- ===== src/Client/Recover/Crash.antt =====
-- A recovery file becomes the cached file.
use client_server_file_syste.Base.{
  if_true, ℕ, ◌≡◌, ◌⊎◌, inl, inr, refl, ◌∙◌, true, some, Bytes, text,
}
use client_server_file_syste.Base.Search.{contains}
use client_server_file_syste.Sys.{Os, Sys, ret, err}
use client_server_file_syste.Sys.Laws.{View, IsStore, content, Same}
use client_server_file_syste.Rpc.Transfer.{Streams}
use client_server_file_syste.Rpc.Calls.{Stub}
use client_server_file_syste.Rpc.Transfer.Disk.{put_file-keeps}
use client_server_file_syste.Client.{World, close_on_server}
use client_server_file_syste.Client.Saved.{IsQuiet}
use client_server_file_syste.Sys.Contents.{content-Same, Renamed-to}
use client_server_file_syste.Client.Recover.{
  translate_path, original_file, rename_file, recover_entry,
}

module _ (os : Os) (v : View os) (laws : IsStore os v) (quiet : IsQuiet os v) where
  module _ (recovery original b : Bytes) (renamed : Sys (Unit {0})) where
    abbrev Either : os.Disk → Type 0
    Either d =
        ((renamed ≡ ret tt) × (content v d original ≡ some b))
        ⊎ ((e : ℕ) × (renamed ≡ err e) × (content v d recovery ≡ some b))

    Either-Same : (d d' : os.Disk) → Same v d d' → Either d → Either d'
    Either-Same d d' s (inl (r, h)) = inl (r, content-Same v d d' original s ∙ h)
    Either-Same d d' s (inr (e, r, h)) = inr (e, r, content-Same v d d' recovery s ∙ h)

    rename-Either :
        (d : os.Disk) (res : Sys (Unit {0}) × os.Disk)
        → renamed ≡ res.0
        → os.rename d recovery original ≡ res
        → content v d recovery ≡ some b
        → Either res.1
    rename-Either d (ret _, d') r e h =
        inl (r, Renamed-to v d d' recovery original (laws.rename-ret d recovery original d' e) ∙ h)
    rename-Either d (err n, d') r e h =
        Either-Same d d' (laws.rename-err d recovery original n d' e) (inr (n, r, h))

  module _ {S W : Type 0} (stub : Stub S) (streams : Streams S W) where
    close_on_server-Either :
        (recovery original b name : Bytes) (renamed : Sys (Unit {0})) (w : World S os.Disk)
        → Either recovery original b renamed w.disk
        → Either recovery original b renamed (close_on_server os stub streams name w).disk
    unfolding close_on_server
    close_on_server-Either recovery original b name renamed w h =
        put_file-keeps os streams (Either recovery original b renamed)
          (λ d p.
            Either-Same recovery original b renamed d (os.open_file d p 0 0).1
              (quiet.open_rdonly d p))
          w.cache.cached_root name w.server w.disk h

    -- A recovery file that the client finds when it starts is renamed to its name up to the first
    -- ".temp": if the rename succeeds, that path shows the bytes that the recovery file had, and
    -- if it fails, the recovery file still has them.
    pub recovered :
        (stack : ℕ) (recovery b : Bytes) (w : World S os.Disk)
        → contains (text ".recover") recovery ≡ true
        → content v w.disk recovery ≡ some b
        → let d = (recover_entry os stub streams stack recovery w).disk in
          let renamed = (os.rename w.disk recovery (translate_path recovery)).0 in
          ((renamed ≡ ret tt) × (content v d (translate_path recovery) ≡ some b))
          ⊎ ((e : ℕ) × (renamed ≡ err e) × (content v d recovery ≡ some b))
    unfolding recover_entry rename_file
    recovered stack recovery b w c h =
        let w' : World S os.Disk =
          rename_file os stub streams recovery (translate_path recovery) w in
        let renamed = (os.rename w.disk recovery (translate_path recovery)).0 in
        if_true
          (λ (x : World S os.Disk). Either recovery (translate_path recovery) b renamed x.disk)
          (contains (text ".recover") recovery) _ c
          (close_on_server-Either recovery (translate_path recovery) b
            (original_file stack (translate_path recovery)) renamed w'
            (rename-Either recovery (translate_path recovery) b renamed w.disk
              (os.rename w.disk recovery (translate_path recovery)) refl refl h))
