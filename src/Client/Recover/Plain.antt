-- ===== src/Client/Recover/Plain.antt =====
-- Paths that the client leaves alone when it starts.
use client_server_file_syste.Base.{
  ◌≡◌, refl, ◌∙◌, ap, ℕ, false, List, [], ◌∷◌, ◌++◌, All, Bytes, text,
}
use client_server_file_syste.Base.Search.{contains}
use client_server_file_syste.Sys.{Os}
use client_server_file_syste.Rpc.Calls.{Stub}
use client_server_file_syste.Rpc.Transfer.{Streams}
use client_server_file_syste.Client.{World}
use client_server_file_syste.Client.Recover.{recover_entry, recurse_directory_traversal}

abbrev pub IsPlain : Bytes → Type 0
IsPlain p = (contains (text ".recover") p ≡ false) × (contains (text ".temp") p ≡ false)

module _ (os : Os) {S W : Type 0} (stub : Stub S) (streams : Streams S W) (stack : ℕ) where
  recover_entry-plain :
      (p : Bytes) (w : World S os.Disk) → IsPlain p → recover_entry os stub streams stack p w ≡ w
  unfolding recover_entry
  recover_entry-plain p w (r, t) = rw (r, t) refl

  traversal-plain :
      (ps : List Bytes) (w : World S os.Disk)
      → All IsPlain ps
      → recurse_directory_traversal os stub streams stack ps w ≡ w
  unfolding recurse_directory_traversal
  traversal-plain [] w h = refl
  traversal-plain (p ∷ ps) w (h, hs) = rw (recover_entry-plain p w h) (traversal-plain ps w hs)

  -- Among such paths, another one is treated as if it were alone.
  pub traversal-one :
      (p : Bytes) (before after : List Bytes) (w : World S os.Disk)
      → All IsPlain before
      → All IsPlain after
      → recurse_directory_traversal os stub streams stack (before ++ p ∷ after) w
        ≡ recover_entry os stub streams stack p w
  unfolding recurse_directory_traversal
  traversal-one p [] after w hb ha =
      traversal-plain after (recover_entry os stub streams stack p w) ha
  traversal-one p (q ∷ before) after w (hq, hb) ha =
      ap (recurse_directory_traversal os stub streams stack (before ++ p ∷ after))
        (recover_entry-plain q w hq)
      ∙ traversal-one p before after w hb ha
