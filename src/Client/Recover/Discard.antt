-- ===== src/Client/Recover/Discard.antt =====
-- AFS/afsfuse_client.cc: a client that is killed before the temporary file is renamed.
use client_server_file_syste.Base.{
  ℕ, ◌≡◌, ◌≢◌, refl, ap, ◌∙◌, true, false, some, none, List, ◌∷◌, ◌++◌, All, Bytes, text, find,
  to_string, ◌%◌, if_true, arith,
}
use client_server_file_syste.Base.Int.{ℤ}
use client_server_file_syste.Base.Search.{contains, find-temp}
use client_server_file_syste.Sys.{Os, Exit, killed}
use client_server_file_syste.Sys.Laws.{View, content, Removed, is_plain}
use client_server_file_syste.Sys.Contents.{content-Same, Removed-other}
use client_server_file_syste.Rpc.Calls.{Stub}
use client_server_file_syste.Rpc.Transfer.{Streams}
use client_server_file_syste.Cache.{cached_path, temp_path, new_temp_path, is_temp_file}
use client_server_file_syste.Client.{World, is_file_modified, client_release}
use client_server_file_syste.Client.Saved.{IsQuiet}
use client_server_file_syste.Client.Recover.{remove_path, recover_entry}
use client_server_file_syste.Client.Recover.Plain.{IsPlain, traversal-one}
use client_server_file_syste.Client.Recover.Restart.{start_again}

-- `rm PATH` removes the file, and no other one.
abbrev pub RemovesFiles : (os : Os) → View os → Type 0
RemovesFiles os v =
    (d : os.Disk) (p : Bytes)
    → is_plain p ≡ true
    → Removed v d p (os.system d (text "rm " ++ p)).1
      × (v.node (os.system d (text "rm " ++ p)).1 p ≡ none)

contains-temp :
    (s r : Bytes)
    → find (text ".temp") s ≡ none
    → contains (text ".temp") (s ++ (text ".temp" ++ r)) ≡ true
contains-temp s r h = rw (find-temp s r h, contains) refl

module _ (os : Os) (v : View os) (removes : RemovesFiles os v) {S W : Type 0} (stub : Stub S)
    (streams : Streams S W) where
  recover_entry-temp :
      (stack : ℕ) (temp q : Bytes) (w : World S os.Disk)
      → contains (text ".recover") temp ≡ false
      → contains (text ".temp") temp ≡ true
      → is_plain temp ≡ true
      → q ≢ temp
      → content v (recover_entry os stub streams stack temp w).disk q ≡ content v w.disk q
  unfolding recover_entry remove_path
  recover_entry-temp stack temp q w r t plain ne =
      rw (r, t) (Removed-other v w.disk _ temp q (removes w.disk temp plain).0 ne)

  recover_entry-gone :
      (stack : ℕ) (temp : Bytes) (w : World S os.Disk)
      → contains (text ".recover") temp ≡ false
      → contains (text ".temp") temp ≡ true
      → is_plain temp ≡ true
      → content v (recover_entry os stub streams stack temp w).disk temp ≡ none
  unfolding recover_entry remove_path
  recover_entry-gone stack temp w r t plain =
      let gone = (removes w.disk temp plain).1 in rw (r, t) (ground (arith, gone))

  abbrev Discarded :
      ℕ
      → Bytes
      → Bytes
      → List Bytes
      → List Bytes
      → World S os.Disk
      → Exit ℤ × World S os.Disk
      → Type 0
  Discarded stack temp q before after w (exit, w') =
      (exit ≡ killed)
      × (content v (start_again os stub streams stack (before ++ temp ∷ after) w').disk temp ≡ none)
      × (content v (start_again os stub streams stack (before ++ temp ∷ after) w').disk q
          ≡ content v w.disk q)

  -- When a changed file is closed that `client_open` has given its temporary name, with no
  -- ".temp" in its cached path and no ".recover" in the temporary one, and the client is killed
  -- at crash site 5, then the temporary file, with what the program wrote, is gone once the
  -- client has started again, and every other file of the client's disk, the cached one too, is
  -- what it was. No other path that the client finds in the cache then is one of a recovery file
  -- or of a temporary file; the shell takes the temporary path as it is, and its `rm` removes
  -- that file and no other one.
  pub discarded :
      (stack fd rand : ℕ) (path q : Bytes) (before after : List Bytes) (w : World S os.Disk)
      → IsQuiet os v
      → is_temp_file fd w.cache ≡ true
      → temp_path w.cache fd ≡ new_temp_path w.cache path rand
      → find (text ".temp") (cached_path w.cache path) ≡ none
      → contains (text ".recover") (temp_path w.cache fd) ≡ false
      → is_plain (temp_path w.cache fd) ≡ true
      → All IsPlain before
      → All IsPlain after
      → (is_file_modified os stub streams path fd w).0 ≡ true
      → q ≢ temp_path w.cache fd
      → let (exit, w') = client_release os stub streams 5 path (some fd) w in
        let listing = before ++ temp_path w.cache fd ∷ after in
        (exit ≡ killed)
        × (content v (start_again os stub streams stack listing w').disk (temp_path w.cache fd)
            ≡ none)
        × (content v (start_again os stub streams stack listing w').disk q ≡ content v w.disk q)
  unfolding client_release is_file_modified start_again new_temp_path
  discarded stack fd rand path q before after w quiet t name free r plain hb ha modified ne =
      let temp = temp_path w.cache fd in
      let w₁ = (is_file_modified os stub streams path fd w).1 in
      let w₂ : World S os.Disk = record w₁ { disk = (os.fdatasync w₁.disk fd).1 } in
      let found : contains (text ".temp") temp ≡ true =
        ap (contains (text ".temp")) name
        ∙ contains-temp (cached_path w.cache path) (text "." ++ to_string (rand % 10000)) free in
      let Gone = Discarded stack temp q before after w in
      if_true Gone (is_file_modified os stub streams path fd w).0 _ modified (
        if_true Gone (is_temp_file fd w.cache) _ t (
          refl,
          rw (traversal-one os stub streams stack temp before after _ hb ha)
              (recover_entry-gone stack temp _ r found plain),
          rw (traversal-one os stub streams stack temp before after _ hb ha) (
              recover_entry-temp stack temp q _ r found plain ne
              ∙ content-Same v w₁.disk w₂.disk q (quiet.fdatasync w₁.disk fd)),
        ))
