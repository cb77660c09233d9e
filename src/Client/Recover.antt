-- ===== src/Client/Recover.antt =====
-- AFS/afsfuse_client.cc: what a client does with the files that an earlier run has left behind:
-- `Cache::recurseDirectoryTraversal`, `renameFile`, `removePath` and the `translatePath` there.
pub mod Crash
pub mod Plain
pub mod Shown
pub mod Restart
pub mod Discard
use client_server_file_syste.Base.{
  ℕ, ◌+◌, ◌-◌, ◌%◌, ◌^◌, Bool, true, false, Option, none, some, List, [], ◌∷◌, ◌++◌, Bytes, text,
  find, find_last_of, prefix_to, take, drop, if◌then◌else◌,
}
use client_server_file_syste.Base.Search.{contains}
use client_server_file_syste.Sys.{Os, Sys, ret, err}
use client_server_file_syste.Rpc.Transfer.{Streams}
use client_server_file_syste.Rpc.Calls.{Stub}
use client_server_file_syste.Client.{World, close_on_server}

-- `translatePath`: the name up to the first ".temp".
abbrev pub translate_path : Bytes → Bytes
translate_path recovery_file = prefix_to (find (text ".temp") recovery_file) recovery_file

-- `originalPath.substr(lastPos, originalFile.length() - lastPos + 1)`. `originalFile` is the string
-- that is being initialised: `stack` is the length that is read from it. The paths have a '/'.
abbrev pub original_file : ℕ → Bytes → Bytes
original_file stack path = elim (find_last_of b'/' path) [
  | none ↦ []
  | some n ↦ take ((stack + (2 ^ 64 - n) + 1) % 2 ^ 64) (drop n path)
]

module _ (os : Os) {S W : Type 0} (stub : Stub S) (streams : Streams S W) where
  -- `renameFile`; its `removePath` stands in a block for debugging, which the debug level leaves
  -- out.
  unfoldable pub rename_file : Bytes → Bytes → World S os.Disk → World S os.Disk
  rename_file temp original w = record w { disk = (os.rename w.disk temp original).1 }

  -- `removePath`
  unfoldable pub remove_path : Bytes → World S os.Disk → World S os.Disk
  remove_path path w = record w { disk = (os.system w.disk (text "rm " ++ path)).1 }

  -- The body of the loop, on one path below the cache folder. `rpc_putFile` is called as
  -- `closeOnServer` calls it.
  unfoldable pub recover_entry : ℕ → Bytes → World S os.Disk → World S os.Disk
  recover_entry stack path w =
      if contains (text ".recover") path
      then close_on_server os stub streams (original_file stack (translate_path path))
          (rename_file path (translate_path path) w)
      else if contains (text ".temp") path
      then remove_path path w
      else w

  -- The loop, over the paths that the directory iterator gives.
  unfoldable pub recurse_directory_traversal : ℕ → List Bytes → World S os.Disk → World S os.Disk
  recurse_directory_traversal stack [] w = w
  recurse_directory_traversal stack (p ∷ ps) w =
      recurse_directory_traversal stack ps (recover_entry stack p w)
