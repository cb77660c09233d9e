-- ===== src/Cache/Descriptors.antt =====
-- The map from descriptors to temporary files.
use client_server_file_syste.Base.{ℕ, ◌≡◌, ◌≢◌, true, some, List, ◌∷◌, Bytes, arith}
use client_server_file_syste.Cache.{
  Cache, key_of, no_key, lookup_fd, set_temp_file, is_temp_file, temp_path,
}

lookup_noted :
    (k : ℕ) (path : Bytes) (m : List (ℕ × Bytes)) → lookup_fd k ((k, path) ∷ m) ≡ some path
lookup_noted k path m = ground arith

-- A descriptor other than -1 whose temporary file was noted is found with that file.
pub noted_file_lem :
    (c : Cache) (fd : ℕ) (path : Bytes)
    → key_of fd ≢ no_key
    → (is_temp_file fd (set_temp_file fd path c) ≡ true)
      × (temp_path (set_temp_file fd path c) fd ≡ path)
unfolding set_temp_file is_temp_file temp_path
noted_file_lem c fd path valid =
    (ground (arith, lookup_noted (key_of fd) path), ground (arith, valid))
