-- ===== src/Server/Paths/Laws.antt =====
-- The names of an upload.
use client_server_file_syste.Base.{
  ℕ, ◌%◌, ◌≤◌, ◌≢◌, ap, Option, none, some, [], ◌++◌, Bytes, text, length, find, length-append,
  length-take, to_string, prefix_to, arith,
}
use client_server_file_syste.Server.Paths.{strip_slash, strip_temp, upload_temp, upload_final}

length-prefix_to : (o : Option ℕ) (s : Bytes) → length (prefix_to o s) ≤ length s
length-prefix_to none s = omega arith
length-prefix_to (some n) s = omega (arith, length-take n s)

module _ (root : Bytes) (rand : ℕ) (name : Bytes) where
  -- An upload never writes straight into the file that it is to replace.
  pub upload_temp-ne-upload_final : upload_temp root rand name ≢ upload_final root name
  upload_temp-ne-upload_final e = omega (
    arith,
    ap length e,
    length-append ((root ++ text "/") ++ strip_slash name) (text ".tmp" ++ to_string (rand % 1000)),
    length-append (root ++ text "/") (strip_slash name),
    length-append (root ++ text "/") (strip_temp (strip_slash name)),
    length-prefix_to (find (text ".temp") (strip_slash name)) (strip_slash name),
  )

  pub upload_temp-ne-nil : upload_temp root rand name ≢ []
  upload_temp-ne-nil e = omega (
    arith,
    ap length e,
    length-append ((root ++ text "/") ++ strip_slash name) (text ".tmp" ++ to_string (rand % 1000)),
  )
