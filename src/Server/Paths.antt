-- ===== src/Server/Paths.antt =====
-- AFS/afsfuse_server.cc: how a client's path becomes a path below the server's root, and how the
-- name in a stream gives the temporary and the final path of an upload.
pub mod Laws
use client_server_file_syste.Base.{
  ℕ, ◌%◌, [], ◌∷◌, ◌++◌, Bytes, text, ◌==◌, if◌then◌else◌, find, find_last_of, prefix_to, to_string,
}

-- `translatePath`: what stands in the buffer afterwards. `strcat` checks no bound.
abbrev pub translate_path : Bytes → Bytes → Bytes → Bytes
translate_path root [] server_path = server_path ++ (root ++ text "/")
translate_path root (c ∷ rest) server_path =
    server_path ++ (if c == b'/' then root ++ (c ∷ rest) else (root ++ text "/") ++ (c ∷ rest))

-- A buffer declared `= {0}` starts empty.
abbrev pub server_path : Bytes → Bytes → Bytes
server_path root client_path = translate_path root client_path []

-- `s.substr(0, s.find_last_of("/"))`
abbrev pub parent : Bytes → Bytes
parent s = prefix_to (find_last_of b'/' s) s

-- `if (!name.empty() && name.at(0) == '/') name = name.substr(1);`
abbrev pub strip_slash : Bytes → Bytes
strip_slash [] = []
strip_slash (c ∷ rest) = if c == b'/' then rest else c ∷ rest

-- The name up to the first ".temp", if there is one.
abbrev pub strip_temp : Bytes → Bytes
strip_temp name = prefix_to (find (text ".temp") name) name

abbrev pub upload_temp : Bytes → ℕ → Bytes → Bytes
upload_temp root rand name =
    ((root ++ text "/") ++ strip_slash name) ++ (text ".tmp" ++ to_string (rand % 1000))

abbrev pub upload_final : Bytes → Bytes → Bytes
upload_final root name = (root ++ text "/") ++ strip_temp (strip_slash name)
