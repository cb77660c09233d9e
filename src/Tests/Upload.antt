-- ===== src/Tests/Upload.antt =====
-- `afsfuse_putFile` on a disk in memory.
use client_server_file_syste.Base.{
  ◌≡◌, refl, some, [], ◌∷◌, Bytes, text, bytes_eq, find, find_last_of, to_string,
}
use client_server_file_syste.Sys.{Os, zero_time}
use client_server_file_syste.Sys.Laws.{content}
use client_server_file_syste.Sys.Memory.{Disk, memory, memory_calls, put}
use client_server_file_syste.Sys.Memory.Lawful.{memory_view, memory-IsStore}
use client_server_file_syste.Sys.Memory.Assoc.{lookup}
use client_server_file_syste.Messages.{FileContent, ok, empty_info}
use client_server_file_syste.Stream.Writer.{new_writer, open_if_necessary, write, destruct}
use client_server_file_syste.Server.Paths.{upload_temp, upload_final}
use client_server_file_syste.Server.Files.{does_path_exist}
use client_server_file_syste.Server.Upload.{afsfuse_put_file}
use client_server_file_syste.Server.Upload.Frame.{Setting}
use client_server_file_syste.Server.Upload.Laws.{Outcome, received, put_file_lem}

-- "/s/f" holds an older version.
abbrev disk : Disk
disk = record {
  names = (text "/s/f", 4) ∷ [];
  dirs = λ p. bytes_eq p (text "/s");
  files = λ i. text "old";
  buffers = λ h. [];
  times = λ i. zero_time;
}

-- What a client sends on close: the name of its recovery file.
abbrev name : Bytes
name = text "/f.temp.12.recover"

abbrev first : FileContent
first = record { name = name; content = text "new " }

abbrev second : FileContent
second = record { name = name; content = text "text" }

put_file_runs :
    ((afsfuse_put_file memory (text "/s") 77 (first ∷ second ∷ []) disk).0 ≡ (ok, empty_info))
    × (content memory_view
          (afsfuse_put_file memory (text "/s") 77 (first ∷ second ∷ []) disk).1
          (text "/s/f")
        ≡ some (text "new text"))
unfolding afsfuse_put_file memory_calls new_writer open_if_necessary write destruct does_path_exist
    find find_last_of to_string
put_file_runs = (refl, refl)

abbrev setting : Setting
setting = record {
  os = memory;
  v = memory_view;
  laws = memory-IsStore;
  d₀ = disk;
  temp = upload_temp (text "/s") 77 name;
}

put_file_lem_example :
    Outcome setting
      (upload_final (text "/s") name)
      (received (first ∷ second ∷ []))
      (afsfuse_put_file memory (text "/s") 77 (first ∷ second ∷ []) disk)
unfolding find find_last_of to_string lookup
put_file_lem_example = put_file_lem setting (text "/s") 77 first (second ∷ []) refl refl refl

-- A machine whose streams lose what they hold when they are closed.
abbrev full : Os
full = record memory { out_close = λ d h. record d { buffers = put d.buffers h [] } }

-- The handler answers OK, and the old file is gone for an empty one.
truncated :
    let (reply, d) = afsfuse_put_file full (text "/s") 77 (first ∷ second ∷ []) disk in
    (reply ≡ (ok, empty_info)) × (content memory_view d (text "/s/f") ≡ some [])
unfolding afsfuse_put_file memory_calls new_writer open_if_necessary write destruct does_path_exist
    find find_last_of to_string
truncated = (refl, refl)
