-- ===== src/Tests/Transfer.antt =====
-- A file on its way between two disks in memory.
use client_server_file_syste.Base.{
  ℕ, ◌≡◌, ◌≢◌, ◌≤◌, ◌^◌, refl, true, some, none, List, [], ◌∷◌, ◌++◌, Bytes, text, bytes_eq,
  flatten, All, length, find, find_last_of, to_string,
}
use client_server_file_syste.Base.Int.{pos}
use client_server_file_syste.Sys.{Os, zero_time, err}
use client_server_file_syste.Sys.Laws.{content}
use client_server_file_syste.Sys.Memory.{Disk, memory, memory_calls}
use client_server_file_syste.Sys.Memory.Assoc.{lookup}
use client_server_file_syste.Sys.Memory.Lawful.{memory_view, memory-IsStore}
use client_server_file_syste.Messages.{FileContent, ok}
use client_server_file_syste.Stream.Reader.{Reader, construct, o_rdonly, stream_file, read}
use client_server_file_syste.Stream.Reader.Chunks.{send_each}
use client_server_file_syste.Stream.Writer.{new_writer, open_if_necessary, write, destruct}
use client_server_file_syste.Server.Paths.{upload_temp, upload_final}
use client_server_file_syste.Server.Files.{does_path_exist}
use client_server_file_syste.Server.Download.{status_of, afsfuse_get_file}
use client_server_file_syste.Server.Download.Laws.{get_file_lem}
use client_server_file_syste.Server.Upload.{afsfuse_put_file}
use client_server_file_syste.Rpc.Transfer.{Streams, put_attempt, rpc_put_file, rpc_get_file}
use client_server_file_syste.Rpc.Transfer.Put.{IsUpload, Replaced, put_attempt_lem, put_file_unread}

abbrev pub client : Disk
client = record {
  names = (text "/c/f", 4) ∷ [];
  dirs = λ p. bytes_eq p (text "/c");
  files = λ i. text "new text";
  buffers = λ h. [];
  times = λ i. zero_time;
}

abbrev pub server : Disk
server = record {
  names = (text "/s/f", 4) ∷ [];
  dirs = λ p. bytes_eq p (text "/s");
  files = λ i. text "old";
  buffers = λ h. [];
  times = λ i. zero_time;
}

-- The messages that were taken, and the server behind the stream.
abbrev pub streams : Streams Disk (List FileContent × Disk)
streams = record {
  start = λ d. ([], d);
  send = λ m w. (true, (w.0 ++ (m ∷ []), w.1));
  close = λ w. let ((c, r), d) = afsfuse_put_file memory (text "/s") 77 w.0 w.1 in (c, d);
  fetch = λ path d.
      let (c, w, d') =
        afsfuse_get_file memory {W = List FileContent} (λ m w. (true, w ++ (m ∷ []))) (text "/s")
          path [] d in
      ((w, c), d');
}

streams-IsUpload : IsUpload streams memory (text "/s") (λ d. d)
streams-IsUpload = record {
  sent = λ w. w.0;
  base = λ w. w.1;
  start = λ s. (refl, refl);
  send = λ m w e. (refl, refl);
  close = λ w e. (77, refl);
}

abbrev reader : Bytes → Bytes → Bytes → Reader
reader root path bytes = record {
  root_path = root;
  file_path = path;
  mapped = record { addr = some bytes; len = length bytes; fd = none };
  size = length bytes;
}

-- A file goes to the server, and back under another root.
put_runs :
    let (res, s, d) = rpc_put_file memory streams (text "/c") (text "/f") server client in
    (res ≡ pos 1) × (content memory_view s (text "/s/f") ≡ some (text "new text"))
unfolding rpc_put_file stream_file construct read afsfuse_put_file memory_calls new_writer
    open_if_necessary write destruct does_path_exist find find_last_of to_string
put_runs = (refl, refl)

get_runs :
    let (res, s, d) =
      rpc_get_file memory streams (λ left. 77) (text "/c") (text "/f") server client in
    (res ≡ pos 1) × (content memory_view d (text "/c/f") ≡ some (text "old"))
unfolding rpc_get_file stream_file construct read afsfuse_get_file memory_calls new_writer
    open_if_necessary write destruct find find_last_of to_string
get_runs = (refl, refl)

get_file_lem_example :
    (cs : List Bytes) × (flatten cs ≡ text "old")
    × All (λ c. length c ≤ 2 ^ 20) cs
    × (afsfuse_get_file memory streams.send (text "/s") (text "/f") ([], client) server ≡ (
      status_of
          (send_each streams.send (reader (text "/s") (text "/f") (text "old")) cs ([], client)).0,
      (send_each streams.send (reader (text "/s") (text "/f") (text "old")) cs ([], client)).1,
      (memory.open_file server (text "/s/f") o_rdonly 0).1,
    ))
unfolding construct memory_calls
get_file_lem_example =
    get_file_lem memory streams.send (text "/s") (text "/f") ([], client) server
      (reader (text "/s") (text "/f") (text "old")) refl refl

put_attempt_lem_example :
    let d' = (put_attempt memory streams (text "/c") (text "/f") server client).1 in
    Replaced memory_view server d' (upload_final (text "/s") (text "/f")) (text "new text")
    × (rand : ℕ) × ((q : Bytes)
        → q ≢ upload_temp (text "/s") rand (text "/f")
        → q ≢ upload_final (text "/s") (text "/f")
        → content memory_view d' q ≡ content memory_view server q)
unfolding put_attempt stream_file construct read afsfuse_put_file memory_calls new_writer
    open_if_necessary write destruct does_path_exist find find_last_of to_string lookup
put_attempt_lem_example =
    put_attempt_lem memory streams memory memory_view memory-IsStore (text "/s") (λ d. d)
      streams-IsUpload (text "/c") (text "/f") server client
      (reader (text "/c") (text "/f") (text "new text")) refl refl (λ n. refl) refl refl

-- A machine on which no file may be opened.
abbrev denied : Os
denied = record memory { open_file = λ d path flags mode. (err 13, d) }

unread : (d : Disk) → (n : ℕ) × ((construct denied (text "/c") (text "/f") d).0 ≡ err n)
unfolding construct
unread d = (13, refl)

-- A connection that ends every call in OK.
abbrev pub willing : Streams Disk Disk
willing = record {
  start = λ d. d;
  send = λ m w. (true, w);
  close = λ w. (ok, w);
  fetch = λ path d. (([], ok), d);
}

put_file_unread_example :
    (rpc_put_file denied willing (text "/c") (text "/f") server client).0 ≡ pos 1
put_file_unread_example =
    put_file_unread denied willing (text "/c") (text "/f") server client unread (λ w. refl)
