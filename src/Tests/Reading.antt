-- ===== src/Tests/Reading.antt =====
-- The reader of files.
use client_server_file_syste.Base.{
  ◌≡◌, refl, Bool, true, List, [], ◌∷◌, ◌++◌, none, some, Bytes, text, arith, flatten, All, length,
  ◌≤◌,
}
use client_server_file_syste.Sys.{ret}
use client_server_file_syste.Messages.{FileContent}
use client_server_file_syste.Stream.Reader.{Reader, read}
use client_server_file_syste.Stream.Reader.Chunks.{send_each, read_lem}

-- A stream that takes every message.
abbrev append_part : FileContent → List Bytes → Bool × List Bytes
append_part m sent = (true, sent ++ (m.content ∷ []))

abbrev reader : Reader
reader = record {
  root_path = text "/s";
  file_path = text "/f";
  mapped = record { addr = some (text "abcdefg"); len = 7; fd = none };
  size = 7;
}

read_runs : read append_part reader 3 [] ≡ (ret tt, text "abc" ∷ text "def" ∷ text "g" ∷ [])
unfolding read
read_runs = refl

read_lem_example :
    (cs : List Bytes) × (read append_part reader 3 [] ≡ send_each append_part reader cs [])
    × (flatten cs ≡ text "abcdefg")
    × All (λ c. length c ≤ 3) cs
read_lem_example = read_lem append_part reader 3 [] refl (omega arith)
