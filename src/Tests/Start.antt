-- ===== src/Tests/Start.antt =====
-- The arguments of the two programs.
use client_server_file_syste.Base.{
  List, Bytes, ◌≡◌, refl, true, false, none, some, [], ◌∷◌, ◌++◌, text, arith, to_string, digits,
  find_last_of,
}
use client_server_file_syste.Base.Int.{pos, negsuc}
use client_server_file_syste.Base.Number.{stoi}
use client_server_file_syste.Sys.Memory.{Disk, memory, memory_calls}
use client_server_file_syste.Cache.{make_cache_folder}
use client_server_file_syste.Start.{
  Main, mounted, client_main, server_main, start_client, new_cache, ensure_folder,
}
use client_server_file_syste.Start.Arguments.{
  defaults, read_options, left_args, take_server, server_crash_site,
}
use client_server_file_syste.Start.Arguments.Position.{
  both_taken, last_server_ignored, wrong_argument_dropped,
}
use client_server_file_syste.Tests.Transfer.{client}

-- `afsfuse_client -f client/`
abbrev front : List Bytes
front = text "afsfuse_client" ∷ text "-f" ∷ text "client/" ∷ []

both_taken_example :
    (read_options (front ++ (text "--server=10.0.0.7:50051" ∷ text "--crash=2" ∷ []))
      ≡ some (record {
        server_passed = true;
        crash_passed = true;
        server_address = text "10.0.0.7:50051";
        crash_site = pos 2;
      }))
    × (left_args
          (record {
            server_passed = true;
            crash_passed = true;
            server_address = text "10.0.0.7:50051";
            crash_site = pos 2;
          })
          (front ++ (text "--server=10.0.0.7:50051" ∷ text "--crash=2" ∷ []))
        ≡ front)
unfolding to_string digits
both_taken_example = both_taken front (text "10.0.0.7:50051") 2 (omega arith) (omega arith)

-- The command of the README.
last_server_ignored_example :
    (read_options (front ++ (text "--server=10.0.0.7:50051" ∷ [])) ≡ some defaults)
    × (left_args defaults (front ++ (text "--server=10.0.0.7:50051" ∷ []))
        ≡ front ++ (text "--server=10.0.0.7:50051" ∷ []))
last_server_ignored_example =
    last_server_ignored (text "afsfuse_client" ∷ text "-f" ∷ []) (text "client/")
      (text "10.0.0.7:50051") (omega arith) refl

wrong_argument_dropped_example :
    (read_options (text "afsfuse_client" ∷ text "--server=h:1" ∷ text "client/" ∷ [])
      ≡ some (record defaults { server_passed = true; server_address = text "h:1" }))
    × (left_args
          (record defaults { server_passed = true; server_address = text "h:1" })
          (text "afsfuse_client" ∷ text "--server=h:1" ∷ text "client/" ∷ [])
        ≡ text "afsfuse_client" ∷ text "--server=h:1" ∷ [])
wrong_argument_dropped_example =
    wrong_argument_dropped (text "afsfuse_client" ∷ []) (text "h:1") (text "client/") (omega arith)
      refl

negative_number : stoi (text " -12x") ≡ some (negsuc 11)
unfolding stoi
negative_number = refl

no_int : stoi (text "2147483648") ≡ none
unfolding stoi
no_int = refl

abbrev run : Main × Disk
run =
    client_main memory (λ args. some (false, args)) (λ n. n) (text "/a/afsfuse_client")
      (text "afsfuse_client" ∷ text "--server=h:1" ∷ []) client

client_starts :
    (run.0
      ≡ mounted (record {
        args = text "afsfuse_client" ∷ [];
        server_address = text "h:1";
        crash_site = pos 0;
        cache = record { cached_root = text "/a/.cached"; temp_files = []; draws = λ n. n };
      }))
    × (run.1.dirs (text "/a/client") ≡ true)
    × (run.1.dirs (text "/a/.cached") ≡ true)
unfolding client_main read_options start_client left_args take_server new_cache find_last_of
    ensure_folder make_cache_folder memory_calls
client_starts = (refl, refl, refl)

server_starts :
    (server_main memory
      (text "/a/afsfuse_server")
      (text "afsfuse_server" ∷ text "--crash=4" ∷ [])
      client).0
    ≡ some (text "/a/server", pos 4)
unfolding server_main server_crash_site stoi find_last_of
server_starts = refl
