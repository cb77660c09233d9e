-- ===== src/Tests/Recover.antt =====
-- A client that starts behind a crash, on a disk in memory.
use client_server_file_syste.Base.{
  ℕ, Option, none, arith, to_string, digits, ◌≡◌, ◌⊎◌, refl, some, [], ◌∷◌, text, find,
  bytes_eq_iff, ◌==◌, if◌then◌else◌,
}
use client_server_file_syste.Sys.Laws.{content}
use client_server_file_syste.Sys.Memory.{Disk, rename, memory, memory_calls}
use client_server_file_syste.Sys.Memory.Assoc.{lookup, lookup-erase}
use client_server_file_syste.Sys.Memory.Lawful.{memory_view, memory-IsStore}
use client_server_file_syste.Client.{World}
use client_server_file_syste.Client.Recover.{translate_path, recover_entry}
use client_server_file_syste.Client.Recover.Crash.{recovered}
use client_server_file_syste.Client.Recover.Shown.{RenamesAll}
use client_server_file_syste.Client.Recover.Restart.{
  start_again, again_if_killed, closed_or_recovered,
}
use client_server_file_syste.Client.Recover.Discard.{RemovesFiles, discarded}
use client_server_file_syste.Client.{is_file_modified, client_release}
use client_server_file_syste.Rpc.Calls.{rpc_getattr}
use client_server_file_syste.Rpc.Retry.{retry}
use client_server_file_syste.Cache.{is_temp_file, temp_path, new_temp_path}
use client_server_file_syste.Sys.{ret, err, killed}
use client_server_file_syste.Tests.Rpc.{down}
use client_server_file_syste.Tests.Transfer.{client, server, streams}
use client_server_file_syste.Tests.Client.{memory-IsQuiet}

abbrev crashed : World Disk Disk
crashed = record {
  server = server;
  disk = record client {
    names = (text "/c/f.temp.12.recover", 9) ∷ (text "/c/f", 4) ∷ [];
    files = λ i. if i == 9 then text "new" else text "old";
  };
  cache = record { cached_root = text "/c"; temp_files = []; draws = λ n. n };
  submitted = [];
}

names_the_file : translate_path (text "/c/f.temp.12.recover") ≡ text "/c/f"
unfolding find
names_the_file = refl

recovered_example :
    let d = (recover_entry memory down streams 0 (text "/c/f.temp.12.recover") crashed).disk in
    let p = text "/c/f.temp.12.recover" in
    let renamed = (memory.rename crashed.disk p (translate_path p)).0 in
    ((renamed ≡ ret tt) × (content memory_view d (translate_path p) ≡ some (text "new")))
    ⊎ ((e : ℕ) × (renamed ≡ err e) × (content memory_view d p ≡ some (text "new")))
unfolding find memory_calls lookup
recovered_example =
    recovered memory memory_view memory-IsStore memory-IsQuiet down streams 0
      (text "/c/f.temp.12.recover") (text "new") crashed refl refl

pub memory-RenamesAll : RenamesAll memory memory_view
unfolding rename
memory-RenamesAll d from to b h = go (lookup from d.names) refl
  where
    go : (n : Option ℕ) → lookup from d.names ≡ n → (rename d from to).0 ≡ ret tt
    go none e = absurd (ground (arith, e, h))
    go (some i) e = ground (arith, e)

-- "/f" has been written to under the descriptor 9, behind the time of the server's file.
abbrev pub dirty : World Disk Disk
dirty = record crashed {
  disk = record crashed.disk {
    names = (text "/c/f.temp.12", 9) ∷ (text "/c/f", 4) ∷ [];
    times = λ i. record { sec = 5; nsec = 8 };
  };
  cache = record {
    cached_root = text "/c";
    temp_files = (9, text "/c/f.temp.12") ∷ [];
    draws = λ n. n;
  };
}

closed_or_recovered_example :
    content memory_view
      (again_if_killed memory down streams 0
        (text "/c/f" ∷ text "/c/f.temp.12.recover" ∷ [])
        (client_release memory down streams 1 (text "/f") (some 9) dirty)).disk
      (text "/c/f")
    ≡ some (text "new")
unfolding memory_calls lookup is_temp_file temp_path new_temp_path to_string digits find
    is_file_modified rpc_getattr retry
closed_or_recovered_example =
    closed_or_recovered memory memory_view memory-IsStore memory-RenamesAll memory-IsQuiet down
      streams 1 0 9 12 (text "/f") (text "new") (text "/c/f" ∷ []) [] dirty refl refl refl
      ((refl, refl), tt) tt refl (λ d. refl) (λ p. omega (arith, p)) refl

memory-RemovesFiles : RemovesFiles memory memory_view
unfolding memory_calls
memory-RemovesFiles d p plain = (
  record {
    other_names = λ q ne. ground (arith, lookup-erase p q d.names, bytes_eq_iff q p);
    bytes = λ i. refl;
  },
  ground (arith, lookup-erase p p d.names, bytes_eq_iff p p),
)

discarded_example :
    let (exit, w') = client_release memory down streams 5 (text "/f") (some 9) dirty in
    let listing = text "/c/f" ∷ text "/c/f.temp.12" ∷ [] in
    (exit ≡ killed)
    × (content memory_view (start_again memory down streams 0 listing w').disk (text "/c/f.temp.12")
        ≡ none)
    × (content memory_view (start_again memory down streams 0 listing w').disk (text "/c/f")
        ≡ some (text "old"))
unfolding memory_calls lookup is_temp_file temp_path new_temp_path to_string digits find
    is_file_modified rpc_getattr retry
discarded_example =
    discarded memory memory_view memory-RemovesFiles down streams 0 9 12 (text "/f") (text "/c/f")
      (text "/c/f" ∷ []) [] dirty memory-IsQuiet refl refl refl refl refl ((refl, refl), tt) tt refl
      (λ p. cc)
