-- ===== src/Tests/Fetch.antt =====
-- A file that is fetched into the cache, on two disks in memory.
use client_server_file_syste.Base.{
  ℕ, ◌≤◌, ◌≡◌, ◌≢◌, ◌⊎◌, refl, none, some, Option, [], ◌++◌, Bytes, text, arith, length, take,
  length-take, ap,
}
use client_server_file_syste.Sys.Laws.{Delivered, content, Same}
use client_server_file_syste.Sys.Memory.{Disk, memory, rename, utimensat, open_file}
use client_server_file_syste.Sys.Memory.Assoc.{lookup}
use client_server_file_syste.Sys.Memory.Lawful.{memory_view, memory-IsStore}
use client_server_file_syste.Stream.Reader.{construct}
use client_server_file_syste.Stream.Reader.Chunks.{IsMapped}
use client_server_file_syste.Rpc.Transfer.{rpc_get_file, temp_name}
use client_server_file_syste.Rpc.Transfer.Get.{NeedsSource}
use client_server_file_syste.Rpc.Transfer.Get.Loop.{Distinct, Downloaded, get_file_Downloaded}
use client_server_file_syste.Rpc.Transfer.Get.Served.{IsDownload, MapsWhole, Served}
use client_server_file_syste.Cache.{Cache, fetch_file}
use client_server_file_syste.Cache.Fetched.{KeepsFiles, fetch_file-Served}
use client_server_file_syste.Tests.Rpc.{down}
use client_server_file_syste.Tests.Transfer.{client, server, streams}

memory-NeedsSource : NeedsSource memory memory_view
unfolding rename
memory-NeedsSource d from to free e = absurd (ground (arith, free, e))

pub memory-KeepsFiles : KeepsFiles memory memory_view
unfolding utimensat
memory-KeepsFiles d p atim mtim = go (lookup p d.names) refl
  where
    go : (n : Option ℕ) → lookup p d.names ≡ n → Same memory_view d (utimensat d p mtim).1
    go none e =
        rw (e, utimensat)
          (record { names = λ q. refl; bytes = λ j. refl; helds = λ h. refl; targets = λ h. refl })
    go (some i) e =
        rw (e, utimensat)
          (record { names = λ q. refl; bytes = λ j. refl; helds = λ h. refl; targets = λ h. refl })

memory-MapsWhole : (root : Bytes) → MapsWhole memory root
unfolding construct open_file
memory-MapsWhole root path d r e = go (lookup (root ++ path) d.names) refl
  where
    go : (n : Option ℕ) → lookup (root ++ path) d.names ≡ n → IsMapped r
    go none h = absurd (ground (arith, h, e))
    go (some i) h =
        let m : length (take (length (d.files i)) (d.files i)) ≡ length (d.files i) =
          omega (arith, length-take (length (d.files i)) (d.files i)) in
        ground (arith, h, e, m)

streams-IsDownload : IsDownload streams memory (text "/s") (λ d. d)
streams-IsDownload = record { fetch = λ path s parts e. (ap (λ x. x.1) e, ap (λ x. x.0) e) }

distinct : Distinct memory streams 11 (λ k. k)
distinct j k l m = λ e. omega (arith, l, m, e)

unnamed : (k : ℕ) → lookup (temp_name memory streams (text "/c/f") k) client.names ≡ none
unfolding lookup
unnamed k = refl

get_file_Downloaded_example :
    Downloaded memory memory_view memory-IsStore memory-NeedsSource streams
      (λ k. k)
      (text "/c")
      (text "/f")
      11
      client
      (rpc_get_file memory streams (λ k. k) (text "/c") (text "/f") server client)
get_file_Downloaded_example =
    get_file_Downloaded memory memory_view memory-IsStore memory-NeedsSource streams (λ k. k)
      (text "/c") (text "/f") server client distinct (λ k l. unnamed k)

abbrev cache : Cache
cache = record { cached_root = text "/c"; temp_files = []; draws = λ n. n }

fetch_file-Served_example :
    let d' = (fetch_file memory down streams (λ k. k) cache (text "/f") server client).1 in
    ((content memory_view d' (text "/c/f") ≡ content memory_view client (text "/c/f"))
      ⊎ ((s' : Disk) × (bytes : Bytes) × (d₁ : Disk) × Delivered memory_view (text "/c/f") bytes d₁
          × (content memory_view d' (text "/c/f") ≡ content memory_view d₁ (text "/c/f"))
          × Served memory (text "/s") (text "/f") s' bytes))
    × ((q : Bytes)
        → q ≢ text "/c/f"
        → ((k : ℕ) → k ≤ 11 → q ≢ temp_name memory streams (text "/c/f") k)
        → content memory_view d' q ≡ content memory_view client q)
fetch_file-Served_example =
    fetch_file-Served memory memory_view memory-IsStore memory-NeedsSource memory-KeepsFiles down
      streams memory (text "/s") (λ d. d) streams-IsDownload (memory-MapsWhole (text "/s")) (λ k. k)
      cache (text "/f") server client distinct (λ k l. unnamed k)
