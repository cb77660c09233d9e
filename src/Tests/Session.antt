-- ===== src/Tests/Session.antt =====
-- A program that writes twice to a file and closes it, on a disk in memory.
use client_server_file_syste.Base.{
  ℕ, ◌≡◌, refl, inr, some, [], ◌∷◌, List, Bytes, text, find, length, to_string, digits, arith,
  take_all,
}
use client_server_file_syste.Base.Int.{pos}
use client_server_file_syste.Sys.{ret}
use client_server_file_syste.Sys.Laws.{content}
use client_server_file_syste.Sys.Writing.{Overwritten}
use client_server_file_syste.Sys.Memory.{Disk, memory, memory_calls}
use client_server_file_syste.Sys.Memory.Assoc.{lookup}
use client_server_file_syste.Sys.Memory.Lawful.{memory_view, memory-IsStore}
use client_server_file_syste.Rpc.Calls.{rpc_getattr}
use client_server_file_syste.Rpc.Retry.{retry}
use client_server_file_syste.Cache.{is_temp_file, temp_path, new_temp_path}
use client_server_file_syste.Client.{is_file_modified, client_release}
use client_server_file_syste.Client.Files.{client_write, descriptor}
use client_server_file_syste.Client.Recover.Restart.{again_if_killed}
use client_server_file_syste.Client.Session.{Request, write_each, believed_all, WritesAt}
use client_server_file_syste.Client.Session.Closed.{session_kept}
use client_server_file_syste.Tests.Rpc.{down}
use client_server_file_syste.Tests.Transfer.{streams}
use client_server_file_syste.Tests.Client.{memory-IsQuiet}
use client_server_file_syste.Tests.Recover.{memory-RenamesAll, dirty}

pub memory-WritesAt : WritesAt memory memory_view 9 (λ d. 9)
unfolding memory_calls
memory-WritesAt = record {
  pwrite-ret = written;
  pwrite-err = λ d bytes off e h. cc (h);
  pwrite-inode = λ d bytes off. refl;
  fdatasync-inode = λ d. refl;
}
  where
    written :
        (d : Disk) (p bytes : Bytes) (off n : ℕ)
        → lookup p d.names ≡ some 9
        → (memory.pwrite d 9 bytes off).0 ≡ ret n
        → Overwritten memory_view p off bytes n d (memory.pwrite d 9 bytes off).1
    written d p bytes off n named e =
        let count : n ≡ length bytes = cc (e) in
        record {
          within = omega (arith, count);
          found = inr (9, named);
          names = λ q. refl;
          target = λ i at. ground (arith, named, take_all n bytes (omega (arith, count)));
          others = λ i at. ground (arith, named);
        }

-- "new" becomes "nab", and then "nab..!".
abbrev pub writes : List Request
writes =
    (record { buf = text "ab"; offset = 1; rand = 95 })
    ∷ (record { buf = text "..!"; offset = 3; rand = 4 })
    ∷ []

believed_example :
    let (results, w) = write_each memory down streams (λ k. k) (text "/f") 9 writes dirty in
    (results ≡ pos 2 ∷ pos 3 ∷ []) × (believed_all writes results (text "new") ≡ text "nab..!")
unfolding write_each client_write descriptor memory_calls
believed_example = (refl, refl)

session_kept_example :
    let (results, w) = write_each memory down streams (λ k. k) (text "/f") 9 writes dirty in
    content memory_view
      (again_if_killed memory down streams 0
        (text "/c/f" ∷ text "/c/f.temp.12.recover" ∷ [])
        (client_release memory down streams 1 (text "/f") (some 9) w)).disk
      (text "/c/f")
    ≡ some (believed_all writes results (text "new"))
unfolding write_each client_write descriptor memory_calls lookup is_temp_file temp_path
    new_temp_path to_string digits find is_file_modified rpc_getattr retry
session_kept_example =
    session_kept memory memory_view memory-IsStore memory-RenamesAll memory-IsQuiet 9 (λ d. 9)
      memory-WritesAt down streams (λ k. k) writes 1 0 12 (text "/f") (text "new")
      (text "/c/f" ∷ []) [] dirty refl refl refl refl refl ((refl, refl), tt) tt refl (λ d. refl)
      (λ p. omega (arith, p))
