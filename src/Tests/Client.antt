-- ===== src/Tests/Client.antt =====
-- The cache and the end of a file on a disk in memory.
use client_server_file_syste.Base.{
  subst, sym, ap, ◌∙◌, ℕ, ◌≡◌, ◌⊎◌, refl, true, none, some, Option, [], ◌∷◌, Bytes, text, arith,
  ◌==◌, if◌then◌else◌, find, find_last_of, to_string,
}
use client_server_file_syste.Sys.{Stat, Time, zero_stat, ret}
use client_server_file_syste.Sys.Laws.{content, Same}
use client_server_file_syste.Sys.Memory.{
  Disk, put, memory, memory_calls, open_file, utimensat, stat, file_stat,
}
use client_server_file_syste.Sys.Memory.Assoc.{lookup}
use client_server_file_syste.Sys.Memory.Lawful.{memory_view, memory-IsStore}
use client_server_file_syste.Messages.{ok}
use client_server_file_syste.Stream.Reader.{stream_file, construct, read}
use client_server_file_syste.Stream.Writer.{new_writer, open_if_necessary, write, destruct}
use client_server_file_syste.Server.Attributes.{fill_stat}
use client_server_file_syste.Server.Download.{afsfuse_get_file}
use client_server_file_syste.Rpc.Retry.{retry}
use client_server_file_syste.Rpc.Calls.{Stub, rpc_getattr}
use client_server_file_syste.Sys.Contents.{Same-refl}
use client_server_file_syste.Rpc.Transfer.{rpc_get_file}
use client_server_file_syste.Cache.{Cache, is_temp_file, temp_path, fetch_file, is_cached}
use client_server_file_syste.Cache.Fresh.{SetsTimes, Answers, fetched_once}
use client_server_file_syste.Cache.{no_key, set_temp_file}
use client_server_file_syste.Client.{World, client_release}
use client_server_file_syste.Client.Names.{
  client_mkdir, client_rmdir, client_unlink, client_mknod, client_rename,
}
use client_server_file_syste.Client.Names.Unreached.{Local, unreached_names}
use client_server_file_syste.Client.Saved.{IsQuiet, saved_by_release}
use client_server_file_syste.Tests.Rpc.{down-IsDown, down}
use client_server_file_syste.Tests.Transfer.{client, server, streams}

open_file-rdonly : (d : Disk) (p : Bytes) → (open_file d p 0 0).1 ≡ d
unfolding open_file
open_file-rdonly d p = ground arith

pub memory-IsQuiet : IsQuiet memory memory_view
memory-IsQuiet = record {
  fdatasync = λ d fd. Same-refl memory_view d;
  close = λ d fd. Same-refl memory_view d;
  open_rdonly =
      λ d p. subst (Same memory_view d) (sym (open_file-rdonly d p)) (Same-refl memory_view d);
}

-- "/f" is open under the descriptor 9, and its temporary file has been written to.
abbrev written : World Disk Disk
written = record {
  server = server;
  disk = record client {
    names = (text "/c/f.temp.12", 9) ∷ (text "/c/f", 4) ∷ [];
    files = λ i. if i == 9 then text "new" else text "old";
  };
  cache = record {
    cached_root = text "/c";
    temp_files = (9, text "/c/f.temp.12") ∷ [];
    draws = λ n. n;
  };
  submitted = [];
}

saved_by_release_example :
    let (exit, w') = client_release memory down streams 1 (text "/f") (some 9) written in
    (content memory_view w'.disk (text "/c/f.temp.12") ≡ some (text "new"))
    ⊎ ((content memory_view w'.disk (text "/c/f.temp.12.recover") ≡ some (text "new"))
        ⊎ (content memory_view w'.disk (text "/c/f") ≡ some (text "new")))
unfolding memory_calls lookup is_temp_file temp_path
saved_by_release_example =
    saved_by_release memory memory_view memory-IsStore memory-IsQuiet down streams 1 (text "/f") 9
      written (text "new") refl (λ p. cc) refl

-- The server's file as `lstat` shows it.
abbrev remote : Stat
remote = record zero_stat { mode = 33188; mtim = record { sec = 5; nsec = 6 } }

abbrev steady : Stub Disk
steady = record down { getattr = λ m backoff s. ((ok, some (fill_stat remote)), s) }

steady-Answers :
    Answers memory steady streams
      (λ left. 77)
      (record { cached_root = text "/c"; temp_files = []; draws = λ n. n })
      (text "/f")
      remote
unfolding rpc_getattr retry
steady-Answers s = refl

utimensat_some :
    (d : Disk) (p : Bytes) (mtim : Time) (i : ℕ)
    → lookup p d.names ≡ some i
    → utimensat d p mtim ≡ (ret tt, record d { times = put d.times i mtim })
unfolding utimensat
utimensat_some d p mtim i e = ground (arith, e)

mtim-utimensat :
    (d d' : Disk) (p : Bytes) (mtim : Time) (st : Stat) (n : Option ℕ)
    → lookup p d.names ≡ n
    → utimensat d p mtim ≡ (ret tt, d')
    → stat d' p ≡ ret st
    → st.mtim ≡ mtim
unfolding utimensat stat
mtim-utimensat d d' p mtim st none e u l = absurd (ground (arith, e))
mtim-utimensat d d' p mtim st (some i) e u l =
    let now : Disk = record d { times = put d.times i mtim } in
    let q : now ≡ d' = ap (λ x. x.1) (sym (utimensat_some d p mtim i e) ∙ u) in
    let r : stat now p ≡ ret st = rw q l in
    let a : file_stat now i ≡ st = ground (arith, e, r) in
    let m : (file_stat now i).mtim ≡ mtim = ground arith in sym (ap (λ (x : Stat). x.mtim) a) ∙ m

memory-SetsTimes : SetsTimes memory
unfolding memory_calls
memory-SetsTimes d p atim mtim d' st u l = mtim-utimensat d d' p mtim st (lookup p d.names) refl u l

abbrev cache : Cache
cache = record { cached_root = text "/c"; temp_files = []; draws = λ n. n }

-- The client behind a fetch of "/f".
abbrev fetched : Disk
fetched =
    (memory.utimensat
      (rpc_get_file memory streams (λ left. 77) (text "/c") (text "/f") server client).2
      (text "/c/f") remote.atim remote.mtim).1

fetched_once_example :
    let kept = (fetch_file memory steady streams (λ left. 77) cache (text "/f") server client).1 in
    ((is_cached memory steady streams (λ left. 77) cache (text "/f") server kept).0 ≡ true)
    × ((is_cached memory steady streams (λ left. 77) cache (text "/f") server kept).2 ≡ kept)
unfolding memory_calls lookup rpc_get_file stream_file construct read afsfuse_get_file new_writer
    open_if_necessary write destruct find find_last_of to_string
fetched_once_example =
    fetched_once memory steady streams (λ left. 77) cache (text "/f") remote
      (record remote { nlink = 1; size = 3; ino = 5 }) server server client fetched memory-SetsTimes
      steady-Answers refl refl

-- The name that an open that failed has noted for the descriptor -1 is not the one that is found.
minus_one_renamed :
    let c = set_temp_file no_key (text "/c/g.temp.3") cache in
    (is_temp_file no_key c ≡ true) × (temp_path c no_key ≡ text "/c.temp.0")
unfolding set_temp_file is_temp_file temp_path to_string
minus_one_renamed = (refl, refl)

unreached_names_example :
    let p = text "/c/f" in
    Local memory down
      (client_mkdir memory down (text "/f") 493 written)
      (memory.mkdir written.disk p 493)
    × Local memory down (client_rmdir memory down (text "/f") written) (memory.rmdir written.disk p)
    × Local memory down
        (client_unlink memory down (text "/f") written)
        (memory.unlink written.disk p)
    × Local memory down
        (client_mknod memory down (text "/f") 493 0 written)
        (memory.mknod written.disk p 493 0)
    × ((client_rename memory down (text "/f") (text "/g") 0 written).1.disk
        ≡ (memory.rename written.disk p (text "/c/g")).1)
unreached_names_example =
    unreached_names memory down (text "/f") (text "/g") 493 0 0 written down-IsDown
