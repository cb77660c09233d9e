-- ===== src/Tests/Open.antt =====
-- A file that a program opens, on a disk in memory.
use client_server_file_syste.Base.{◌≡◌, refl, ap, some, [], ◌∷◌, Bytes, text, arith}
use client_server_file_syste.Sys.{ret, Stat}
use client_server_file_syste.Sys.Laws.{Same}
use client_server_file_syste.Sys.Memory.{Disk, memory, memory_calls, stat, open_file, file_stat}
use client_server_file_syste.Sys.Memory.Assoc.{lookup}
use client_server_file_syste.Sys.Memory.Lawful.{memory_view}
use client_server_file_syste.Client.{World}
use client_server_file_syste.Client.Open.Copied.{CanCopy}
use client_server_file_syste.Tests.Transfer.{client, server}
use client_server_file_syste.Tests.Copy.{names, Named, memory-IsCopying}

abbrev pub idle : World Disk Disk
idle = record {
  server = server;
  disk = record client { names = (text "/c/g", 8) ∷ (text "/c/f", 4) ∷ [] };
  cache = record { cached_root = text "/c"; temp_files = []; draws = λ n. n };
  submitted = [];
}

abbrev pub temp : Bytes
temp = text "/c/f.temp.12"

abbrev NamesKept : Disk → Type 0
NamesKept e = (q : Bytes) → lookup q e.names ≡ lookup q names

looks : (e : Disk) → NamesKept e → (st : Stat) × (stat e (text "/c/f") ≡ ret st)
unfolding stat lookup
looks e kept = (file_stat e 4, ground (arith, kept (text "/c/f")))

opens :
    (e : Disk)
    → NamesKept e
    → ((open_file e temp 2 0).0 ≡ ret 9) × Same memory_view e (open_file e temp 2 0).1
unfolding open_file lookup
opens e kept =
    let there : lookup temp e.names ≡ some 9 = kept temp in
    rw (open_file, there)
      (
        refl,
        record { names = λ q. refl; bytes = λ i. refl; helds = λ h. refl; targets = λ h. refl },
      )

pub can_copy : CanCopy memory memory_view (text "/c/f") temp 2 9 idle.disk (text "new text")
unfolding memory_calls lookup
can_copy = record {
  from = 4;
  to = 9;
  valid = omega arith;
  inode = λ e k. k;
  Good = Named;
  named = λ e g. ap (lookup temp) g;
  copying = memory-IsCopying;
  shown = refl;
  source = refl;
  target = refl;
  good = refl;
  empty = refl;
  whole = refl;
  kept = λ e g q. ap (lookup q) g;
  looks = looks;
  opens = opens;
}
