-- ===== src/Tests/Copy.antt =====
-- `cp` on a disk in memory.
use client_server_file_syste.Base.{
  ℕ, ◌≡◌, refl, [], ◌∷◌, Bytes, text, take_all, length, arith, ◌++◌, ap, sym, ◌∙◌, ◌==◌,
  if◌then◌else◌,
}
use client_server_file_syste.Sys.{ret}
use client_server_file_syste.Sys.Writing.{write_at-length}
use client_server_file_syste.Sys.Memory.{Disk, memory, memory_calls}
use client_server_file_syste.Sys.Memory.Assoc.{Names}
use client_server_file_syste.Client.Copy.{copy_loop}
use client_server_file_syste.Client.Copy.Exact.{IsCopying, copy_loop_lem}
use client_server_file_syste.Tests.Transfer.{client}

-- File 4 is the source, file 9 the target.
abbrev pub held : Disk → ℕ → Bytes
held d i = d.files i

-- The names when both files are open, which a copy keeps.
abbrev pub names : Names
names = (text "/c/f.temp.12", 9) ∷ (text "/c/g", 8) ∷ (text "/c/f", 4) ∷ []

abbrev pub Named : Disk → Type 0
Named d = d.names ≡ names

pub memory-IsCopying : IsCopying memory 4 9 held Named
unfolding memory_calls
memory-IsCopying = record {
  pread = λ d n off g. refl;
  taken = λ d bytes off. length bytes;
  pwrite = λ d bytes off g some' at'. (
    refl,
    some',
    omega arith,
    write_at-length off bytes (d.files 9) at'
        ∙ ap (◌++◌ (d.files 9)) (sym (take_all (length bytes) bytes (omega arith))),
    refl,
    g,
  );
}

abbrev disk : Disk
disk = record client { names = names; files = λ i. if i == 4 then text "new text" else [] }

copy_loop_lem_example :
    (d' : Disk) × (copy_loop memory 9 9 4 9 0 disk ≡ (ret tt, d'))
    × (d'.files 9 ≡ text "new text")
    × (d'.files 4 ≡ text "new text")
    × Named d'
copy_loop_lem_example =
    copy_loop_lem memory 4 9 held Named memory-IsCopying 9 disk refl refl (omega arith)
