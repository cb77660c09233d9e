-- ===== src/Sys/Memory.antt =====
-- A disk in memory. It meets the laws of `IsStore`, and it runs in tests. A file is a number, an
-- output stream is the number of its file, and all that a stream is given stays in its buffer
-- until it is closed.
pub mod Assoc
pub mod Lawful
use client_server_file_syste.Base.{
  ℕ, suc, ◌+◌, ◌*◌, ◌/◌, ◌%◌, ◌≡◌, ◌≢◌, refl, ap, sym, ◌∙◌, Bool, true, false, ◌||◌, Option, none,
  some, [], ◌∷◌, ◌++◌, Bytes, bytes_eq, bytes_eq_iff, ltb, ◌==◌, if◌then◌else◌, take, drop, length,
  arith, append-nil, append_assoc,
}
use client_server_file_syste.Sys.{Os, Sys, ret, err, Stat, Time, zero_stat, zero_time}
use client_server_file_syste.Sys.Writing.{write_at}
use client_server_file_syste.Sys.Memory.Assoc.{Names, lookup, erase, fresh}

pub record Disk : Type 0 where
  pub names : Names
  pub dirs : Bytes → Bool
  pub files : ℕ → Bytes
  pub buffers : ℕ → Bytes
  pub times : ℕ → Time

abbrev pub update {ℓ} : {A : Type ℓ} → (Bytes → A) → Bytes → A → Bytes → A
update f p a q = if bytes_eq q p then a else f q

abbrev pub put {ℓ} : {A : Type ℓ} → (ℕ → A) → ℕ → A → ℕ → A
put f i a j = if j == i then a else f j

-- ENOENT, EEXIST, ENOTDIR
abbrev pub enoent : ℕ
enoent = 2

abbrev pub eexist : ℕ
eexist = 17

abbrev pub file_stat : Disk → ℕ → Stat
file_stat d i = record zero_stat {
  ino = i;
  mode = 33188;
  nlink = 1;
  size = length (d.files i);
  mtim = d.times i;
}

abbrev pub dir_stat : Stat
dir_stat = record zero_stat { mode = 16877; nlink = 2 }

unfoldable pub stat : Disk → Bytes → Sys Stat
stat d p = elim (lookup p d.names) [
  | some i ↦ ret (file_stat d i)
  | none ↦ if d.dirs p then ret dir_stat else err enoent
]

pub create : Disk → Bytes → ℕ × Disk
create d p =
    let i = fresh d.names in (i, record d { names = (p, i) ∷ d.names; files = put d.files i [] })

-- O_CREAT is 64.
unfoldable pub open_file : Disk → Bytes → ℕ → ℕ → Sys ℕ × Disk
unfolding create
open_file d p flags mode = elim (lookup p d.names) [
  | some i ↦ (ret i, d)
  | none ↦
      if flags / 64 % 2 == 1 then (let (i, d') = create d p in (ret i, d')) else (err enoent, d)
]

unfoldable pub mkdir : Disk → Bytes → ℕ → Sys (Unit {0}) × Disk
mkdir d p mode =
    if d.dirs p then (err eexist, d) else (ret tt, record d { dirs = update d.dirs p true })

unfoldable pub rmdir : Disk → Bytes → Sys (Unit {0}) × Disk
rmdir d p =
    if d.dirs p then (ret tt, record d { dirs = update d.dirs p false }) else (err enoent, d)

unfoldable pub unlink : Disk → Bytes → Sys (Unit {0}) × Disk
unlink d p = elim (lookup p d.names) [
  | none ↦ (err enoent, d)
  | some _ ↦ (ret tt, record d { names = erase p d.names })
]

unfoldable pub rename : Disk → Bytes → Bytes → Sys (Unit {0}) × Disk
rename d from to = elim (lookup from d.names) [
  | none ↦ (err enoent, d)
  | some i ↦ (ret tt, record d { names = (to, i) ∷ erase from d.names })
]

unfoldable pub mknod : Disk → Bytes → Sys (Unit {0}) × Disk
unfolding create
mknod d p = elim (lookup p d.names) [
  | some _ ↦ (err eexist, d)
  | none ↦ let (_, d') = create d p in (ret tt, d')
]

unfoldable pub utimensat : Disk → Bytes → Time → Sys (Unit {0}) × Disk
utimensat d p mtim = elim (lookup p d.names) [
  | none ↦ (err enoent, d)
  | some i ↦ (ret tt, record d { times = put d.times i mtim })
]

-- `mkdir -p PATH` and `rm PATH`
unfoldable pub system : Disk → Bytes → Sys (Unit {0}) × Disk
system d [] = (ret tt, d)
system d (c ∷ command) =
    if c == b'r'
    then (ret tt, record d { names = erase (drop 2 command) d.names })
    else (ret tt, record d { dirs = update d.dirs (drop 8 command) true })

-- Time goes on when a file is written.
abbrev tick : Time → Time
tick t = record { sec = t.sec; nsec = t.nsec + 1 }

unfoldable pub pwrite : Disk → ℕ → Bytes → ℕ → Sys ℕ × Disk
pwrite d i bytes off = (
  ret (length bytes),
  record d {
    files = put d.files i (write_at off bytes (d.files i));
    times = put d.times i (tick (d.times i));
  },
)

unfoldable pub out_open : Disk → Bytes → Sys ℕ × Disk
unfolding create
out_open d p = elim (lookup p d.names) [
  | some i ↦ (ret i, record d { files = put d.files i []; buffers = put d.buffers i [] })
  | none ↦ let (i, d') = create d p in (ret i, record d' { buffers = put d'.buffers i [] })
]

unfoldable pub out_write : Disk → ℕ → Bytes → Sys (Unit {0}) × Disk
out_write d h bytes = (ret tt, record d { buffers = put d.buffers h (d.buffers h ++ bytes) })

unfoldable pub out_close : Disk → ℕ → Disk
out_close d h = record d {
  files = put d.files h (d.files h ++ d.buffers h);
  buffers = put d.buffers h [];
}

unfoldable pub remove : Disk → Bytes → Disk
remove d p = record d { names = erase p d.names }

abbrev pub memory : Os
memory = record {
  Disk = Disk;
  stat = stat;
  lstat = stat;
  fstat = λ d i. ret (file_stat d i);
  read_dir = λ d p. if d.dirs p then ret [] else err enoent;
  open_file = open_file;
  close = λ d fd. (ret tt, d);
  pread = λ d fd n off. ret (take n (drop off (d.files fd)));
  pwrite = pwrite;
  fsync = λ d fd. (ret tt, d);
  fdatasync = λ d fd. (ret tt, d);
  mkdir = mkdir;
  rmdir = rmdir;
  unlink = unlink;
  rename = rename;
  mkfifo = λ d p mode. mknod d p;
  mknod = λ d p mode dev. mknod d p;
  utimensat = λ d p atim mtim. utimensat d p mtim;
  mmap = λ d fd n. ret (take n (d.files fd));
  madvise = λ d. ret tt;
  monotonic = λ d. record { sec = fresh d.names; nsec = 7 };
  system = system;
  out_open = out_open;
  out_write = out_write;
  out_close = out_close;
  remove = remove;
}

-- For tests: to unfold this is to unfold the calls.
unfoldable pub memory_calls : Unit {0}
unfolding lookup erase fresh stat open_file mkdir rmdir unlink rename mknod utimensat system pwrite
    out_open out_write out_close remove
memory_calls = tt
