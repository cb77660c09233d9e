-- ===== src/Sys.antt =====
-- The operating system as the program calls it: an interface over an unknown state. `Disk` is
-- what one machine keeps (files, open descriptors, clock). Each call names the result that the
-- code looks at; a call that fails gives the `errno` that it sets.
pub mod Laws
pub mod Contents
pub mod Memory
pub mod Reading
pub mod Writing
pub mod Back
use client_server_file_syste.Base.{ℕ, ◌/◌, ◌%◌, ◌≡◌, refl, ◌⊎◌, inl, inr, Bool, List, Bytes, ◌==◌}

-- -1 with `errno`, or a value.
pub data Sys {ℓ} (A : Type ℓ) : Type ℓ where
  ret : A → Sys A
  err : ℕ → Sys A

pub Sys-cases {ℓ} : {A : Type ℓ} (r : Sys A) → ((e : ℕ) × (r ≡ err e)) ⊎ ((a : A) × (r ≡ ret a))
Sys-cases (err e) = inl (e, refl)
Sys-cases (ret a) = inr (a, refl)

-- A call that returns, or that ends the process by `raise(SIGSEGV)` at a crash site.
pub data Exit {ℓ} (A : Type ℓ) : Type ℓ where
  returned : A → Exit A
  killed : Exit A

-- `struct timespec`, since the epoch or since boot; `tv_nsec` is below 1000000000.
pub record Time : Type 0 where
  pub sec : ℕ
  pub nsec : ℕ

-- `struct stat`, the fields that the program reads or writes. `st_atime` is `st_atim.tv_sec`.
pub record Stat : Type 0 where
  pub ino : ℕ
  pub mode : ℕ
  pub nlink : ℕ
  pub uid : ℕ
  pub gid : ℕ
  pub size : ℕ
  pub blksize : ℕ
  pub blocks : ℕ
  pub atim : Time
  pub mtim : Time
  pub ctim : Time

abbrev pub zero_time : Time
zero_time = record { sec = 0; nsec = 0 }

-- `memset(&st, 0, sizeof st)`
abbrev pub zero_stat : Stat
zero_stat = record {
  ino = 0;
  mode = 0;
  nlink = 0;
  uid = 0;
  gid = 0;
  size = 0;
  blksize = 0;
  blocks = 0;
  atim = zero_time;
  mtim = zero_time;
  ctim = zero_time;
}

-- `S_IFMT`, shifted down: bits 12 to 15.
abbrev pub file_type : ℕ → ℕ
file_type mode = mode / 4096 % 16

abbrev pub is_dir : ℕ → Bool
is_dir mode = file_type mode == 4

abbrev pub is_reg : ℕ → Bool
is_reg mode = file_type mode == 8

abbrev pub is_fifo : ℕ → Bool
is_fifo mode = file_type mode == 1

-- `struct dirent`
pub record Entry : Type 0 where
  pub ino : ℕ
  pub name : Bytes
  pub type : ℕ

pub record Os : Type 1 where
  pub Disk : Type 0
  pub stat : Disk → Bytes → Sys Stat
  pub lstat : Disk → Bytes → Sys Stat
  pub fstat : Disk → ℕ → Sys Stat
  -- `opendir`, and `readdir` up to NULL.
  pub read_dir : Disk → Bytes → Sys (List Entry)
  -- Path, flags, mode.
  pub open_file : Disk → Bytes → ℕ → ℕ → Sys ℕ × Disk
  pub close : Disk → ℕ → Sys (Unit {0}) × Disk
  -- Descriptor, size, offset.
  pub pread : Disk → ℕ → ℕ → ℕ → Sys Bytes
  -- Descriptor, bytes, offset.
  pub pwrite : Disk → ℕ → Bytes → ℕ → Sys ℕ × Disk
  pub fsync : Disk → ℕ → Sys (Unit {0}) × Disk
  pub fdatasync : Disk → ℕ → Sys (Unit {0}) × Disk
  pub mkdir : Disk → Bytes → ℕ → Sys (Unit {0}) × Disk
  pub rmdir : Disk → Bytes → Sys (Unit {0}) × Disk
  pub unlink : Disk → Bytes → Sys (Unit {0}) × Disk
  pub rename : Disk → Bytes → Bytes → Sys (Unit {0}) × Disk
  pub mkfifo : Disk → Bytes → ℕ → Sys (Unit {0}) × Disk
  -- Path, mode, device.
  pub mknod : Disk → Bytes → ℕ → ℕ → Sys (Unit {0}) × Disk
  -- Path, access time, modification time; without following a link.
  pub utimensat : Disk → Bytes → Time → Time → Sys (Unit {0}) × Disk
  -- The bytes that `mmap` of this many bytes of the descriptor's file shows.
  pub mmap : Disk → ℕ → ℕ → Sys Bytes
  -- The answer of `posix_madvise`.
  pub madvise : Disk → Sys (Unit {0})
  -- `clock_gettime(CLOCK_MONOTONIC, ..)`
  pub monotonic : Disk → Time
  -- `system(command)`: whether the result is 0; `errno` after it is the failed result's.
  pub system : Disk → Bytes → Sys (Unit {0}) × Disk
  -- `std::ofstream`: `open` with `out | trunc | binary`, `<<`, and `close`, by the stream's handle.
  pub out_open : Disk → Bytes → Sys ℕ × Disk
  pub out_write : Disk → ℕ → Bytes → Sys (Unit {0}) × Disk
  pub out_close : Disk → ℕ → Disk
  -- `std::remove`, whose result is not looked at.
  pub remove : Disk → Bytes → Disk
