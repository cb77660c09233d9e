-- ===== src/Bench.antt =====
-- AFS/bench.cpp: the benchmark, which writes, reads and opens files of a mounted file system and
-- keeps the shortest times. A time is a number of nanoseconds here, not a rounded number of
-- milliseconds.
pub mod Runs
pub mod Words
pub mod Reads
pub mod Kept
use client_server_file_syste.Base.{
  ℕ, zero, suc, ◌+◌, ◌-◌, ◌*◌, ◌%◌, min, Bool, true, false, Option, none, some, List, [], ◌∷◌, ◌++◌,
  Bytes, text, to_string, length, ltb, ◌==◌, if◌then◌else◌,
}
use client_server_file_syste.Base.Int.{ℤ, pos, negsuc}
use client_server_file_syste.Base.Number.{stoi}
use client_server_file_syste.Sys.{Os, Sys, ret, err, Time}

-- `file_sizes`
abbrev pub file_sizes : List ℕ
file_sizes = 1024 ∷ 10240 ∷ 102400 ∷ 512000 ∷ 1048576 ∷ 5242880 ∷ 10485760 ∷ []

abbrev pub num_runs : ℕ
num_runs = 3

-- `struct time_statistics`
pub record Statistics : Type 0 where
  pub file_size : ℕ
  pub create_time : ℕ
  pub write_time : ℕ
  pub close_time : ℕ
  pub first_open_time : ℕ
  pub cached_open_time : ℕ
  pub read_time : ℕ
  pub close_without_write_time : ℕ
  pub unlink_time : ℕ

-- An element of `vector<struct time_statistics>(max_File_Size)`.
abbrev pub no_statistics : Statistics
no_statistics = record {
  file_size = 0;
  create_time = 0;
  write_time = 0;
  close_time = 0;
  first_open_time = 0;
  cached_open_time = 0;
  read_time = 0;
  close_without_write_time = 0;
  unlink_time = 0;
}

-- `get_time_diff`; the clock does not go back.
abbrev pub get_time_diff : Time → Time → ℕ
get_time_diff before after =
    (after.sec * 1000000000 + after.nsec) - (before.sec * 1000000000 + before.nsec)

-- The time of this run, if it is the first one, or else the shorter one.
abbrev pub keep_shortest : ℕ → ℕ → ℕ → ℕ
keep_shortest run kept time = if run == 0 then time else min kept time

-- A positive number of processes, up to 50; `atoi` of no number is 0.
unfoldable pub num_processes : List Bytes → ℕ
num_processes (_ ∷ arg ∷ _) = elim (stoi arg) [
  | none ↦ 1
  | some n ↦ elim n [ negsuc _ ↦ 1 | pos k ↦ if ltb 0 k then (if ltb k 50 then k else 50) else 1 ]
]
num_processes _ = 1

-- `userIds[i]`
unfoldable pub user_id : ℕ → ℕ → Bytes
user_id i rand = to_string i ++ (text "_" ++ to_string (rand % 1000))

abbrev pub test_file : Bytes → ℕ → Bytes
test_file folder size = folder ++ (text "testFile_" ++ (to_string size ++ text ".txt"))

-- `res` added to `num_bytes_read`, where -1 is `err`.
abbrev pub add_result : ℤ → Sys Bytes → ℤ
add_result (pos n) (ret bytes) = pos (n + length bytes)
add_result (negsuc n) (ret bytes) =
    if ltb n (length bytes) then pos (length bytes - (n + 1)) else negsuc (n - length bytes)
add_result (pos zero) (err _) = negsuc 0
add_result (pos (suc n)) (err _) = pos n
add_result (negsuc n) (err _) = negsuc (suc n)

abbrev pub less_than : ℤ → ℕ → Bool
less_than (pos n) size = ltb n size
less_than (negsuc _) size = true

-- `buf_size`; O_CREAT | O_WRONLY; O_RDONLY; EINVAL
abbrev pub buf_size : ℕ
buf_size = 131072

abbrev pub o_creat_wronly : ℕ
o_creat_wronly = 65

abbrev einval : ℕ
einval = 22

module _ (os : Os) where
  -- `pread` at an offset that may be negative.
  abbrev pub pread_at : ℕ → ℤ → os.Disk → Sys Bytes
  pread_at fd (pos off) d = os.pread d fd buf_size off
  pread_at fd (negsuc _) d = err einval

  -- `while (num_bytes_read < file_size)`, on fuel; `cur_offset` is the same number. `none` is a
  -- loop that still runs.
  unfoldable pub read_loop : ℕ → ℕ → ℕ → ℤ → os.Disk → Option ℤ
  read_loop zero fd file_size num d = if less_than num file_size then none else some num
  read_loop (suc fuel) fd file_size num d = elim (less_than num file_size) [
    | false ↦ some num
    | true ↦ read_loop fuel fd file_size (add_result num (pread_at fd num d)) d
  ]

  -- The loop over the chunks; the results of `pwrite` are not looked at.
  unfoldable pub write_chunks : ℕ → List Bytes → ℕ → os.Disk → os.Disk
  write_chunks fd [] off d = d
  write_chunks fd (chunk ∷ chunks) off d =
      write_chunks fd chunks (off + length chunk) (os.pwrite d fd chunk off).1

  -- "Create, write test": one file. `clock` gives what the calls of `get_time` read, in order.
  -- The mode of `open` is missing in the source: it is what stands there.
  unfoldable pub create_test :
      (ℕ → Time) → ℕ → ℕ → Bytes → ℕ × List Bytes → Statistics → os.Disk → Statistics × os.Disk
  create_test clock run mode folder (size, chunks) ts d =
      let (opened, d₁) = os.open_file d (test_file folder size) o_creat_wronly mode in
      elim opened [
        | err _ ↦ (ts, d₁)
        | ret fd ↦ (
          record ts {
            file_size = size;
            create_time = keep_shortest run ts.create_time (get_time_diff (clock 0) (clock 1));
            write_time = keep_shortest run ts.write_time (get_time_diff (clock 2) (clock 3));
            close_time = keep_shortest run ts.close_time (get_time_diff (clock 4) (clock 5));
          },
          (os.close (write_chunks fd chunks 0 d₁) fd).1,
        )
      ]

  -- "Cold Open, Read test": one file.
  unfoldable pub cold_test :
      ℕ → (ℕ → Time) → ℕ → Bytes → ℕ → Statistics → os.Disk → Option (Statistics × os.Disk)
  cold_test fuel clock run folder size ts d =
      let (opened, d₁) = os.open_file d (test_file folder size) 0 0 in
      elim opened [
        | err _ ↦ some (ts, d₁)
        | ret fd ↦ elim (read_loop fuel fd size (pos 0) d₁) [
          | none ↦ none
          | some _ ↦ some (
            record ts {
              first_open_time =
                  keep_shortest run ts.first_open_time (get_time_diff (clock 0) (clock 1));
              read_time = keep_shortest run ts.read_time (get_time_diff (clock 2) (clock 3));
              close_without_write_time =
                  keep_shortest run ts.close_without_write_time (get_time_diff (clock 4) (clock 5));
            },
            (os.close d₁ fd).1,
          )
        ]
      ]

  -- "Warm Open, Close test": one file. The call of `unlink` is commented out.
  unfoldable pub warm_test :
      (ℕ → Time) → ℕ → Bytes → ℕ → Statistics → os.Disk → Statistics × os.Disk
  warm_test clock run folder size ts d =
      let (opened, d₁) = os.open_file d (test_file folder size) 0 0 in
      elim opened [
        | err _ ↦ (ts, d₁)
        | ret fd ↦ (
          record ts {
            cached_open_time =
                keep_shortest run ts.cached_open_time (get_time_diff (clock 0) (clock 1));
            unlink_time = keep_shortest run ts.unlink_time (get_time_diff (clock 2) (clock 3));
          },
          (os.close d₁ fd).1,
        )
      ]
