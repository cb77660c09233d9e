-- ===== src/Bench/Reads.antt =====
-- When the loop of the benchmark that reads a file comes to an end.
use native.Mathlib.Decide.{dec_lt}
use client_server_file_syste.Base.{
  ℕ, zero, suc, ◌+◌, ◌-◌, ◌≤◌, ◌<◌, min, ◌≡◌, ap, ◌∙◌, none, some, Bytes, length, take, drop,
  length-take, length-drop, arith,
}
use client_server_file_syste.Base.Int.{ℤ, pos}
use client_server_file_syste.Sys.{Os, ret}
use client_server_file_syste.Bench.{buf_size, add_result, pread_at, read_loop}

-- `pread` of the descriptor gives what stands in the file, up to its end.
abbrev pub Reads : (os : Os) → os.Disk → ℕ → Bytes → Type 0
Reads os d fd file = (n off : ℕ) → os.pread d fd n off ≡ ret (take n (drop off file))

module _ (os : Os) (d : os.Disk) (fd : ℕ) (file : Bytes) (reads : Reads os d fd file)
    (size : ℕ) where
  -- One round: as much as the buffer takes of what is left.
  round :
      (n : ℕ)
      → add_result (pos n) (pread_at os fd (pos n) d) ≡ pos (n + min buf_size (length file - n))
  round n =
      ap (add_result (pos n)) (reads buf_size n)
      ∙ ap pos (omega (arith, length-take buf_size (drop n file), length-drop n file))

  read_loop_end : (fuel n : ℕ) → size ≤ n → read_loop os fuel fd size (pos n) d ≡ some (pos n)
  unfolding read_loop
  read_loop_end zero n h = ground arith
  read_loop_end (suc fuel) n h = ground arith

  read_loop_zero : (n : ℕ) → n < size → read_loop os 0 fd size (pos n) d ≡ none
  unfolding read_loop
  read_loop_zero n h = ground arith

  read_loop_more :
      (fuel n : ℕ)
      → n < size
      → read_loop os (suc fuel) fd size (pos n) d
        ≡ read_loop os fuel fd size (pos (n + min buf_size (length file - n))) d
  unfolding read_loop
  read_loop_more fuel n h =
      ground (arith, h) ∙ ap (λ (k : ℤ). read_loop os fuel fd size k d) (round n)

  read_loop_within :
      (fuel n : ℕ)
      → size ≤ length file
      → n ≤ length file
      → size - n ≤ fuel
      → (m : ℕ) × (read_loop os fuel fd size (pos n) d ≡ some (pos m))
        × (size ≤ m)
        × (m ≤ length file)
  read_loop_within zero n whole h f = (n, read_loop_end zero n (omega arith), omega arith, h)
  read_loop_within (suc fuel) n whole h f = elim (dec_lt n size) [
    | no l ↦ (n, read_loop_end (suc fuel) n (omega (arith, l)), omega (arith, l), h)
    | yes l ↦
        let (m, e, least, most) =
          read_loop_within fuel (n + min buf_size (length file - n)) whole (omega (arith, h))
            (omega (arith, l, whole, f)) in
        (m, read_loop_more fuel n l ∙ e, least, most)
  ]

  read_loop_over :
      (fuel n : ℕ)
      → length file < size
      → n ≤ length file
      → read_loop os fuel fd size (pos n) d ≡ none
  read_loop_over zero n short h = read_loop_zero n (omega arith)
  read_loop_over (suc fuel) n short h =
      read_loop_more fuel n (omega arith)
      ∙ read_loop_over fuel (n + min buf_size (length file - n)) short (omega (arith, h))

  -- From a descriptor whose `pread` gives what stands in the file, and a file of at least the
  -- expected size, the loop that reads a test file ends in at most that many rounds, having read
  -- at least that much and no more than the file.
  pub read_loop_finishes :
      size ≤ length file
      → (m : ℕ) × (read_loop os size fd size (pos 0) d ≡ some (pos m))
        × (size ≤ m)
        × (m ≤ length file)
  read_loop_finishes whole = read_loop_within size 0 whole (omega arith) (omega arith)

  -- From a descriptor whose `pread` gives what stands in the file, and a file that is shorter than
  -- expected, the loop that reads a test file never ends.
  pub read_loop_runs_on :
      length file < size → (fuel : ℕ) → read_loop os fuel fd size (pos 0) d ≡ none
  read_loop_runs_on short fuel = read_loop_over fuel 0 short (omega arith)
