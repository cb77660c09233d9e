-- ===== src/Bench/Words.antt =====
-- AFS/bench.cpp: the text that the benchmark writes.
use native.Mathlib.Decide.{dec_lt}
use client_server_file_syste.Base.{
  ℕ, zero, suc, ◌+◌, ◌-◌, ◌%◌, ◌≤◌, ◌<◌, min, ◌≡◌, ◌∙◌, true, false, List, [], ◌∷◌, Bytes, length,
  flatten, length-append, All, ltb, arith,
}

-- The inner loop of `getRandomText`: the characters, of which the first argument is the number that
-- the chunk may still take. `rand n` is what `rand()` gives for the n-th character.
unfoldable pub fill : (ℕ → ℕ) → ℕ → ℕ → ℕ → Bytes
fill rand zero num_bytes_written file_size = []
fill rand (suc left) num_bytes_written file_size = elim (ltb num_bytes_written file_size) [
  | false ↦ []
  | true ↦ (rand num_bytes_written % 26 + b'a') ∷ fill rand left (num_bytes_written + 1) file_size
]

-- The outer loop, on fuel, for any size of a chunk.
unfoldable pub random_chunks : (ℕ → ℕ) → ℕ → ℕ → ℕ → ℕ → List Bytes
random_chunks rand chunk zero num_bytes_written file_size = []
random_chunks rand chunk (suc fuel) num_bytes_written file_size =
    elim (ltb num_bytes_written file_size) [
      | false ↦ []
      | true ↦
          let s = fill rand chunk num_bytes_written file_size in
          s ∷ random_chunks rand chunk fuel (num_bytes_written + length s) file_size
    ]

-- `getRandomText`. Each round takes at least one character.
unfoldable pub get_random_text : (ℕ → ℕ) → ℕ → List Bytes
get_random_text rand file_size = random_chunks rand 131072 file_size 0 file_size

abbrev pub IsLetter : ℕ → Type 0
IsLetter c = (b'a' ≤ c) × (c ≤ b'z')

fill_more :
    (rand : ℕ → ℕ) (left n size : ℕ)
    → n < size
    → fill rand (suc left) n size ≡ (rand n % 26 + b'a') ∷ fill rand left (n + 1) size
unfolding fill
fill_more rand left n size h = ground arith

fill_end : (rand : ℕ → ℕ) (left n size : ℕ) → size ≤ n → fill rand (suc left) n size ≡ []
unfolding fill
fill_end rand left n size h = ground arith

random_chunks_more :
    (rand : ℕ → ℕ) (chunk fuel n size : ℕ)
    → n < size
    → random_chunks rand chunk (suc fuel) n size
      ≡ fill rand chunk n size
        ∷ random_chunks rand chunk fuel (n + length (fill rand chunk n size)) size
unfolding random_chunks
random_chunks_more rand chunk fuel n size h = ground arith

random_chunks_end :
    (rand : ℕ → ℕ) (chunk fuel n size : ℕ)
    → size ≤ n
    → random_chunks rand chunk (suc fuel) n size ≡ []
unfolding random_chunks
random_chunks_end rand chunk fuel n size h = ground arith

length-fill :
    (rand : ℕ → ℕ) (left n size : ℕ)
    → n ≤ size
    → length (fill rand left n size) ≡ min left (size - n)
unfolding fill
length-fill rand zero n size h = omega arith
length-fill rand (suc left) n size h = elim (dec_lt n size) [
  | yes l ↦
      rw (fill_more rand left n size l)
        (omega (arith, l, length-fill rand left (n + 1) size (omega (arith, l))))
  | no l ↦ rw (fill_end rand left n size (omega (arith, l))) (omega (arith, h, l))
]

fill-letters : (rand : ℕ → ℕ) (left n size : ℕ) → All IsLetter (fill rand left n size)
unfolding fill
fill-letters rand zero n size = tt
fill-letters rand (suc left) n size = elim (dec_lt n size) [
  | yes l ↦
      rw (fill_more rand left n size l)
        ((omega arith, omega arith), fill-letters rand left (n + 1) size)
  | no l ↦ rw (fill_end rand left n size (omega (arith, l))) tt
]

-- A chunk is not empty, holds at most 131072 characters, and all of them are letters.
abbrev pub IsChunk : ℕ → Bytes → Type 0
IsChunk chunk s = (0 < length s) × (length s ≤ chunk) × All IsLetter s

random_chunks-IsChunk :
    (rand : ℕ → ℕ) (chunk fuel n size : ℕ)
    → 0 < chunk
    → n ≤ size
    → size - n ≤ fuel
    → (length (flatten (random_chunks rand chunk fuel n size)) ≡ size - n)
      × All (IsChunk chunk) (random_chunks rand chunk fuel n size)
unfolding random_chunks
random_chunks-IsChunk rand chunk zero n size c h f = (omega arith, tt)
random_chunks-IsChunk rand chunk (suc fuel) n size c h f = elim (dec_lt n size) [
  | no l ↦
      rw (random_chunks_end rand chunk fuel n size (omega (arith, l))) (omega (arith, h, l), tt)
  | yes l ↦
      let s = fill rand chunk n size in
      let k : length s ≡ min chunk (size - n) = length-fill rand chunk n size h in
      let (total, each) =
        random_chunks-IsChunk rand chunk fuel (n + length s) size c (omega (arith, k, l))
          (omega (arith, k, l, c, f)) in
      rw (random_chunks_more rand chunk fuel n size l) (
        length-append s (flatten (random_chunks rand chunk fuel (n + length s) size))
            ∙ omega (arith, total, k, l),
        ((omega (arith, k, l, c), omega (arith, k), fill-letters rand chunk n size), each),
      )
]

-- The text of the benchmark is as long as the file is to be, in chunks that are not empty, hold at
-- most 131072 characters, and hold only the letters from 'a' to 'z'.
pub get_random_text-IsChunk :
    (rand : ℕ → ℕ) (file_size : ℕ)
    → (length (flatten (get_random_text rand file_size)) ≡ file_size)
      × All (IsChunk 131072) (get_random_text rand file_size)
unfolding get_random_text
get_random_text-IsChunk rand file_size =
    let (total, each) =
      random_chunks-IsChunk rand 131072 file_size 0 file_size (omega arith) (omega arith)
        (omega arith) in
    (total ∙ omega arith, each)
