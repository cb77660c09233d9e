-- ===== src/Tests/Bench.antt =====
-- The benchmark on a disk in memory.
use client_server_file_syste.Base.Number.{stoi}
use client_server_file_syste.Base.{
  ℕ, ◌≤◌, ◌≡◌, refl, none, some, [], ◌∷◌, text, length, flatten, All, arith,
}
use client_server_file_syste.Base.Int.{pos}
use client_server_file_syste.Sys.Memory.{memory}
use client_server_file_syste.Bench.{num_processes, read_loop}
use client_server_file_syste.Bench.Words.{fill, get_random_text, IsChunk, get_random_text-IsChunk}
use client_server_file_syste.Bench.Reads.{Reads, read_loop_finishes, read_loop_runs_on}
use client_server_file_syste.Tests.Transfer.{client}

text_runs : fill (λ n. n) 3 24 99 ≡ text "yza"
unfolding fill
text_runs = refl

get_random_text-IsChunk_example :
    (length (flatten (get_random_text (λ n. n) 300000)) ≡ 300000)
    × All (IsChunk 131072) (get_random_text (λ n. n) 300000)
get_random_text-IsChunk_example = get_random_text-IsChunk (λ n. n) 300000

-- "/c/f" holds 8 bytes.
client-Reads : Reads memory client 4 (text "new text")
client-Reads n off = refl

read_loop_finishes_example :
    (m : ℕ) × (read_loop memory 5 4 5 (pos 0) client ≡ some (pos m)) × (5 ≤ m) × (m ≤ 8)
read_loop_finishes_example =
    read_loop_finishes memory client 4 (text "new text") client-Reads 5 (omega arith)

read_loop_runs_on_example : read_loop memory 1000 4 1024 (pos 0) client ≡ none
read_loop_runs_on_example =
    read_loop_runs_on memory client 4 (text "new text") client-Reads 1024 (omega arith) 1000

at_most_fifty : num_processes (text "bench" ∷ text "64" ∷ []) ≡ 50
unfolding num_processes stoi
at_most_fifty = refl
