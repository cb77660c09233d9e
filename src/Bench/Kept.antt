-- ===== src/Bench/Kept.antt =====
-- The number of processes of the benchmark.
use client_server_file_syste.Base.{◌≤◌, ◌≡◌, refl, Option, none, some, List, [], ◌∷◌, Bytes, arith}
use client_server_file_syste.Base.Int.{ℤ, pos, negsuc}
use client_server_file_syste.Base.Number.{stoi}
use client_server_file_syste.Bench.{num_processes}

-- There are between 1 and 50 processes, whatever the arguments are.
num_processes_bounds : (argv : List Bytes) → (1 ≤ num_processes argv) × (num_processes argv ≤ 50)
unfolding num_processes
num_processes_bounds [] = (omega arith, omega arith)
num_processes_bounds (prog ∷ []) = (omega arith, omega arith)
num_processes_bounds (prog ∷ arg ∷ rest) = go (stoi arg) refl
  where
    go :
        (n : Option ℤ)
        → stoi arg ≡ n
        → (1 ≤ num_processes (prog ∷ arg ∷ rest)) × (num_processes (prog ∷ arg ∷ rest) ≤ 50)
    go none e = ground (arith, e)
    go (some (negsuc n)) e = ground (arith, e)
    go (some (pos n)) e = ground (arith, e)
