-- ===== src/Bench/Runs.antt =====
-- AFS/bench.cpp: `benchmarkApplication`, which runs the tests of every file three times.
use client_server_file_syste.Base.{
  ℕ, zero, suc, ◌+◌, Option, none, some, List, [], ◌∷◌, ◌++◌, map, Bytes, text,
}
use client_server_file_syste.Sys.{Os, ret, err, Time}
use client_server_file_syste.Bench.{
  num_runs, Statistics, no_statistics, create_test, cold_test, warm_test,
}

module _ (os : Os) where
  unfoldable pub clear_directory : Bytes → os.Disk → os.Disk
  clear_directory directory d =
      (os.system (os.system d (text "rm -rf " ++ directory)).1 (text "mkdir " ++ directory)).1

  -- A test of every file; the first argument of the test is the index of the file.
  abbrev Test : Type 0
  Test = ℕ → ℕ × List Bytes → Statistics → os.Disk → Option (Statistics × os.Disk)

  each_file :
      Test
      → ℕ
      → List (ℕ × List Bytes)
      → List Statistics
      → os.Disk
      → Option (List Statistics × os.Disk)
  each_file test i (file ∷ files) (ts ∷ more) d = elim (test i file ts d) [
    | none ↦ none
    | some (ts', d') ↦ elim (each_file test (i + 1) files more d') [
      | none ↦ none
      | some (more', d'') ↦ some (ts' ∷ more', d'')
    ]
  ]
  each_file test i _ _ d = some ([], d)

  -- One run: the three tests, with the cached files removed behind the first. `clock` gives what
  -- `get_time` reads, by test and file; a `msleep` changes nothing.
  one_run :
      ℕ
      → (ℕ → ℕ → ℕ → Time)
      → ℕ
      → ℕ
      → Bytes
      → Bytes
      → List (ℕ × List Bytes)
      → List Statistics
      → os.Disk
      → Option (List Statistics × os.Disk)
  unfolding each_file
  one_run fuel clock run mode cached folder files ts d =
      elim (each_file (λ i file t e. some (create_test os (clock 0 i) run mode folder file t e)) 0
        files ts d) [
          | none ↦ none
          | some (ts₁, d₁) ↦
              let d₂ = (os.system d₁ (text "rm " ++ (cached ++ text "*"))).1 in
              elim (each_file (λ i file t e. cold_test os fuel (clock 1 i) run folder file.0 t e) 0
                files ts₁ d₂) [
                  | none ↦ none
                  | some (ts₂, d₃) ↦
                      each_file
                        (λ i file t e. some (warm_test os (clock 2 i) run folder file.0 t e)) 0
                        files ts₂ d₃
                ]
        ]

  -- `for (int run = 0; run < num_runs; run++)`: the first argument is the number of runs left.
  all_runs :
      ℕ
      → ℕ
      → ℕ
      → (ℕ → ℕ → ℕ → ℕ → Time)
      → ℕ
      → Bytes
      → Bytes
      → List (ℕ × List Bytes)
      → List Statistics
      → os.Disk
      → Option (List Statistics × os.Disk)
  unfolding one_run
  all_runs zero run fuel clock mode cached folder files ts d = some (ts, d)
  all_runs (suc left) run fuel clock mode cached folder files ts d =
      elim (one_run fuel (clock run) run mode cached folder files ts d) [
        | none ↦ none
        | some (ts', d') ↦ all_runs left (run + 1) fuel clock mode cached folder files ts' d'
      ]

  -- The folder of the user: emptied if it is there.
  abbrev user_folder : Bytes → os.Disk → os.Disk
  user_folder folder d = elim (os.lstat d folder) [
    | ret _ ↦ clear_directory folder d
    | err _ ↦ (os.mkdir d folder 511).1
  ]

  -- `benchmarkApplication`; `none` is a run that hangs in a loop that reads.
  unfoldable pub benchmark_application :
      ℕ
      → (ℕ → ℕ → ℕ → ℕ → Time)
      → ℕ
      → Bytes
      → List (ℕ × List Bytes)
      → os.Disk
      → Option (List Statistics × os.Disk)
  unfolding all_runs
  benchmark_application fuel clock mode user files d =
      let cached = text "./.cached/" ++ (user ++ text "/") in
      let folder = text "./client/" ++ (user ++ text "/") in
      elim (all_runs num_runs 0 fuel clock mode cached folder files (map (λ _. no_statistics) files)
        (user_folder folder d)) [
          | none ↦ none
          | some (ts, d') ↦ some (ts, clear_directory cached d')
        ]
