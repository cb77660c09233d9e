-- ===== src/Client/Open.antt =====
-- AFS/afsfuse_client.cc: `client_open`, which gives the program a temporary copy of the cached
-- file. Its debug level leaves out the second attempt to copy.
pub mod Copied
use client_server_file_syste.Base.{ℕ, ◌-◌, ◌^◌, true, false, Bytes}
use client_server_file_syste.Base.Int.{ℤ, pos}
use client_server_file_syste.Sys.{Os, Sys, ret, err}
use client_server_file_syste.Rpc.Calls.{Stub}
use client_server_file_syste.Rpc.Transfer.{Streams}
use client_server_file_syste.Cache.{
  no_key, cached_path, new_temp_path, set_temp_file, is_cached, cache_file,
}
use client_server_file_syste.Client.{World}
use client_server_file_syste.Client.Copy.{cp}

-- -1 as `unsigned long`, by its bit pattern.
abbrev pub no_fh : ℕ
no_fh = 2 ^ 64 - 1

module _ (os : Os) {S W : Type 0} (stub : Stub S) (streams : Streams S W) (rands : ℕ → ℕ) where
  -- The map takes the name also if `open` failed. The second component is `fi->fh`.
  unfoldable pub note_temp : Bytes → Sys ℕ → World S os.Disk → (ℤ × ℕ) × World S os.Disk
  note_temp temp (err _) w =
      ((pos 0, no_fh), record w { cache = set_temp_file no_key temp w.cache })
  note_temp temp (ret fd) w = ((pos 0, fd), record w { cache = set_temp_file fd temp w.cache })

  -- The file is in the cache; its temporary copy is made, given the same times, and opened.
  unfoldable pub open_copy : ℕ → Bytes → Bytes → ℕ → ℕ → World S os.Disk → (ℤ × ℕ) × World S os.Disk
  open_copy fuel path temp flags fh w =
      let (_, d₁) = cp os fuel temp (cached_path w.cache path) w.disk in
      elim (os.lstat d₁ (cached_path w.cache path)) [
        | err _ ↦ ((pos 0, fh), record w { disk = d₁ })
        | ret st ↦
            let (_, d₂) = os.utimensat d₁ temp st.atim st.mtim in
            let (opened, d₃) = os.open_file d₂ temp flags 0 in
            note_temp temp opened (record w { disk = d₃ })
      ]

  -- "Cache file" or its times, before the copy.
  unfoldable pub ensure_cached : Bytes → World S os.Disk → World S os.Disk
  ensure_cached path w =
      let (cached, s', d') = is_cached os stub streams rands w.cache path w.server w.disk in
      elim cached [
        | true ↦ record w { server = s'; disk = d' }
        | false ↦
            (let (s'', d'') = cache_file os stub streams rands w.cache path s' d' in
              record w { server = s''; disk = d'' })
      ]

  -- The fuel is that of `cp`, and `rand` names the copy. The result is 0 in every case.
  unfoldable pub client_open : ℕ → ℕ → Bytes → ℕ → ℕ → World S os.Disk → (ℤ × ℕ) × World S os.Disk
  unfolding ensure_cached
  client_open fuel rand path flags fh w =
      open_copy fuel path (new_temp_path w.cache path rand) flags fh (ensure_cached path w)
