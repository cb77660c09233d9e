-- ===== src/Start.antt =====
-- AFS/afsfuse_client.cc and AFS/afsfuse_server.cc: `main` of the two programs: the folders, the
-- arguments, and what the client hands to fuse.
pub mod Arguments
use client_server_file_syste.Base.{
  ℕ, Bool, true, false, Option, none, some, List, [], ◌∷◌, ◌++◌, Bytes, text, take, drop, prefix_to,
  find_last_of, c_string, if◌then◌else◌,
}
use client_server_file_syste.Base.Int.{ℤ}
use client_server_file_syste.Sys.{Os, ret, err}
use client_server_file_syste.Cache.{Cache, make_cache_folder}
use client_server_file_syste.Start.Arguments.{Options, read_options, left_args, server_crash_site}

-- `getCurrentWorkingDir`, by what `readlink` of `/proc/PID/exe` gives, which is cut at 1024 bytes.
abbrev pub current_working_dir : Bytes → Bytes
current_working_dir link =
    let path = c_string (take 1024 link) in prefix_to (find_last_of b'/' path) path

-- What fuse is given: its arguments, and the channel and the cache of the operations.
pub record Mount : Type 0 where
  pub args : List Bytes
  pub server_address : Bytes
  pub crash_site : ℤ
  pub cache : Cache

-- How `main` goes on: it ends by an exception of `stoi`, it returns 1, or it calls `fuse_main`.
pub data Main : Type 0 where
  aborted refused : Main
  mounted : Mount → Main

-- `fuse_opt_parse` with the options `-h` and `--help`, which is fuse's: -1, or `show_help` and
-- the arguments that it leaves.
abbrev pub OptParse : Type 0
OptParse = List Bytes → Option (Bool × List Bytes)

module _ (os : Os) where
  -- `if (stat(path) == 0) .. else mkdir(path, 0777)`
  unfoldable pub ensure_folder : Bytes → os.Disk → os.Disk
  ensure_folder path d = elim (os.stat d path) [ ret _ ↦ d | err _ ↦ (os.mkdir d path 511).1 ]

  -- The constructor of `Cache`. `draws` gives the calls of `rand()` to come.
  unfoldable pub new_cache : (ℕ → ℕ) → Bytes → Bytes → os.Disk → Cache × os.Disk
  new_cache draws current_work_dir cached_folder_name d =
      let c : Cache = record {
        cached_root = current_work_dir ++ (text "/" ++ cached_folder_name);
        temp_files = [];
        draws = draws;
      } in
      (c, make_cache_folder os c d)

  -- `main` of the client behind `fuse_opt_parse`. What that leaves, with "--help" behind it, is not
  -- handed on: `fuse_main` is given the arguments of `main`.
  unfoldable pub start_client : (ℕ → ℕ) → Bytes → Options → List Bytes → os.Disk → Main × os.Disk
  start_client draws root o argv d =
      let (c, d') = new_cache draws root (text ".cached") d in
      (
        mounted (record {
          args = argv;
          server_address = o.server_address;
          crash_site = o.crash_site;
          cache = c;
        }),
        ensure_folder (root ++ text "/client") d',
      )

  -- `main` of the client. The first argument is fuse's, the second the link to the program.
  unfoldable pub client_main : OptParse → (ℕ → ℕ) → Bytes → List Bytes → os.Disk → Main × os.Disk
  client_main opt_parse draws link argv d =
      let root = current_working_dir link in
      let d' = (os.system d (text "umount -f -l " ++ (root ++ text "/client"))).1 in
      elim (read_options argv) [
        | none ↦ (aborted, d')
        | some o ↦ elim (opt_parse (left_args o argv)) [
          | none ↦ (refused, d')
          | some _ ↦ start_client draws root o (left_args o argv) d'
        ]
      ]

  -- `main` of the server up to `RunServer`: `rootDir` and `crashSite`, unless `stoi` throws.
  unfoldable pub server_main : Bytes → List Bytes → os.Disk → Option (Bytes × ℤ) × os.Disk
  server_main link argv d =
      let root = current_working_dir link ++ (text "/" ++ text "server") in
      elim (server_crash_site argv) [
        | none ↦ (none, d)
        | some site ↦ (some (root, site), ensure_folder root d)
      ]
