-- ===== src/Start/Arguments.antt =====
-- AFS/afsfuse_client.cc, AFS/afsfuse_server.cc: how `main` reads its arguments.
pub mod Position
use client_server_file_syste.Base.{
  ℕ, ◌+◌, ◌-◌, Bool, true, false, Option, none, some, List, [], ◌∷◌, Bytes, text, starts_with, drop,
  take, get_or, length, ltb, if◌then◌else◌,
}
use mathlib.Core.Option
use client_server_file_syste.Base.Int.{ℤ, pos}
use client_server_file_syste.Base.Number.{stoi}

-- `argv[argc - k]`
abbrev pub from_end : ℕ → List Bytes → Bytes
from_end k argv = get_or argv (length argv - k) []

-- `isServerArgPassed`, `isCrashSiteArgPassed`, `server_address`, `crashSite`
pub record Options : Type 0 where
  pub server_passed : Bool
  pub crash_passed : Bool
  pub server_address : Bytes
  pub crash_site : ℤ

abbrev pub defaults : Options
defaults = record {
  server_passed = false;
  crash_passed = false;
  server_address = text "localhost:50051";
  crash_site = pos 0;
}

-- The literals `"--server="` and `"--crash="`.
abbrev pub server_option : Bytes
server_option = text "--server="

abbrev pub crash_option : Bytes
crash_option = text "--crash="

-- `arg.rfind("--server=", 0) == 0`
unfoldable pub take_server : Bytes → Options → Options
take_server arg o =
    if starts_with server_option arg
    then record o { server_passed = true; server_address = drop (length server_option) arg }
    else o

-- An exception of `stoi` is `none`.
unfoldable pub take_crash : Bytes → Options → Option Options
take_crash arg o =
    if starts_with crash_option arg
    then Option.map (λ n. record o { crash_passed = true; crash_site = n })
        (stoi (drop (length crash_option) arg))
    else some o

unfoldable pub read_options : List Bytes → Option Options
read_options argv =
    if ltb 2 (length argv)
    then take_crash (from_end 1 argv) (take_server (from_end 2 argv) defaults)
    else if ltb 1 (length argv)
    then some (take_server (from_end 1 argv) defaults)
    else some defaults

abbrev count : Bool → ℕ
count b = if b then 1 else 0

-- `FUSE_ARGS_INIT(argc, argv)`, where `argc` has been counted down once for each option.
unfoldable pub left_args : Options → List Bytes → List Bytes
left_args o argv = take (length argv - (count o.server_passed + count o.crash_passed)) argv

-- `crashSite` of the server; `none` is an exception.
unfoldable pub server_crash_site : List Bytes → Option ℤ
server_crash_site argv =
    if starts_with crash_option (from_end 1 argv)
    then stoi (drop (length crash_option) (from_end 1 argv))
    else some (pos 0)
