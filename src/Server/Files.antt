-- ===== src/Server/Files.antt =====
-- AFS/afsfuse_server.cc: the handlers on one file: `afsfuse_open`, `afsfuse_read`,
-- `afsfuse_write`, `afsfuse_create`, with `doesPathExist` and `createPath`.
pub mod Slice
pub mod Written
use client_server_file_syste.Base.{
  ℕ, Bool, true, false, [], ◌∷◌, ◌++◌, Bytes, text, take, length, c_string, ◌==◌, if◌then◌else◌,
}
use client_server_file_syste.Sys.{Os, Sys, ret, err}
use client_server_file_syste.Messages.{
  Code, ok, sign_extend, FuseFileInfo, ReadRequest, ReadResult, WriteRequest, WriteResult,
  CreateRequest, CreateResult,
}
use client_server_file_syste.Server.Paths.{translate_path, server_path, parent}

abbrev pub o_rdonly : ℕ
o_rdonly = 0

abbrev pub o_wronly : ℕ
o_wronly = 1

module _ (os : Os) where
  unfoldable pub does_path_exist : Bytes → os.Disk → Bool
  does_path_exist path d = elim (os.stat d (parent path)) [ ret _ ↦ true | err _ ↦ false ]

  unfoldable pub create_path : Bytes → os.Disk → Sys (Unit {0}) × os.Disk
  create_path path d = os.system d (text "mkdir -p " ++ parent path)

module _ (os : Os) (root : Bytes) where
  unfoldable pub afsfuse_open : FuseFileInfo → os.Disk → (Code × FuseFileInfo) × os.Disk
  afsfuse_open fi d =
      let (res, d') = os.open_file d (server_path root fi.path) fi.flags 0 in
      elim res [
        | err e ↦ ((ok, record { flags = 0; fh = 0; err = e; path = [] }), d')
        | ret fh ↦ ((ok, record { flags = 0; fh = fh; err = 0; path = [] }), (os.close d' fh).1)
      ]

  -- `char path[512];` is not cleared: `stack` is the string that stands in it. `set_buffer(buf)`
  -- reads on to a zero byte: `heap` is the memory behind what `pread` wrote.
  unfoldable pub afsfuse_read :
      Bytes → Bytes → ReadRequest → os.Disk → (Code × ReadResult) × os.Disk
  afsfuse_read stack heap rr d =
      let (opened, d') = os.open_file d (translate_path root rr.path stack) o_rdonly 0 in
      elim opened [
        | err e ↦ ((ok, record { bytesread = 0; buffer = []; err = e }), d')
        | ret fd ↦ elim (os.pread d' fd rr.size rr.offset) [
          | err e ↦ ((ok, record { bytesread = 0; buffer = []; err = e }), d')
          | ret got ↦ (
            (ok, record { bytesread = length got; buffer = c_string (got ++ heap); err = 0 }),
            if fd == 0 then d' else (os.close d' fd).1,
          )
        ]
      ]

  -- `pwrite` takes `size` bytes from the message's buffer, its zero byte and what follows it.
  unfoldable pub afsfuse_write : Bytes → WriteRequest → os.Disk → (Code × WriteResult) × os.Disk
  afsfuse_write heap wr d =
      let (opened, d₁) = os.open_file d (server_path root wr.path) o_wronly 0 in
      elim opened [
        | err e ↦ ((ok, record { nbytes = 0; err = e }), d₁)
        | ret fd ↦
            let (res, d₂) =
              os.pwrite d₁ fd (take wr.size (wr.buffer ++ 0 ∷ heap)) (sign_extend wr.offset) in
            let (_, d₃) = os.fsync d₂ fd in
            elim res [
              | err e ↦ ((ok, record { nbytes = 0; err = e }), d₃)
              | ret n ↦
                  ((ok, record { nbytes = n; err = 0 }), if fd == 0 then d₃ else (os.close d₃ fd).1)
            ]
      ]

  -- The part of `afsfuse_create` behind the check of the directory.
  create_file : Bytes → CreateRequest → os.Disk → (Code × CreateResult) × os.Disk
  create_file path req d =
      let (opened, d₁) = os.open_file d path req.flags req.mode in
      elim opened [
        | err e ↦ ((ok, record { fh = 0; err = e }), d₁)
        | ret fh ↦
            let now = os.monotonic d₁ in
            let (_, d₂) = os.utimensat d₁ path now now in
            ((ok, record { fh = fh; err = 0 }), (os.close d₂ fh).1)
      ]

  unfoldable pub afsfuse_create : CreateRequest → os.Disk → (Code × CreateResult) × os.Disk
  unfolding create_file
  afsfuse_create req d =
      let path = server_path root req.path in
      if does_path_exist os path d
      then create_file path req d
      else (let (made, d') = create_path os path d in
          elim made [
            | err e ↦ ((ok, record { fh = 0; err = e }), d')
            | ret _ ↦ create_file path req d'
          ])
