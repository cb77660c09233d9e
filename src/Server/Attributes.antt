-- ===== src/Server/Attributes.antt =====
-- AFS/afsfuse_server.cc: `afsfuse_getattr`, `afsfuse_readdir`, `afsfuse_utimens`.
use client_server_file_syste.Base.{ℕ, List, [], map, Bytes, ◌==◌, if◌then◌else◌}
use client_server_file_syste.Sys.{Os, ret, err, Exit, returned, killed, Stat, Entry}
use client_server_file_syste.Messages.{
  Code, ok, u32, sign_extend, StatReply, empty_stat, Dirent, UtimensRequest, OutputInfo, empty_info,
}
use client_server_file_syste.Server.Paths.{server_path}

-- The setters of `afsfuse_getattr`, with the widths of the fields.
abbrev pub fill_stat : Stat → StatReply
fill_stat st = record {
  ino = u32 st.ino;
  mode = u32 st.mode;
  nlink = u32 st.nlink;
  uid = u32 st.uid;
  gid = u32 st.gid;
  size = st.size;
  blksize = st.blksize;
  blocks = st.blocks;
  atime = u32 st.atim.sec;
  mtime = u32 st.mtim.sec;
  ctime = u32 st.ctim.sec;
  atimtvsec = st.atim.sec;
  atimtvnsec = st.atim.nsec;
  mtimtvsec = st.mtim.sec;
  mtimtvnsec = st.mtim.nsec;
  err = 0;
}

abbrev pub dirent : Entry → Dirent
dirent de = record { dino = u32 de.ino; dname = de.name; dtype = de.type; err = 0 }

module _ (os : Os) (root : Bytes) where
  unfoldable pub afsfuse_getattr : ℕ → Bytes → os.Disk → Exit (Code × StatReply)
  afsfuse_getattr crash_site s d =
      if crash_site == 1 then killed else elim (os.lstat d (server_path root s)) [
        | err e ↦ returned (ok, record empty_stat { err = e })
        | ret st ↦ returned (ok, fill_stat st)
      ]

  -- The messages written to the stream. That of a failed `opendir` is filled in and not written.
  unfoldable pub afsfuse_readdir : Bytes → os.Disk → Code × List Dirent
  afsfuse_readdir s d = elim (os.read_dir d (server_path root s)) [
    | err e ↦ (ok, [])
    | ret entries ↦ (ok, map dirent entries)
  ]

  unfoldable pub afsfuse_utimens : UtimensRequest → os.Disk → (Code × OutputInfo) × os.Disk
  afsfuse_utimens input d =
      let (res, d') =
        os.utimensat d (server_path root input.path)
          (record { sec = sign_extend input.sec; nsec = input.nsec })
          (record { sec = sign_extend input.sec2; nsec = input.nsec2 }) in
      elim res [
        | err e ↦ ((ok, record empty_info { err = e }), d')
        | ret _ ↦ ((ok, empty_info), d')
      ]
