-- ===== src/Stream/Reader.antt =====
-- AFS/sequential_file_reader.cc and AFS/file_reader_into_stream.h: a file is mapped into memory
-- and handed on in chunks, each of which becomes one message.
pub mod Chunks
pub mod Leak
pub mod Send
pub mod Sent
use client_server_file_syste.Base.{
  ℕ, zero, suc, ◌+◌, ◌-◌, min, Bool, true, false, Option, none, some, [], ◌++◌, Bytes, take, drop,
  ltb, ◌==◌, if◌then◌else◌,
}
use client_server_file_syste.Sys.{Os, Sys, ret, err}
use client_server_file_syste.Messages.{FileContent}

-- `MMapPtr`: the mapping that it holds, if any, and what its deleter was given.
pub record MMapPtr : Type 0 where
  pub addr : Option Bytes
  pub len : ℕ
  pub fd : Option ℕ

abbrev pub null_map : MMapPtr
null_map = record { addr = none; len = 0; fd = none }

pub record Reader : Type 0 where
  pub root_path : Bytes
  pub file_path : Bytes
  pub mapped : MMapPtr
  pub size : ℕ

abbrev pub o_rdonly : ℕ
o_rdonly = 0

-- `ECONNRESET`
abbrev pub econnreset : ℕ
econnreset = 104

module _ (os : Os) where
  -- `munmap` changes nothing on the disk.
  unmap_and_close : MMapPtr → os.Disk → os.Disk
  unmap_and_close p d = elim p.fd [ none ↦ d | some fd ↦ (os.close d fd).1 ]

  -- `~unique_ptr` and `reset`: the deleter runs only on a pointer that is not null.
  destroy : MMapPtr → os.Disk → os.Disk
  unfolding unmap_and_close
  destroy p d = elim p.addr [ none ↦ d | some _ ↦ unmap_and_close p d ]

  -- The constructor behind `fstat`, for a file with bytes; the assignment to `mmap_p` resets the
  -- pointer that held the descriptor.
  map_file : Reader → ℕ → ℕ → os.Disk → Sys Reader × os.Disk
  unfolding destroy
  map_file r fd size d =
      let guard : MMapPtr = record { addr = none; len = 0; fd = some fd } in
      elim (os.mmap d fd size) [
        | err e ↦ (err e, destroy guard d)
        | ret bytes ↦
            let mapped : MMapPtr = record { addr = some bytes; len = size; fd = none } in
            let d' = destroy guard d in
            elim (os.madvise d') [
              | err e ↦ (err e, destroy mapped d')
              | ret _ ↦ (ret (record r { mapped = mapped }), d')
            ]
      ]

  -- The constructor; `err` is the `std::system_error` that it throws.
  unfoldable pub construct : Bytes → Bytes → os.Disk → Sys Reader × os.Disk
  unfolding map_file
  construct root file d =
      let (opened, d₁) = os.open_file d (root ++ file) o_rdonly 0 in
      elim opened [
        | err e ↦ (err e, d₁)
        | ret fd ↦
            let guard : MMapPtr = record { addr = none; len = 0; fd = some fd } in
            elim (os.fstat d₁ fd) [
              | err e ↦ (err e, destroy guard d₁)
              | ret st ↦
                  let r : Reader = record {
                    root_path = root;
                    file_path = file;
                    mapped = null_map;
                    size = st.size;
                  } in
                  if ltb 0 st.size then map_file r fd st.size d₁ else (ret r, destroy guard d₁)
            ]
      ]

  -- The destructor.
  unfoldable pub destruct : Reader → os.Disk → os.Disk
  unfolding destroy
  destruct r d = destroy r.mapped d

-- The mapped bytes; an empty file has none.
abbrev pub contents : Reader → Bytes
contents r = elim r.mapped.addr [ none ↦ [] | some bytes ↦ bytes ]

-- A stream writer: `Write` takes a message and says whether the stream still stands.
module _ {W : Type 0} (write : FileContent → W → Bool × W) where
  unfoldable pub on_chunk_available : Reader → Bytes → W → Sys (Unit {0}) × W
  on_chunk_available r bytes w =
      let (sent, w') = write (record { name = r.file_path; content = bytes }) w in
      if sent then (ret tt, w') else (err econnreset, w')

  -- The loop, on fuel. It makes progress while `max_chunk_size` is not 0.
  read_loop : ℕ → Reader → ℕ → ℕ → W → Sys (Unit {0}) × W
  read_loop zero r max_chunk_size bytes_read w = (ret tt, w)
  read_loop (suc fuel) r max_chunk_size bytes_read w = elim (ltb bytes_read r.size) [
    | false ↦ (ret tt, w)
    | true ↦
        let bytes_to_read = min max_chunk_size (r.size - bytes_read) in
        let (res, w') =
          on_chunk_available r (take bytes_to_read (drop bytes_read (contents r))) w in
        elim res [
          | err e ↦ (err e, w')
          | ret _ ↦ read_loop fuel r max_chunk_size (bytes_read + bytes_to_read) w'
        ]
  ]

  -- One round for each byte is enough.
  unfoldable pub read : Reader → ℕ → W → Sys (Unit {0}) × W
  unfolding read_loop on_chunk_available
  read r max_chunk_size w =
      if r.size == 0 then on_chunk_available r [] w else read_loop (r.size + 1) r max_chunk_size 0 w

-- The `try` block that a file is sent in: a reader is made, it reads, and it is destroyed.
module _ (os : Os) {W : Type 0} (write : FileContent → W → Bool × W) where
  after_construct : ℕ → W → Sys Reader × os.Disk → Sys (Unit {0}) × W × os.Disk
  after_construct max_chunk_size w (err e, d) = (err e, w, d)
  after_construct max_chunk_size w (ret r, d) =
      let (res, w') = read write r max_chunk_size w in (res, w', destruct os r d)

  unfoldable pub stream_file : Bytes → Bytes → ℕ → W → os.Disk → Sys (Unit {0}) × W × os.Disk
  unfolding after_construct
  stream_file root path max_chunk_size w d =
      after_construct max_chunk_size w (construct os root path d)
