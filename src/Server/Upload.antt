-- ===== src/Server/Upload.antt =====
-- AFS/afsfuse_server.cc: `afsfuse_putFile`, which receives a file as a stream of messages.
pub mod Frame
pub mod Message
pub mod Laws
use client_server_file_syste.Base.{ℕ, Bool, true, false, List, [], ◌∷◌, Bytes, if◌then◌else◌}
use client_server_file_syste.Sys.{Os, Sys, ret, err}
use client_server_file_syste.Messages.{
  Code, ok, resource_exhausted, aborted, FileContent, OutputInfo, empty_info,
}
use client_server_file_syste.Stream.Writer.{
  Writer, new_writer, no_space_left, open_if_necessary, write, destruct,
}
use client_server_file_syste.Server.Paths.{upload_temp, upload_final}
use client_server_file_syste.Server.Files.{does_path_exist, create_path}

-- The local variables of the handler.
pub record Upload : Type 0 where
  pub temp_path : Bytes
  pub final_path : Bytes
  pub writer : Writer

abbrev pub start : Upload
unfolding new_writer
start = record { temp_path = []; final_path = []; writer = new_writer }

-- The body of the loop goes on, or the handler returns.
pub data Part {ℓ} (A : Type ℓ) : Type ℓ where
  go_on : A → Part A
  stop : Code × OutputInfo → Part A

-- `if (temp_path.empty()) ..`: the first message names the file.
name_upload : Bytes → ℕ → FileContent → Bytes → Upload → Upload
name_upload root rand part [] u = record u {
  temp_path = upload_temp root rand part.name;
  final_path = upload_final root part.name;
}
name_upload root rand part (_ ∷ _) u = u

module _ (os : Os) where
  -- The `catch` clause.
  fail : Writer → Code × OutputInfo
  unfolding no_space_left
  fail w = (if no_space_left w then resource_exhausted else aborted, empty_info)

  after_write : Upload → Sys (Unit {0}) × Writer × os.Disk → Part Upload × Writer × os.Disk
  unfolding fail
  after_write u (err _, w, d) = (stop (fail w), w, d)
  after_write u (ret _, w, d) = (go_on (record u { writer = w }), w, d)

  after_open :
      FileContent → Upload → Sys (Unit {0}) × Writer × os.Disk → Part Upload × Writer × os.Disk
  unfolding fail after_write
  after_open part u (err _, w, d) = (stop (fail w), w, d)
  after_open part u (ret _, w, d) = after_write u (write os part.content w d)

  -- `OpenIfNecessary`, then `Write`; an exception of either ends the handler.
  store : FileContent → Upload → os.Disk → Part Upload × Writer × os.Disk
  unfolding after_open
  store part u d = after_open part u (open_if_necessary os u.temp_path u.writer d)

  after_create : FileContent → Upload → Sys (Unit {0}) × os.Disk → Part Upload × Writer × os.Disk
  unfolding store
  after_create part u (err e, d) = (stop (ok, record empty_info { err = e }), u.writer, d)
  after_create part u (ret _, d) = store part u d

  -- The check of the directory, then the message itself.
  pub receive : FileContent → Upload → os.Disk → Part Upload × Writer × os.Disk
  unfolding store after_create
  receive part u d =
      if does_path_exist os u.final_path d
      then store part u d
      else after_create part u (create_path os u.final_path d)

  after_rename : Upload → Sys (Unit {0}) × os.Disk → (Code × OutputInfo) × os.Disk
  after_rename u (err e, d) = ((ok, record empty_info { err = e }), destruct os u.writer d)
  after_rename u (ret _, d) = ((ok, empty_info), destruct os u.writer d)

  -- Behind the loop: `rename`; `~SequentialFileWriter` runs when the handler returns.
  finish : Upload → os.Disk → (Code × OutputInfo) × os.Disk
  unfolding after_rename
  finish u d = after_rename u (os.rename d u.temp_path u.final_path)

  -- `next` is the rest of the loop.
  after_part :
      (Upload → os.Disk → (Code × OutputInfo) × os.Disk)
      → Part Upload × Writer × os.Disk
      → (Code × OutputInfo) × os.Disk
  after_part next (stop reply, w, d) = (reply, destruct os w d)
  after_part next (go_on u, w, d) = next u d

module _ (os : Os) (root : Bytes) (rand : ℕ) where
  -- `while (reader->Read(&contentPart))`, and what stands behind it.
  receive_all : List FileContent → Upload → os.Disk → (Code × OutputInfo) × os.Disk
  receive_all [] u d = finish os u d
  receive_all (part ∷ parts) u d =
      after_part os (receive_all parts)
        (receive os part (name_upload root rand part u.temp_path u) d)

  -- The messages are those that `reader->Read` gives before it fails.
  unfoldable pub afsfuse_put_file : List FileContent → os.Disk → (Code × OutputInfo) × os.Disk
  unfolding receive_all name_upload receive finish after_part
  afsfuse_put_file parts d = receive_all parts start d
