-- ===== src/Lib.antt =====
-- A model of the AFS-like network file system of this repository (AFS/). A client mounts a file
-- system with FUSE, keeps whole files in a cache, and asks a server by gRPC for attributes,
-- names and file contents; on close it queues a changed file, and a thread sends it back. The
-- server serves each call from a directory of its own disk.
--
-- Parts, and the files that model them:
-- - Sys: the calls of the operating system that the program makes, as a record `Os` over an
--   unknown state `Disk`. Sys/Laws states what the program relies on when it writes through
--   a `std::ofstream` and renames: closing the stream may lose an end of the bytes that it holds,
--   since a failed write is not seen then. Sys/Memory is a disk in memory that obeys it
--   (Sys/Memory/Lawful), on which the tests run. Sys/Writing says what pwrite makes of a file,
--   Sys/Reading what pread gives of it.
-- - Messages: the messages of AFS/afsfuse.proto, and the status codes that the program tells apart.
-- - Server: AFS/afsfuse_server.cc. Server/Paths has `translatePath` and the names that an upload
--   is given, Server/Attributes `afsfuse_getattr`, `afsfuse_readdir` and `afsfuse_utimens`,
--   Server/Names the handlers that make, remove and rename, Server/Files `afsfuse_open`,
--   `afsfuse_read`, `afsfuse_write` and `afsfuse_create`, Server/Download `afsfuse_getFile` and
--   Server/Upload `afsfuse_putFile`. A handler takes the root, its request and the disk, and gives
--   the status with the reply and the disk behind it.
-- - Stream: Stream/Reader is AFS/sequential_file_reader.cc with AFS/file_reader_into_stream.h,
--   Stream/Writer is AFS/sequential_file_writer.cc. An exception is the result `err`.
-- - Buffer: `BoundedBuffer` of AFS/afsfuse_client.cc; Buffer/Threads has the threads that meet at it
--   as a step relation: one step is one critical section, or the code between two.
-- - Rpc: AFS/AfsClient.h. Rpc/Retry is the loop with growing deadlines, Rpc/Calls the calls that
--   stand in it, Rpc/Transfer `rpc_putFile` and `rpc_getFile`. The stub that grpc generates is a
--   record of functions (`Stub`, `Streams`) over an unknown state. An attempt may end with any
--   status; that its handler does not run on behind its end is a hypothesis (Rpc/Retry/Outcome).
-- - Cache: `class Cache` of AFS/afsfuse_client.cc: names, folders, `isCached`, `correctStaleness`,
--   `fetchFile`. Client: what happens on close, from `isFileModified` to `client_release` with
--   its crash sites; a process that is killed gives `killed` and the disk as it was then.
--   Client/Names has `client_mkdir` to `client_utimens`, Client/Files `client_getattr` to
--   `client_write`, Client/Create `client_create`, Client/Open `client_open`, Client/Copy `cp`,
--   Client/Recover what a client does with the files that a crash has left, with Client/Recover/Restart
--   for a client that is killed on close and starts again, and Client/Session the writes of a
--   program between open and close.
-- - Start: `main` of both programs, with Start/Arguments for their arguments. What fuse makes of
--   its own arguments is a parameter.
-- - Bench: AFS/bench.cpp, with Bench/Words for its text, Bench/Runs for `benchmarkApplication`
--   and Bench/Kept for the number of processes.
--   What its calls of `get_time` read is a parameter.
-- - Base: shared names, lists and bytes; a path is a list of bytes. Tests: runs and witnesses.
--
-- Numbers are natural numbers; fields of messages that are narrower than what is put into them
-- are cut off at their width. The loop of `SequentialFileReader::Read` runs on fuel, one more
-- than the size of the file, which is enough since a round at a chunk size above 0 reads at
-- least one byte. The loop of AFS/bench.cpp that reads runs on fuel too: where it has none left,
-- the result is `none`, and the size that is waited for is enough if the file has it. The loops
-- of `cp` run on fuel, since an interrupted write is made again without end; more fuel than the
-- file has bytes is enough if no call fails. The loops of AFS/AfsClient.h recurse on the number
-- of retries that are left.
--
-- Not modelled: the table of FUSE operations, `RunServer` and printing; `msleep` and the threads
-- of AFS/bench.cpp, and the rounding of its times; overflow of the path buffers of 512 bytes in
-- `translatePath`; the race between the two threads on the flag `notDone`, of which a step reads
-- or writes the whole; the moment at which an exception of the server's own library ends a
-- handler; `getRecoveryCachedPath` and `extract_basename`, which nothing calls.
pub mod Base
pub mod Bench
pub mod Buffer
pub mod Cache
pub mod Client
pub mod Messages
pub mod Rpc
pub mod Server
pub mod Start
pub mod Stream
pub mod Sys
pub mod Tests
