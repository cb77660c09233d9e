-- ===== src/Stream.antt =====
-- The file streaming helpers: AFS/sequential_file_reader.cc, AFS/file_reader_into_stream.h and
-- AFS/sequential_file_writer.cc.
pub mod Reader
pub mod Writer
