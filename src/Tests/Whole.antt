-- ===== src/Tests/Whole.antt =====
-- A program that opens, writes and closes a file, on a disk in memory.
