-- ===== src/Client/Session/Whole.antt =====
-- A file that a program opens, writes and closes.
use client_server_file_syste.Cache.{Cache}
