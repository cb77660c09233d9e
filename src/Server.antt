-- ===== src/Server.antt =====
-- AFS/afsfuse_server.cc: the handlers of `AfsServiceImpl`.
pub mod Paths
pub mod Attributes
pub mod Names
pub mod Files
pub mod Download
pub mod Upload
