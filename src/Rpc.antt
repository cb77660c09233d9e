-- ===== src/Rpc.antt =====
-- AFS/AfsClient.h: the calls that the client makes of the server.
pub mod Retry
pub mod Calls
pub mod Transfer
