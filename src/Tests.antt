-- ===== src/Tests.antt =====
-- Runs on small inputs, and the theorems at concrete data.
mod Upload
mod Reading
mod Buffer
mod Rpc
mod Transfer
mod Client
mod Copy
mod Recover
mod Start
mod Fetch
mod Bench
mod Open
mod Listing
mod Writing
mod Session
mod Whole
