-- ===== src/Conns.antt =====
-- The live iroh connections on each pipe, crates/iroh-ble-transport/src/transport/conns.rs: Handle
-- has what closes one connection, and Buckets and Index the table of them. Race, Watched and
-- Reached are about a connection and the end of its pipe.
pub mod Handle
pub mod Buckets
pub mod Index
pub mod Race
pub mod Watched
pub mod Reached
