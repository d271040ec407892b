-- ===== src/Routing.antt =====
-- The routing table, crates/iroh-ble-transport/src/transport/routing.rs. Table has its state and
-- what opens and closes a pipe; Hints, Pools, Reservations and Promotion have the other operations;
-- Address has the form in which an id travels through iroh. The other modules are about these.
pub mod Table
pub mod Address
pub mod Hints
pub mod Pools
pub mod Reservations
pub mod Promotion
pub mod Tokens
pub mod Promoted
pub mod Convergence
pub mod History
pub mod Tombstones
pub mod Promises
pub mod Ledger
pub mod Bookkeeping
pub mod Kept
pub mod Refinement
