-- ===== src/Driver.antt =====
-- The driver, crates/iroh-ble-transport/src/transport/driver.rs: Pipes has what it does with the tables
-- when a data pipe is opened and when it has ended, Lanes the queue of native work of a device, and Fleet
-- the lanes of all devices. Serial, Parallel and Retired are about the lanes.
pub mod Pipes
pub mod Lanes
pub mod Serial
pub mod Retired
pub mod Fleet
pub mod Parallel
