-- ===== src/Reliable.antt =====
-- The reliable channel over GATT, crates/iroh-ble-transport/src/transport/reliable.rs: a selective
-- repeat protocol with four-bit sequence numbers. The header, the state, the receiving half, the
-- sending half and the send loop are a module each; the other modules are about these.
pub mod Header
pub mod State
pub mod Receive
pub mod Send
pub mod Loop
pub mod Wire
pub mod Fragments
pub mod Delivery
pub mod Arrival
pub mod Stream
pub mod Window
pub mod Liveness
pub mod Transfer
