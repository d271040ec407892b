-- ===== src/Registry.antt =====
-- The registry of peers, crates/iroh-ble-transport/src/transport/registry.rs: a state machine for
-- each peer, and the commands that drive it. `Step` has what one entry's transition is made of,
-- `Entry` the helpers on an entry, `State` the registry, the `Handle` modules the handlers.
pub mod Step
pub mod Entry
pub mod State
pub mod Sending
pub mod Inbound
pub mod Connecting
pub mod Upgrades
pub mod Closing
pub mod Verified
pub mod Handle
pub mod Contract
pub mod Transitions
pub mod Identity
pub mod Sweeps
pub mod Closure
pub mod Commands
pub mod Lifecycles
pub mod Stale
pub mod Arbitration
pub mod Sends
pub mod Ticks
pub mod Timers
pub mod Survivor
