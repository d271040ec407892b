-- ===== src/Front.antt =====
-- What iroh calls: Resolver has `EndpointResolveStream` and Sender `BleSender` of crates/iroh-ble-
-- transport/src/transport/transport.rs, and Hook has `BleDedupHook` of hook.rs with
-- `handle_hook_event` of transport.rs. Dial, Open and Address follow an address through them and
-- the driver, and Verdict a handshake.
pub mod Resolver
pub mod Sender
pub mod Hook
pub mod Verdict
pub mod Dial
pub mod Open
pub mod Address
