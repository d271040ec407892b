-- ===== src/Pipe.antt =====
-- The supervisor of a data pipe, crates/iroh-ble-transport/src/transport/pipe.rs: Supervisor has the
-- select loop of `run_data_pipe`, `forward_outbound` and `forward_inbound_gatt`, with the answers of
-- tokio's channels as part of an event; Outcomes has what becomes of a datagram.
pub mod Supervisor
pub mod Outcomes
