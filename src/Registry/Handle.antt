-- ===== src/Registry/Handle.antt =====
-- `Registry::handle`: a command to the registry, and histories of them, by the loop `Registry::run`,
-- which also asks the routing table about the token of a verified endpoint.
use iroh_ble_transport.Prelude.{
  ℕ, Bool, true, false, if◌then◌else◌, Option, none, some, List, [], ◌∷◌, ◌++◌,
}
use iroh_ble_transport.Peer.{
  PeerCommand, EndpointId, DeviceId, advertised, central_connected, central_disconnected,
  inbound_gatt_fragment, inbound_l2cap_channel, adapter_state_changed, send_datagram, tick,
  connect_succeeded, connect_failed, open_l2cap_succeeded, open_l2cap_failed,
  protocol_version_mismatch, stalled, forget, data_pipe_ready, verified_endpoint,
  peripheral_client_subscribed, peripheral_client_unsubscribed, l2cap_handover_timeout, shutdown,
}
use iroh_ble_transport.Registry.Step.{Env}
use iroh_ble_transport.Registry.State.{Registry, Outcome, unchanged, with_entry, with_new_entry}
use iroh_ble_transport.Registry.Sending.{handle_send_datagram, handle_data_pipe_ready}
use iroh_ble_transport.Registry.Inbound.{handle_inbound_gatt_fragment, handle_inbound_l2cap_channel}
use iroh_ble_transport.Registry.Connecting.{
  handle_connect_succeeded, handle_connect_failed, handle_protocol_version_mismatch,
  handle_central_disconnected,
}
use iroh_ble_transport.Registry.Upgrades.{
  handle_open_l2cap_succeeded, handle_open_l2cap_failed, handle_l2cap_handover_timeout,
}
use iroh_ble_transport.Registry.Closing.{
  handle_forget, handle_stalled, handle_shutdown, handle_adapter_state_changed, handle_tick,
  handle_peripheral_client_unsubscribed,
}
use iroh_ble_transport.Registry.Verified.{
  handle_verified_endpoint, handle_advertised, handle_peripheral_client_subscribed,
}

unfoldable pub handle : Env → PeerCommand → Registry → Outcome
handle env (advertised prefix d rssi) r = handle_advertised env prefix d r
handle env (central_connected d) r = unchanged r
handle env (central_disconnected d cause) r = handle_central_disconnected env d cause r
handle env (inbound_gatt_fragment d source bytes) r =
    handle_inbound_gatt_fragment env d source bytes r
handle env (inbound_l2cap_channel d ch) r = handle_inbound_l2cap_channel env d ch r
handle env (adapter_state_changed powered) r = handle_adapter_state_changed env powered r
handle env (send_datagram d target gen bytes waker) r =
    with_new_entry d
      (handle_send_datagram env target (record { tx_gen = gen; datagram = bytes; waker = waker })) r
handle env (tick now) r = handle_tick (record env { now = now }) r
handle env (connect_succeeded d life ch) r = handle_connect_succeeded env d life ch r
handle env (connect_failed d life error) r = handle_connect_failed env d life error r
handle env (open_l2cap_succeeded d life up ch) r = handle_open_l2cap_succeeded env d life up ch r
handle env (open_l2cap_failed d life up error) r = handle_open_l2cap_failed env d life up error r
handle env (protocol_version_mismatch d life got want) r =
    handle_protocol_version_mismatch env d life got want r
handle env (stalled d cause) r = handle_stalled env d cause r
handle env (forget d) r = handle_forget env d r
handle env (data_pipe_ready d gen pipe) r = with_entry d (handle_data_pipe_ready env gen pipe) r
handle env (verified_endpoint endpoint token) r = handle_verified_endpoint env endpoint none r
handle env (peripheral_client_subscribed d char prefix) r =
    handle_peripheral_client_subscribed env d char prefix r
handle env (peripheral_client_unsubscribed d char) r =
    handle_peripheral_client_unsubscribed env d char r
handle env (l2cap_handover_timeout d) r = handle_l2cap_handover_timeout d r
handle env shutdown r = handle_shutdown r

-- What the routing table says of a verified handshake: the device of the token's pipe, and the
-- device that the prefix was hinted at before, if the hint has changed.
pub record Routed : Type 0 where
  pub exact : Option DeviceId
  pub previous : Option DeviceId

-- A command from the inbox, with what it reads from outside.
pub record InboxItem : Type 0 where
  pub env : Env
  pub routed : Routed
  pub command : PeerCommand

abbrev exact_device : Option ℕ → Routed → Option DeviceId
exact_device none routed = none
exact_device (some token) routed = routed.exact

-- A hint that pointed elsewhere: that device's entry is forgotten.
abbrev pub forget_previous : Env → Option DeviceId → Routed → Registry → Outcome
forget_previous env none routed r = unchanged r
forget_previous env (some d) routed r = elim routed.previous [
  | none ↦ unchanged r
  | some previous ↦ handle env (forget previous) r
]

unfoldable pub verify_endpoint : InboxItem → EndpointId → Option ℕ → Registry → Outcome
unfolding handle handle_verified_endpoint
verify_endpoint c endpoint token r =
    let exact = exact_device token (c.routed) in
    let a = forget_previous (c.env) exact (c.routed) r in
    let b = handle_verified_endpoint (c.env) endpoint exact a.registry in
    record { registry = b.registry; effects = a.effects ++ b.effects }

-- One round of the loop.
unfoldable pub dispatch : PeerCommand → InboxItem → Registry → Outcome
unfolding handle verify_endpoint
dispatch (verified_endpoint endpoint token) c r = verify_endpoint c endpoint token r
dispatch other c r = handle (c.env) other r

abbrev pub is_shutdown : PeerCommand → Bool
is_shutdown shutdown = true
is_shutdown other = false

-- The loop goes on until the inbox is empty or the registry is shut down.
unfoldable pub run : List InboxItem → Registry → Registry
unfolding dispatch
run [] r = r
run (c ∷ rest) r =
    let o = dispatch c.command c r in
    let later = run rest o.registry in if is_shutdown c.command then o.registry else later
