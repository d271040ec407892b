-- ===== src/Front/Sender.antt =====
-- `BleSender` of transport.rs. The actor's snapshot and the answers of the inbox are arguments.
use iroh_ble_transport.Prelude.{
  Bool, List, Option, false, length, none, some, true, ℕ, ◌%◌, ◌&&◌, ◌+◌, ◌==◌, ◌^◌,
}
use iroh_ble_transport.Peer.{DeviceId, EndpointId, PeerCommand, send_datagram}
use iroh_ble_transport.Routing.Address.{
  CustomAddrs, TokenError, ble_transport_id, parse_token_addr, refused, token, token_len,
}
use iroh_ble_transport.Routing.Table.{
  Routing, StableConnId, device_for_pipe, note_tombstoned_transmit,
}
use iroh_ble_transport.Routing.Hints.{scan_hint_for_prefix}
use iroh_ble_transport.Routing.Reservations.{reservation_target}

pub data IoError : Type 0 where
  invalid_addr : TokenError → IoError
  no_live_scan_hint unknown_token transport_shut_down : IoError

pub data PollSend : Type 0 where
  sent pending : PollSend
  failed : IoError → PollSend

pub data Route : Type 0 where
  to : DeviceId → Option EndpointId → Route
  dropped : Route
  lost : IoError → Route

-- A token is a live pipe's id, a reservation's, or that of a pipe that is gone.
unfoldable pub route : ℕ → StableConnId → Routing → Routing × Route
unfolding device_for_pipe reservation_target scan_hint_for_prefix note_tombstoned_transmit
route now stable_id r = elim (device_for_pipe stable_id r) [
  | some d ↦ (r, to d none)
  | none ↦ elim (reservation_target stable_id r) [
    | some t ↦ elim (scan_hint_for_prefix t.prefix r) [
      | some d ↦ (r, to d (some t.endpoint_id))
      | none ↦ (r, lost no_live_scan_hint)
    ]
    | none ↦
        let (r', tombstoned) = note_tombstoned_transmit now stable_id r in
        elim tombstoned [ some t ↦ (r', dropped) | none ↦ (r', lost unknown_token) ]
  ]
]

-- The answer of `try_send` on the inbox.
pub data TrySend : Type 0 where
  accepted full closed : TrySend

pub record Sent : Type 0 where
  pub routing : Routing
  -- Put into the inbox.
  pub command : Option PeerCommand
  pub tx_bytes : ℕ
  -- Whether the waker has been parked for room in the inbox.
  pub parked : Bool
  pub poll : PollSend

-- The second answer is asked for when the first is `full`.
unfoldable pub offer : TrySend → TrySend → PeerCommand → ℕ → ℕ → Routing → Sent
offer accepted again cmd len tx_bytes r = record {
  routing = r;
  command = some cmd;
  tx_bytes = (tx_bytes + len) % 2 ^ 64;
  parked = false;
  poll = sent;
}
offer closed again cmd len tx_bytes r = record {
  routing = r;
  command = none;
  tx_bytes = tx_bytes;
  parked = false;
  poll = failed transport_shut_down;
}
offer full accepted cmd len tx_bytes r = record {
  routing = r;
  command = some cmd;
  tx_bytes = (tx_bytes + len) % 2 ^ 64;
  parked = true;
  poll = sent;
}
offer full full cmd len tx_bytes r = record {
  routing = r;
  command = none;
  tx_bytes = tx_bytes;
  parked = true;
  poll = pending;
}
offer full closed cmd len tx_bytes r = record {
  routing = r;
  command = none;
  tx_bytes = tx_bytes;
  parked = true;
  poll = failed transport_shut_down;
}

-- What is written of a send: its bytes and its waker.
pub record Transmit : Type 0 where
  pub contents : List ℕ
  pub waker : ℕ

abbrev pub not_offered : PollSend → ℕ → Routing → Sent
not_offered poll tx_bytes r = record {
  routing = r;
  command = none;
  tx_bytes = tx_bytes;
  parked = false;
  poll = poll;
}

unfoldable pub send_to : (DeviceId → ℕ) → TrySend × TrySend → Transmit → ℕ → Routing × Route → Sent
unfolding offer
send_to tx_gen inbox transmit tx_bytes (r, dropped) = not_offered sent tx_bytes r
send_to tx_gen inbox transmit tx_bytes (r, lost e) = not_offered (failed e) tx_bytes r
send_to tx_gen inbox transmit tx_bytes (r, to device target) =
    offer inbox.0 inbox.1
      (send_datagram device target (tx_gen device) transmit.contents transmit.waker)
      (length transmit.contents) tx_bytes r

module _ (api : CustomAddrs) where
  unfoldable pub is_valid_send_addr : api.CustomAddr → Bool
  is_valid_send_addr addr =
      api.transport_id addr == ble_transport_id && length (api.bytes addr) == token_len

  -- The generation is that of the device in the snapshot, or 0.
  unfoldable pub poll_send :
      ℕ → (DeviceId → ℕ) → TrySend × TrySend → api.CustomAddr → Transmit → ℕ → Routing → Sent
  unfolding parse_token_addr route send_to
  poll_send now tx_gen inbox dst transmit tx_bytes r = elim (parse_token_addr api dst) [
    | refused e ↦ not_offered (failed (invalid_addr e)) tx_bytes r
    | token stable_id ↦ send_to tx_gen inbox transmit tx_bytes (route now stable_id r)
  ]
