-- ===== src/Peer.antt =====
-- The types of crates/iroh-ble-transport/src/transport/peer.rs. An instant is a number of
-- nanoseconds. A device id, an endpoint id and a key prefix are numbers: the prefix and the
-- endpoint id are read as big-endian numbers of 12 and 32 bytes, so `<` is the order of the bytes;
-- of a device id only equality and some total order of its texts are used. A waker, a channel of
-- `blew`, the ends of a `tokio` channel and a liveness clock are named by numbers.
use iroh_ble_transport.Prelude.{ℕ, ◌/◌, ◌^◌, Bool, false, Option, none, some, List, []}

abbrev pub DeviceId : Type 0
DeviceId = ℕ

abbrev pub KeyPrefix : Type 0
KeyPrefix = ℕ

abbrev pub EndpointId : Type 0
EndpointId = ℕ

-- The first 12 of the 32 bytes (`prefix_from_endpoint` of routing.rs).
unfoldable pub prefix_from_endpoint : EndpointId → KeyPrefix
prefix_from_endpoint e = e / 2 ^ 160

pub data FragmentSource : Type 0 where
  central_received_p2c peripheral_received_c2p : FragmentSource

pub data ConnectRole : Type 0 where
  central peripheral : ConnectRole

pub data ConnectPath : Type 0 where
  l2cap gatt : ConnectPath

pub data StallCause : Type 0 where
  link_dead local_close : StallCause

-- `blew::DisconnectCause`: the causes that the conversion names, and any later one.
pub data DisconnectCause : Type 0 where
  local_close remote_close link_loss adapter_off gatt133 timeout : DisconnectCause
  other : ℕ → DisconnectCause
  later_cause : DisconnectCause

pub data DisconnectReason : Type 0 where
  local_close remote_close link_loss adapter_off gatt133 timeout : DisconnectReason
  link_dead protocol_mismatch dedup_loser : DisconnectReason
  unknown : Option ℕ → DisconnectReason

-- `From<DisconnectCause>`; `none` stands for the status code -1 of a later cause.
unfoldable pub reason_of : DisconnectCause → DisconnectReason
reason_of DisconnectCause.local_close = DisconnectReason.local_close
reason_of DisconnectCause.remote_close = DisconnectReason.remote_close
reason_of DisconnectCause.link_loss = DisconnectReason.link_loss
reason_of DisconnectCause.adapter_off = DisconnectReason.adapter_off
reason_of DisconnectCause.gatt133 = DisconnectReason.gatt133
reason_of DisconnectCause.timeout = DisconnectReason.timeout
reason_of (DisconnectCause.other c) = DisconnectReason.unknown (some c)
reason_of DisconnectCause.later_cause = DisconnectReason.unknown none

pub data DeadReason : Type 0 where
  max_retries drained forgotten : DeadReason
  protocol_mismatch : ℕ → ℕ → DeadReason

pub record ChannelHandle : Type 0 where
  pub id : ℕ
  pub path : ConnectPath

pub data PeerPhase : Type 0 where
  unknown : PeerPhase
  -- since
  discovered : ℕ → PeerPhase
  -- since, deadline, prefix
  pending_dial : ℕ → ℕ → KeyPrefix → PeerPhase
  -- attempt, started, path
  connecting : ℕ → ℕ → ConnectPath → PeerPhase
  -- since, channel
  handshaking : ℕ → ChannelHandle → PeerPhase
  -- since, channel, tx_gen, upgrading
  connected : ℕ → ChannelHandle → ℕ → Bool → PeerPhase
  -- since, reason
  draining : ℕ → DisconnectReason → PeerPhase
  -- attempt, next_at, reason
  reconnecting : ℕ → ℕ → DisconnectReason → PeerPhase
  -- reason, at
  dead : DeadReason → ℕ → PeerPhase
  -- since
  restoring : ℕ → PeerPhase

pub record PendingSend : Type 0 where
  pub tx_gen : ℕ
  pub datagram : List ℕ
  pub waker : ℕ

pub record PipeHandles : Type 0 where
  pub outbound_tx : ℕ
  pub inbound_tx : ℕ
  pub swap_tx : ℕ
  pub last_rx_at : ℕ

pub record PeerEntry : Type 0 where
  pub device_id : DeviceId
  pub phase : PeerPhase
  pub last_adv : Option ℕ
  pub last_rx : Option ℕ
  pub last_tx : Option ℕ
  pub consecutive_failures : ℕ
  pub tx_gen : ℕ
  pub lifecycle_id : ℕ
  pub upgrade_gen : ℕ
  pub pending_sends : List PendingSend
  pub role : ConnectRole
  pub pipe : Option PipeHandles
  pub rx_backlog : List (List ℕ)
  pub l2cap_channel : Option ℕ
  pub subscribed_chars : List ℕ
  pub prefix : Option KeyPrefix
  pub target_endpoint : Option EndpointId
  pub verified_endpoint : Option EndpointId
  pub verified_at : Option ℕ
  pub l2cap_upgrade_failed : Bool
  pub verified_live_suppressed_logged : Bool
  pub resume_after_drain : Bool

-- `PeerEntry::new`.
unfoldable pub new_peer : DeviceId → PeerEntry
new_peer device_id = record {
  device_id = device_id;
  phase = unknown;
  last_adv = none;
  last_rx = none;
  last_tx = none;
  consecutive_failures = 0;
  tx_gen = 0;
  lifecycle_id = 0;
  upgrade_gen = 0;
  pending_sends = [];
  role = central;
  pipe = none;
  rx_backlog = [];
  l2cap_channel = none;
  subscribed_chars = [];
  prefix = none;
  target_endpoint = none;
  verified_endpoint = none;
  verified_at = none;
  l2cap_upgrade_failed = false;
  verified_live_suppressed_logged = false;
  resume_after_drain = false;
}

-- The texts of `EmitMetric`.
pub data Metric : Type 0 where
  connect_failed : List ℕ → Metric
  connect_failed_by : DisconnectReason → Metric
  connected_pipe_wedged l2cap_duplicate_accept l2cap_late_accept_swapped : Metric
  l2cap_late_accept_after_gatt : Metric
  l2cap_fallback_to_gatt : List ℕ → Metric

pub data SendResult : Type 0 where
  ok would_block broken_pipe connection_aborted : SendResult

-- `PeerAction`, the fields in the order of the source.
pub data PeerAction : Type 0 where
  start_connect : (device_id attempt lifecycle_id : ℕ) → PeerAction
  read_version : (device_id lifecycle_id : ℕ) → PeerAction
  retire_lifecycle : (device_id lifecycle_id : ℕ) → PeerAction
  close_channel : (device_id lifecycle_id : ℕ) → ChannelHandle → DisconnectReason → PeerAction
  close_native_connection : (device_id lifecycle_id : ℕ) → PeerAction
  refresh : (device_id lifecycle_id : ℕ) → PeerAction
  ack_send : (tx_gen waker : ℕ) → SendResult → PeerAction
  restore_peripheral : Bool → PeerAction
  restart_scan : PeerAction
  start_data_pipe :
      (device_id lifecycle_id tx_gen : ℕ)
      → ConnectRole
      → Option EndpointId
      → ConnectPath
      → Option ℕ
      → PeerAction
  upgrade_to_l2cap : (device_id lifecycle_id upgrade_gen : ℕ) → PeerAction
  swap_pipe_to_l2cap : (device_id channel swap_tx : ℕ) → PeerAction
  put_peer_store : (prefix device_id last_seen : ℕ) → PeerAction
  forget_peer_store : (prefix : ℕ) → PeerAction
  emit_metric : Metric → PeerAction

pub data PeerCommand : Type 0 where
  advertised : (prefix device_id : ℕ) → Option ℕ → PeerCommand
  central_connected : (device_id : ℕ) → PeerCommand
  central_disconnected : (device_id : ℕ) → DisconnectCause → PeerCommand
  inbound_gatt_fragment : (device_id : ℕ) → FragmentSource → List ℕ → PeerCommand
  inbound_l2cap_channel : (device_id channel : ℕ) → PeerCommand
  adapter_state_changed : Bool → PeerCommand
  send_datagram :
      (device_id : ℕ) → Option EndpointId → (tx_gen : ℕ) → List ℕ → (waker : ℕ) → PeerCommand
  tick : ℕ → PeerCommand
  connect_succeeded : (device_id lifecycle_id : ℕ) → ChannelHandle → PeerCommand
  connect_failed : (device_id lifecycle_id : ℕ) → List ℕ → PeerCommand
  open_l2cap_succeeded : (device_id lifecycle_id upgrade_gen channel : ℕ) → PeerCommand
  open_l2cap_failed : (device_id lifecycle_id upgrade_gen : ℕ) → List ℕ → PeerCommand
  protocol_version_mismatch : (device_id lifecycle_id got want : ℕ) → PeerCommand
  stalled : (device_id : ℕ) → StallCause → PeerCommand
  forget : (device_id : ℕ) → PeerCommand
  data_pipe_ready : (device_id tx_gen : ℕ) → PipeHandles → PeerCommand
  verified_endpoint : (endpoint_id : ℕ) → Option ℕ → PeerCommand
  peripheral_client_subscribed : (client_id char_uuid : ℕ) → Option KeyPrefix → PeerCommand
  peripheral_client_unsubscribed : (client_id char_uuid : ℕ) → PeerCommand
  l2cap_handover_timeout : (device_id : ℕ) → PeerCommand
  shutdown : PeerCommand
