-- ===== src/Registry/Inbound.antt =====
-- What arrives from the peer: `handle_inbound_gatt_fragment` and `handle_inbound_l2cap_channel` of
-- registry.rs.
use iroh_ble_transport.Prelude.{
  ℕ, suc, Bool, true, false, not, ◌&&◌, Option, none, some, List, [], ◌∷◌, ◌++◌, leb, if◌then◌else◌,
  length, drop, get,
}
use iroh_ble_transport.Peer.{
  PeerEntry, PeerPhase, PipeHandles, FragmentSource, central_received_p2c, peripheral_received_c2p,
  ConnectRole, central, peripheral, ConnectPath, l2cap, gatt, ChannelHandle, connected, handshaking,
  restoring, start_data_pipe, emit_metric, swap_pipe_to_l2cap, l2cap_duplicate_accept,
  l2cap_late_accept_swapped, l2cap_late_accept_after_gatt, DeviceId,
}
use iroh_ble_transport.Dedup.{is_central}
use iroh_ble_transport.Registry.Step.{
  Env, Effect, act, inbound, Step, sent, full, closed, is_connecting,
}
use iroh_ble_transport.Registry.Entry.{new_entry, abandon_outstanding, restart_peripheral_gatt_pipe}
use iroh_ble_transport.Registry.State.{Registry, Outcome, store}

abbrev pub rx_backlog_cap : ℕ
rx_backlog_cap = 16

abbrev stay : ℕ → PeerEntry → Step
stay next e = record { next = next; entry = e; effects = [] }

-- The pipe of the entry as it stands, for the path and with the channel given.
abbrev start_pipe : PeerEntry → ConnectPath → Option ℕ → Effect
start_pipe e path ch =
    act (start_data_pipe e.device_id e.lifecycle_id e.tx_gen e.role e.target_endpoint path ch)

-- `try_send` into the pipe; a fragment that it refuses is dropped.
pass_on : Env → PipeHandles → List ℕ → List Effect
pass_on env pipe bytes = elim (env.try_send 0) [
  | sent ↦ inbound pipe.inbound_tx bytes ∷ []
  | full ↦ []
  | closed ↦ []
]

-- The backlog keeps the latest sixteen.
backlog : List (List ℕ) → List ℕ → List (List ℕ)
backlog old bytes = (if leb rx_backlog_cap (length old) then drop 1 old else old) ++ bytes ∷ []

into_live_pipe : Env → List ℕ → ℕ → PeerEntry → Step
unfolding pass_on backlog
into_live_pipe env bytes next e = elim e.pipe [
  | none ↦ stay next (record e { rx_backlog = backlog e.rx_backlog bytes })
  | some pipe ↦ record { next = next; entry = e; effects = pass_on env pipe bytes }
]

is_l2cap : ConnectPath → Bool
is_l2cap l2cap = true
is_l2cap gatt = false

from_central : FragmentSource → Bool
from_central peripheral_received_c2p = true
from_central central_received_p2c = false

-- A peripheral whose registry path has gone over to L2CAP, and that has no pipe, takes a write from
-- the central as the start of a new GATT session.
into_connected : Env → FragmentSource → List ℕ → ConnectPath → ℕ → PeerEntry → Step
unfolding into_live_pipe restart_peripheral_gatt_pipe is_l2cap from_central
into_connected env source bytes path next e = elim e.pipe [
  | none ↦
      if is_l2cap path && not (is_central e.role) && from_central source
      then restart_peripheral_gatt_pipe env (some bytes) none next e
      else into_live_pipe env bytes next e
  | some pipe ↦ into_live_pipe env bytes next e
]

promote : Env → List ℕ → ChannelHandle → ℕ → PeerEntry → Step
promote env bytes ch next e =
    let e' = record e {
      tx_gen = suc e.tx_gen;
      phase = connected env.now ch (suc e.tx_gen) false;
      rx_backlog = e.rx_backlog ++ bytes ∷ [];
    } in
    record { next = next; entry = e'; effects = start_pipe e' gatt none ∷ [] }

role_of : FragmentSource → ConnectRole
role_of central_received_p2c = central
role_of peripheral_received_c2p = peripheral

-- Any other phase: the peer writes to us, so it is rebuilt as connected. A dial in flight goes on if
-- the fragment is a notification from the peer that we are dialling.
rebuild : Env → FragmentSource → List ℕ → ℕ → PeerEntry → Step
unfolding abandon_outstanding role_of
rebuild env source bytes next e =
    let role = role_of source in
    let s =
      if is_connecting e.phase && is_central role
      then stay next e
      else abandon_outstanding next e in
    let e' = record (s.entry) {
      pipe = none;
      role = role;
      tx_gen = suc e.tx_gen;
      phase = connected env.now (record { id = 0; path = gatt }) (suc e.tx_gen) false;
      rx_backlog = e.rx_backlog ++ bytes ∷ [];
    } in
    record { next = s.next; entry = e'; effects = s.effects ++ start_pipe e' gatt none ∷ [] }

by_phase : PeerPhase → Env → FragmentSource → List ℕ → ℕ → PeerEntry → Step
unfolding promote into_connected rebuild
by_phase (handshaking since ch) env source bytes next e = promote env bytes ch next e
by_phase (connected since ch gen up) env source bytes next e =
    into_connected env source bytes ch.path next e
by_phase (restoring since) env source bytes next e = stay next e
by_phase other env source bytes next e = rebuild env source bytes next e

-- An entry that was there already.
unfoldable pub fragment_for_known : Env → FragmentSource → List ℕ → ℕ → PeerEntry → Step
unfolding by_phase
fragment_for_known env source bytes next e =
    by_phase e.phase env source bytes next (record e { last_rx = some env.now })

-- A device that is not known is taken up as connected, with the role of a peripheral.
unfoldable pub fragment_for_new : Env → List ℕ → DeviceId → ℕ → Step
unfolding new_entry
fragment_for_new env bytes device_id next =
    let e = new_entry next device_id in
    let e' = record e {
      role = peripheral;
      phase = connected env.now (record { id = 0; path = gatt }) 1 false;
      tx_gen = 1;
      last_rx = some env.now;
      rx_backlog = bytes ∷ [];
    } in
    record { next = suc next; entry = e'; effects = start_pipe e' gatt none ∷ [] }

unfoldable pub handle_inbound_gatt_fragment :
    Env → DeviceId → FragmentSource → List ℕ → Registry → Outcome
unfolding fragment_for_known fragment_for_new
handle_inbound_gatt_fragment env device_id source bytes r = elim (get device_id r.peers) [
  | none ↦ store device_id (fragment_for_new env bytes device_id r.next_lifecycle) r
  | some e ↦ store device_id (fragment_for_known env source bytes r.next_lifecycle e) r
]

swap_over : Env → ℕ → PeerPhase → PipeHandles → ℕ → PeerEntry → Step
swap_over env channel (connected since ch gen up) pipe next e = elim ch.path [
  | l2cap ↦ record {
    next = next;
    entry = e;
    effects = act (emit_metric l2cap_duplicate_accept) ∷ [];
  }
  | gatt ↦ record {
    next = next;
    entry = record e { phase = connected since (record ch { path = l2cap }) gen false };
    effects =
        act (emit_metric l2cap_late_accept_swapped)
        ∷ act (swap_pipe_to_l2cap e.device_id channel pipe.swap_tx)
        ∷ [];
  }
]
swap_over env channel other pipe next e = record {
  next = next;
  entry = e;
  effects = act (emit_metric l2cap_late_accept_after_gatt) ∷ [];
}

-- Without a pipe the accepted channel becomes one; `take` leaves the entry's field empty.
connect_over : Env → ℕ → ℕ → PeerEntry → Step
unfolding abandon_outstanding
connect_over env channel next e =
    let s = abandon_outstanding next e in
    let e' = record (s.entry) {
      l2cap_channel = none;
      tx_gen = suc e.tx_gen;
      phase = connected env.now (record { id = 0; path = l2cap }) (suc e.tx_gen) false;
    } in
    record {
      next = s.next;
      entry = e';
      effects = s.effects ++ start_pipe e' l2cap (some channel) ∷ [];
    }

unfoldable pub channel_for_known : Env → ℕ → ℕ → PeerEntry → Step
unfolding swap_over connect_over
channel_for_known env channel next e = elim e.pipe [
  | none ↦ connect_over env channel next e
  | some pipe ↦ swap_over env channel e.phase pipe next e
]

unfoldable pub channel_for_new : Env → ℕ → DeviceId → ℕ → Step
unfolding new_entry
channel_for_new env channel device_id next =
    let e = new_entry next device_id in
    let e' = record e {
      role = peripheral;
      tx_gen = 1;
      phase = connected env.now (record { id = 0; path = l2cap }) 1 false;
    } in
    record { next = suc next; entry = e'; effects = start_pipe e' l2cap (some channel) ∷ [] }

unfoldable pub handle_inbound_l2cap_channel : Env → DeviceId → ℕ → Registry → Outcome
unfolding channel_for_known channel_for_new
handle_inbound_l2cap_channel env device_id channel r = elim (get device_id r.peers) [
  | none ↦ store device_id (channel_for_new env channel device_id r.next_lifecycle) r
  | some e ↦ store device_id (channel_for_known env channel r.next_lifecycle e) r
]
