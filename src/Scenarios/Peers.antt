-- ===== src/Scenarios/Peers.antt =====
-- The registry at concrete inputs.
use mathlib.Core.Option
use iroh_ble_transport.Prelude.{
  List, [], arith, false, get, if◌then◌else◌, insert, none, not, refl, some, true, ℕ, ◌*◌, ◌+◌, ◌<◌,
  ◌==◌, ◌^◌, ◌∷◌, ◌≡◌, ◌≤◌, ◌⊎◌,
}
use iroh_ble_transport.Peer.{
  PipeHandles, data_pipe_ready, reconnecting, pending_dial, draining, dead, DeadReason, DeviceId,
  DisconnectCause, DisconnectReason, EndpointId, PeerCommand, PeerEntry, PendingSend, advertised,
  broken_pipe, central, central_disconnected, connect_failed, connected, gatt,
  inbound_gatt_fragment, peripheral, peripheral_received_c2p, prefix_from_endpoint, tick,
}
use iroh_ble_transport.Dedup.{
  should_dial_l2cap, should_dial_l2cap_one, should_win, should_win_agree,
}
use iroh_ble_transport.Registry.Step.{Env, full, sent}
use iroh_ble_transport.Registry.Entry.{
  drain_to_draining, new_entry, pending_dial_deadline, reconnect_backoff, second,
}
use iroh_ble_transport.Registry.State.{Registry, disabled, new, unchanged, with_entry}
use iroh_ble_transport.Registry.Connecting.{handle_central_disconnected}
use iroh_ble_transport.Registry.Sending.{handle_data_pipe_ready, enqueue_send}
use iroh_ble_transport.Registry.Inbound.{fragment_for_new, handle_inbound_gatt_fragment}
use iroh_ble_transport.Registry.Verified.{
  cancel_dials, dedup, handle_verified_endpoint, is_candidate, note_verified, upgrade_winner,
  verify,
}
use iroh_ble_transport.Registry.Handle.{InboxItem, dispatch, handle, run}
use iroh_ble_transport.Registry.Identity.{IdsOk, Unlike}
use iroh_ble_transport.Registry.Lifecycles.{run-IdsOk, run-Retired}
use iroh_ble_transport.Registry.Stale.{handle-Unlike, run-stale}
use iroh_ble_transport.Registry.Arbitration.{handle_verified_endpoint-one}
use iroh_ble_transport.Registry.Sends.{
  Placed, answer_to, answers, drain_to_draining-answers, enqueue_send_order, handed,
}
use iroh_ble_transport.Registry.Timers.{pending_dial_deadline_bounds, reconnect_backoff_bounds}
use iroh_ble_transport.Registry.Survivor.{Found, dedup_survivor}

abbrev env : Env
env = record { now = 0; wall = 0; last_rx = λ p. 0; try_send = λ i. sent }

abbrev full_env : Env
full_env = record env { try_send = λ i. full }

abbrev received : PeerCommand → InboxItem
received cmd = record {
  env = env;
  routed = record { exact = none; previous = none };
  command = cmd;
}

-- The first write of a peer that is not known.
abbrev first_write : InboxItem
first_write = received (inbound_gatt_fragment 7 peripheral_received_c2p (1 ∷ []))

-- The registry after the peer's write, and its entry.
abbrev met : Registry
met = run (first_write ∷ []) (new disabled 5)

abbrev met_entry : PeerEntry
met_entry = (fragment_for_new env (1 ∷ []) 7 1).entry

abbrev later : List InboxItem
later =
    received (advertised 9 7 none)
    ∷ received (tick 10_000_000_000)
    ∷ received (inbound_gatt_fragment 7 peripheral_received_c2p (2 ∷ []))
    ∷ []

abbrev left : Registry
left = (handle env (central_disconnected 7 DisconnectCause.timeout) met).registry

met_get : get 7 met.peers ≡ some met_entry
unfolding run dispatch handle handle_inbound_gatt_fragment new get insert
met_get = refl

run-stale_example : handle env (connect_failed 7 1 []) (run later left) ≡ unchanged (run later left)
unfolding fragment_for_new new_entry
run-stale_example =
    run-stale disabled 5 (first_write ∷ []) later env env 7 7 DisconnectCause.timeout
      (connect_failed 7 1 []) met_entry met_get refl

abbrev late_pipe : PipeHandles
late_pipe = record { outbound_tx = 1; inbound_tx = 2; swap_tx = 3; last_rx_at = 4 }

-- A report on a data pipe has no lifecycle identity: it comes late, and its pipe is installed in the
-- entry that is draining.
late_pipe_installed :
    Option.map
      (λ (e : PeerEntry). e.pipe)
      (get 7 (handle env (data_pipe_ready 7 met_entry.tx_gen late_pipe) left).registry.peers)
    ≡ some (some late_pipe)
unfolding run dispatch handle handle_inbound_gatt_fragment new get insert new_entry with_entry
    handle_central_disconnected handle_data_pipe_ready
late_pipe_installed = refl

run-IdsOk_example :
    IdsOk (run later (new disabled 5)).next_lifecycle (run later (new disabled 5)).peers
run-IdsOk_example = run-IdsOk disabled 5 later

run-Retired_example : Unlike 0 (run later met).peers
unfolding run dispatch handle handle_inbound_gatt_fragment new get insert
run-Retired_example = run-Retired 0 later met (omega arith) (omega arith, tt)

handle-Unlike_example : handle env (connect_failed 7 9 []) met ≡ unchanged met
unfolding run dispatch handle handle_inbound_gatt_fragment new get insert
handle-Unlike_example = handle-Unlike env (connect_failed 7 9 []) 7 9 met refl (omega arith, tt)

-- Two connections to the peer with prefix 9.
abbrev connected_peer : DeviceId → PeerEntry
connected_peer d = record (new_entry d d) {
  prefix = some 9;
  phase = connected 0 (record { id = 0; path = gatt }) 0 false;
}

abbrev twice : Registry
twice = record (new disabled 5) {
  peers = (7, connected_peer 7) ∷ (8, connected_peer 8) ∷ [];
  next_lifecycle = 9;
}

abbrev endpoint : EndpointId
endpoint = 9 * 2 ^ 160

abbrev keeper : DeviceId
keeper = 8

abbrev kept_entry : PeerEntry
kept_entry = verify 0 endpoint (connected_peer 8)

kept_get : get 8 (handle_verified_endpoint env endpoint none twice).registry.peers ≡ some kept_entry
unfolding handle_verified_endpoint note_verified cancel_dials dedup upgrade_winner new get insert
    prefix_from_endpoint should_win new_entry with_entry
kept_get = refl

handle_verified_endpoint-one_example : keeper ≡ keeper
unfolding verify new_entry prefix_from_endpoint
handle_verified_endpoint-one_example =
    handle_verified_endpoint-one env endpoint none twice keeper keeper kept_entry kept_entry
      kept_get refl kept_get refl

dedup_survivor_example :
    (w : DeviceId) × (get w (dedup env 9 endpoint twice).registry.peers ≡ get w twice.peers)
    × Found (is_candidate 9) twice.peers w
unfolding new new_entry get
dedup_survivor_example =
    dedup_survivor env 9 endpoint twice 7 (connected_peer 7) ((omega arith, tt), (tt, tt)) refl refl

abbrev datagram : ℕ → PendingSend
datagram waker = record { tx_gen = 0; datagram = waker ∷ []; waker = waker }

-- Two datagrams wait, and the pipe is there.
abbrev waiting_peer : PeerEntry
waiting_peer = record (connected_peer 7) {
  pipe = some (record { outbound_tx = 1; inbound_tx = 2; swap_tx = 3; last_rx_at = 4 });
  pending_sends = datagram 1 ∷ datagram 2 ∷ [];
}

enqueue_send_order_example :
    Placed full_env
      (datagram 1 ∷ datagram 2 ∷ [])
      (datagram 3)
      (enqueue_send full_env (datagram 3) 9 waiting_peer)
enqueue_send_order_example = enqueue_send_order full_env (datagram 3) 9 waiting_peer

drain_to_draining-answers_example :
    (answers (drain_to_draining env DisconnectReason.timeout 9 waiting_peer).effects
      ≡ answer_to (datagram 1) broken_pipe ∷ answer_to (datagram 2) broken_pipe ∷ [])
    × ((drain_to_draining env DisconnectReason.timeout 9 waiting_peer).entry.pending_sends ≡ [])
drain_to_draining-answers_example =
    drain_to_draining-answers env DisconnectReason.timeout 9 waiting_peer

-- If a slot comes free between two tries, the new datagram overtakes the ones that wait.
abbrev freed : Env
freed = record env { try_send = λ i. if i == 0 then full else sent }

overtakes : handed (enqueue_send freed (datagram 3) 9 waiting_peer).effects ≡ datagram 3 ∷ []
unfolding enqueue_send handed new_entry
overtakes = refl

-- Peer 7 is to be dialled, the third time, since an instant ago; peer 8 waits to be dialled, peer 9 is
-- drained and was to be resumed, and peer 10 is dead, each for too long.
abbrev overdue : PeerEntry
overdue = record (new_entry 7 7) { phase = reconnecting 3 900 DisconnectReason.timeout }

abbrev behind : Registry
behind = record (new disabled 5) {
  peers =
      (7, overdue)
      ∷ (8, record (new_entry 8 8) { phase = pending_dial 0 800 9 })
      ∷ (
        9,
        record waiting_peer {
          phase = draining 0 DisconnectReason.timeout;
          resume_after_drain = true;
        },
      )
      ∷ (10, record (new_entry 10 10) { phase = dead DeadReason.drained 0 })
      ∷ [];
  next_lifecycle = 11;
}

abbrev late_env : Env
late_env = record env { now = 100 * second }

reconnect_backoff_bounds_example :
    (500_000_000 ≤ reconnect_backoff 3)
    × (reconnect_backoff 3 ≤ 30 * second)
    × (6 ≤ 3 → reconnect_backoff 3 ≡ 30 * second)
reconnect_backoff_bounds_example = reconnect_backoff_bounds 3

pending_dial_deadline_bounds_example :
    (100 + 650_000_000 ≤ pending_dial_deadline 100 9)
    × (pending_dial_deadline 100 9 < 100 + 950_000_000)
pending_dial_deadline_bounds_example = pending_dial_deadline_bounds 100 9

should_win_agree_example :
    (should_win central 3 8 ≡ should_win peripheral 8 3)
    × (should_win central 3 8 ≡ not (should_win peripheral 3 8))
should_win_agree_example = should_win_agree central 3 8 (omega arith)

should_dial_l2cap_one_example :
    ((should_win central 3 8 ≡ true)
      × (should_dial_l2cap central 3 8 ≡ not (should_dial_l2cap peripheral 8 3)))
    ⊎ ((should_win central 3 8 ≡ false)
        × (should_dial_l2cap central 3 8 ≡ false)
        × (should_dial_l2cap peripheral 8 3 ≡ false))
should_dial_l2cap_one_example = should_dial_l2cap_one central 3 8 (omega arith)
