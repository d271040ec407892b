-- ===== src/Registry/Upgrades.antt =====
-- The end of an L2CAP upgrade: `handle_open_l2cap_succeeded`, `handle_open_l2cap_failed` and
-- `handle_l2cap_handover_timeout` of registry.rs.
use iroh_ble_transport.Prelude.{
  ℕ, suc, true, false, ◌&&◌, Option, none, some, List, [], ◌∷◌, ◌++◌, ◌==◌, if◌then◌else◌,
}
use iroh_ble_transport.Peer.{
  PeerEntry, PeerPhase, ConnectPath, l2cap, gatt, ChannelHandle, connected, handshaking,
  l2cap_fallback_to_gatt, start_data_pipe, swap_pipe_to_l2cap, emit_metric, DeviceId,
}
use iroh_ble_transport.Registry.Step.{Env, act, Step}
use iroh_ble_transport.Registry.State.{Registry, Outcome, with_entry}
use iroh_ble_transport.Registry.Connecting.{stay}

-- A handshaking peer is connected over the path, with a pipe of its own.
finish : Env → ChannelHandle → ConnectPath → Option ℕ → ℕ → PeerEntry → Step
finish env ch path channel next e =
    let tx_gen = suc e.tx_gen in
    record {
      next = next;
      entry = record e {
        l2cap_channel = elim path [ l2cap ↦ none | gatt ↦ e.l2cap_channel ];
        subscribed_chars = [];
        tx_gen = tx_gen;
        phase = connected env.now ch tx_gen false;
      };
      effects =
          act (
            start_data_pipe e.device_id e.lifecycle_id tx_gen e.role e.target_endpoint path channel)
          ∷ [];
    }

opened_in : PeerPhase → Env → ℕ → ℕ → PeerEntry → Step
unfolding finish
opened_in (handshaking since ch) env channel next e =
    finish env (record ch { path = l2cap }) l2cap (some channel) next e
opened_in (connected since ch gen true) env channel next e = elim e.pipe [
  | none ↦ record {
    next = next;
    entry = record e { l2cap_upgrade_failed = true; phase = connected since ch gen false };
    effects = [];
  }
  | some pipe ↦ record {
    next = next;
    entry = record e { phase = connected since (record ch { path = l2cap }) gen false };
    effects = act (swap_pipe_to_l2cap e.device_id channel pipe.swap_tx) ∷ [];
  }
]
opened_in other env channel next e = stay next e

-- A result of an upgrade that was superseded is dropped.
unfoldable pub complete_upgrade : Env → ℕ → ℕ → ℕ → ℕ → PeerEntry → Step
unfolding opened_in
complete_upgrade env lifecycle_id upgrade_gen channel next e =
    if (e.lifecycle_id == lifecycle_id) && (e.upgrade_gen == upgrade_gen)
    then opened_in e.phase env channel next e
    else stay next e

unfoldable pub handle_open_l2cap_succeeded : Env → DeviceId → ℕ → ℕ → ℕ → Registry → Outcome
unfolding complete_upgrade with_entry
handle_open_l2cap_succeeded env device_id lifecycle_id upgrade_gen channel =
    with_entry device_id (complete_upgrade env lifecycle_id upgrade_gen channel)

refused_in : PeerPhase → Env → List ℕ → ℕ → PeerEntry → Step
unfolding finish
refused_in (handshaking since ch) env error next e =
    let s = finish env ch gatt none next (record e { l2cap_upgrade_failed = true }) in
    record {
      next = s.next;
      entry = s.entry;
      effects = s.effects ++ act (emit_metric (l2cap_fallback_to_gatt error)) ∷ [];
    }
refused_in (connected since ch gen true) env error next e = record {
  next = next;
  entry = record e { l2cap_upgrade_failed = true; phase = connected since ch gen false };
  effects = [];
}
refused_in other env error next e = stay next e

unfoldable pub give_upgrade_up : Env → ℕ → ℕ → List ℕ → ℕ → PeerEntry → Step
unfolding refused_in
give_upgrade_up env lifecycle_id upgrade_gen error next e =
    if (e.lifecycle_id == lifecycle_id) && (e.upgrade_gen == upgrade_gen)
    then refused_in e.phase env error next e
    else stay next e

unfoldable pub handle_open_l2cap_failed : Env → DeviceId → ℕ → ℕ → List ℕ → Registry → Outcome
unfolding give_upgrade_up with_entry
handle_open_l2cap_failed env device_id lifecycle_id upgrade_gen error =
    with_entry device_id (give_upgrade_up env lifecycle_id upgrade_gen error)

abbrev back_to_gatt : PeerPhase → PeerPhase
back_to_gatt (connected since ch gen up) = connected since (record ch { path = gatt }) gen false
back_to_gatt other = other

unfoldable pub hand_back : ℕ → PeerEntry → Step
hand_back next e =
    stay next (record e { l2cap_upgrade_failed = true; phase = back_to_gatt e.phase })

unfoldable pub handle_l2cap_handover_timeout : DeviceId → Registry → Outcome
unfolding hand_back with_entry
handle_l2cap_handover_timeout device_id = with_entry device_id hand_back
