-- ===== src/Registry/Connecting.antt =====
-- The ends of a dial: `handle_connect_succeeded`, `handle_connect_failed`,
-- `handle_protocol_version_mismatch` and `handle_central_disconnected` of registry.rs.
use iroh_ble_transport.Prelude.{
  ℕ, suc, ◌+◌, Bool, true, false, not, ◌&&◌, Option, none, some, List, [], ◌∷◌, ◌++◌, leb, ◌==◌,
  opt_eq, if◌then◌else◌, Map, get,
}
use iroh_ble_transport.Peer.{
  PeerEntry, PeerPhase, ConnectRole, ChannelHandle, DisconnectReason, DisconnectCause, EndpointId,
  KeyPrefix, reason_of, connecting, connected, draining, reconnecting, dead, gatt, DeadReason,
  Metric, read_version, start_data_pipe, upgrade_to_l2cap, close_native_connection, emit_metric,
  forget_peer_store, refresh, close_channel, DeviceId,
}
use iroh_ble_transport.Dedup.{is_central, should_dial_l2cap}
use iroh_ble_transport.Registry.Step.{Env, Effect, act, Step, is_connected, live_channel}
use iroh_ble_transport.Registry.Entry.{
  abandon_outstanding, drain_to_draining, resume_drained_entry, reconnect_backoff,
  max_connect_attempts,
}
use iroh_ble_transport.Registry.State.{
  Registry, Outcome, L2capPolicy, disabled, prefer_l2cap, with_entry, prune_verified_prefixes,
  pruned,
}

abbrev pub stay : ℕ → PeerEntry → Step
stay next e = record { next = next; entry = e; effects = [] }

unfoldable pub should_emit_l2cap_upgrade : ℕ → ConnectRole → EndpointId → EndpointId → Bool
unfolding should_dial_l2cap
should_emit_l2cap_upgrade connected_for_prefix role my_endpoint peer_endpoint =
    if leb connected_for_prefix 1
    then is_central role
    else should_dial_l2cap role my_endpoint peer_endpoint

abbrev pub set_upgrading : Bool → PeerPhase → PeerPhase
set_upgrading b (connected since ch gen up) = connected since ch gen b
set_upgrading b other = other

-- Ask the driver for an L2CAP channel, under a fresh upgrade number.
unfoldable pub begin_upgrade : ℕ → PeerEntry → Step
begin_upgrade next e = record {
  next = next;
  entry = record e { phase = set_upgrading true e.phase; upgrade_gen = suc e.upgrade_gen };
  effects = act (upgrade_to_l2cap e.device_id e.lifecycle_id (suc e.upgrade_gen)) ∷ [];
}

-- How many peers of that prefix are connected.
unfoldable pub connected_count : KeyPrefix → Map PeerEntry → ℕ
connected_count prefix [] = 0
connected_count prefix ((d, e) ∷ m) =
    let rest = connected_count prefix m in
    if opt_eq e.prefix (some prefix) && is_connected e.phase then suc rest else rest

abbrev prefers_l2cap : L2capPolicy → Bool
prefers_l2cap prefer_l2cap = true
prefers_l2cap disabled = false

-- The endpoint that the peer's prefix was verified for.
abbrev pub known_endpoint : Registry → PeerEntry → Option EndpointId
known_endpoint r e = elim e.prefix [ none ↦ none | some prefix ↦ get prefix r.verified_prefixes ]

abbrev wants_upgrade : Registry → PeerEntry → Bool
wants_upgrade r e = elim (known_endpoint r e) [
  | none ↦ false
  | some endpoint ↦
      prefers_l2cap r.l2cap_policy
      && (not e.l2cap_upgrade_failed
          && should_emit_l2cap_upgrade
              (elim e.prefix [ none ↦ 0 | some prefix ↦ connected_count prefix r.peers + 1 ]) e.role
              r.my_endpoint endpoint)
]

-- The dial that is current has come up; `upgrade` says whether to go on to L2CAP at once.
unfoldable pub establish : Env → ChannelHandle → Bool → ℕ → PeerEntry → Step
unfolding begin_upgrade
establish env ch upgrade next e =
    let tx_gen = suc e.tx_gen in
    let e' = record e {
      consecutive_failures = 0;
      subscribed_chars = [];
      tx_gen = tx_gen;
      phase = connected env.now ch tx_gen false;
    } in
    let s = if upgrade then begin_upgrade next e' else stay next e' in
    record s {
      effects =
          act (read_version e.device_id e.lifecycle_id)
          ∷ act
              (start_data_pipe e.device_id e.lifecycle_id tx_gen e.role e.target_endpoint gatt none)
          ∷ s.effects;
    }

succeed_in : PeerPhase → Env → ChannelHandle → Bool → ℕ → PeerEntry → Step
unfolding establish
succeed_in (connecting attempt started path) env ch upgrade next e = establish env ch upgrade next e
succeed_in other env ch upgrade next e = stay next e

-- A result of an attempt that was replaced is dropped.
unfoldable pub succeed : Env → ℕ → ChannelHandle → Registry → ℕ → PeerEntry → Step
unfolding succeed_in
succeed env lifecycle_id ch r next e =
    if e.lifecycle_id == lifecycle_id
    then succeed_in e.phase env ch (wants_upgrade r e) next e
    else stay next e

unfoldable pub handle_connect_succeeded : Env → DeviceId → ℕ → ChannelHandle → Registry → Outcome
unfolding succeed with_entry
handle_connect_succeeded env device_id lifecycle_id ch r =
    with_entry device_id (succeed env lifecycle_id ch r) r

abbrev forget_stored : Option KeyPrefix → List Effect
forget_stored none = []
forget_stored (some prefix) = act (forget_peer_store prefix) ∷ []

-- A dial has failed: another attempt after a while, or the end of the peer.
unfoldable pub retry_or_die : Env → ℕ → DisconnectReason → ℕ → PeerEntry → Step
retry_or_die env next_attempt reason next e =
    if leb max_connect_attempts next_attempt
    then record {
      next = next;
      entry = record e { target_endpoint = none; phase = dead DeadReason.max_retries env.now };
      effects = forget_stored e.prefix;
    }
    else record {
      next = next;
      entry = record e {
        phase = reconnecting next_attempt (env.now + reconnect_backoff next_attempt) reason;
      };
      effects = [];
    }

fail_in : PeerPhase → Env → List ℕ → ℕ → PeerEntry → Step
unfolding abandon_outstanding retry_or_die
fail_in (connecting attempt started path) env error next e =
    let s = abandon_outstanding next e in
    let t =
      retry_or_die env (suc attempt) DisconnectReason.timeout s.next
        (record (s.entry) { consecutive_failures = suc e.consecutive_failures }) in
    record t {
      effects =
          act (close_native_connection e.device_id e.lifecycle_id) ∷ s.effects
          ++ (act (emit_metric (Metric.connect_failed error)) ∷ t.effects);
    }
fail_in other env error next e = stay next e

-- The verified prefixes are pruned where a peer has died of it.
abbrev pub pruned_if : (PeerEntry → Bool) → DeviceId → Registry → Outcome → Outcome
pruned_if dies device_id r o = elim (get device_id r.peers) [
  | none ↦ o
  | some e ↦ if dies e then pruned o else o
]

abbrev pub is_last_attempt : PeerPhase → Bool
is_last_attempt (connecting attempt started path) = leb max_connect_attempts (suc attempt)
is_last_attempt other = false

unfoldable pub fail : Env → ℕ → List ℕ → ℕ → PeerEntry → Step
unfolding fail_in
fail env lifecycle_id error next e =
    if e.lifecycle_id == lifecycle_id then fail_in e.phase env error next e else stay next e

unfoldable pub handle_connect_failed : Env → DeviceId → ℕ → List ℕ → Registry → Outcome
unfolding fail with_entry prune_verified_prefixes
handle_connect_failed env device_id lifecycle_id error r =
    pruned_if (λ e. (e.lifecycle_id == lifecycle_id) && is_last_attempt e.phase) device_id r
      (with_entry device_id (fail env lifecycle_id error) r)

-- The channel that was open is closed, under the lifecycle that opened it.
abbrev pub close_if : Option ChannelHandle → PeerEntry → DisconnectReason → List Effect
close_if none e reason = []
close_if (some ch) e reason = act (close_channel e.device_id e.lifecycle_id ch reason) ∷ []

unfoldable pub mismatch : Env → ℕ → ℕ → ℕ → PeerEntry → Step
unfolding drain_to_draining
mismatch env got want next e =
    let s = drain_to_draining env DisconnectReason.protocol_mismatch next e in
    record {
      next = s.next;
      entry = record (s.entry) {
        target_endpoint = none;
        phase = dead (DeadReason.protocol_mismatch got want) env.now;
      };
      effects = s.effects ++ close_if (live_channel e.phase) e DisconnectReason.protocol_mismatch;
    }

unfoldable pub refuse_version : Env → ℕ → ℕ → ℕ → ℕ → PeerEntry → Step
unfolding mismatch
refuse_version env lifecycle_id got want next e =
    if e.lifecycle_id == lifecycle_id then mismatch env got want next e else stay next e

unfoldable pub handle_protocol_version_mismatch : Env → DeviceId → ℕ → ℕ → ℕ → Registry → Outcome
unfolding refuse_version with_entry prune_verified_prefixes
handle_protocol_version_mismatch env device_id lifecycle_id got want r =
    pruned_if (λ e. e.lifecycle_id == lifecycle_id) device_id r
      (with_entry device_id (refuse_version env lifecycle_id got want) r)

abbrev refresh_if : DisconnectReason → PeerEntry → List Effect
refresh_if DisconnectReason.gatt133 e = act (refresh e.device_id e.lifecycle_id) ∷ []
refresh_if other e = []

-- A disconnect in the middle of a dial is the failure of that dial.
drop_dial : Env → ℕ → DisconnectReason → ℕ → PeerEntry → Step
unfolding abandon_outstanding retry_or_die
drop_dial env attempt reason next e =
    let s = abandon_outstanding next e in
    let t = retry_or_die env (suc attempt) reason s.next (record (s.entry) {
      consecutive_failures = suc e.consecutive_failures;
      pending_sends = [];
    }) in
    record t {
      effects =
          s.effects
          ++ (act (emit_metric (Metric.connect_failed_by reason)) ∷ t.effects
              ++ refresh_if reason e);
    }

drop_link : Env → DisconnectReason → ℕ → PeerEntry → Step
unfolding drain_to_draining
drop_link env reason next e =
    let s = drain_to_draining env reason next e in
    record s {
      effects = s.effects ++ (close_if (live_channel e.phase) e reason ++ refresh_if reason e);
    }

-- Our own close has landed if the drain was our decision.
disconnect_in : PeerPhase → Env → DisconnectReason → ℕ → PeerEntry → Step
unfolding drop_dial drop_link resume_drained_entry
disconnect_in (draining since r) env reason next e =
    if e.resume_after_drain then resume_drained_entry env next e else drop_link env reason next e
disconnect_in (connecting attempt started path) env reason next e =
    drop_dial env attempt reason next e
disconnect_in other env reason next e = drop_link env reason next e

unfoldable pub disconnect : Env → DisconnectCause → ℕ → PeerEntry → Step
unfolding disconnect_in reason_of
disconnect env cause next e = disconnect_in e.phase env (reason_of cause) next e

unfoldable pub handle_central_disconnected : Env → DeviceId → DisconnectCause → Registry → Outcome
unfolding disconnect with_entry prune_verified_prefixes
handle_central_disconnected env device_id cause r =
    pruned_if (λ e. is_last_attempt e.phase) device_id r
      (with_entry device_id (disconnect env cause) r)
