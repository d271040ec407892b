-- ===== src/Registry/Closing.antt =====
-- The ends of a peer's connection: `handle_forget`, `handle_stalled`, `handle_shutdown`,
-- `handle_adapter_state_changed`, `handle_tick` and `handle_peripheral_client_unsubscribed` of
-- registry.rs.
use iroh_ble_transport.Prelude.{
  retain, ℕ, ◌-◌, Bool, true, false, not, ◌&&◌, none, some, List, [], ◌∷◌, ◌++◌, ltb, leb, ◌==◌,
  if◌then◌else◌, is_empty, is_some,
}
use iroh_ble_transport.Peer.{
  PeerEntry, PeerPhase, ChannelHandle, DisconnectReason, StallCause, DeadReason, DeviceId,
  connected, draining, reconnecting, pending_dial, restoring, dead, connection_aborted,
  close_channel, restore_peripheral, restart_scan, emit_metric, connected_pipe_wedged,
}
use iroh_ble_transport.Dedup.{is_central}
use iroh_ble_transport.Registry.Step.{Env, act, Step, answer_all, live_channel}
use iroh_ble_transport.Registry.Entry.{
  abandon_outstanding, begin_connect, drain_to_draining, resume_drained_entry, draining_timeout,
  restoring_timeout, dead_gc_ttl, connected_idle_deadline,
}
use iroh_ble_transport.Registry.State.{
  powered_on, powered_off, Registry, Outcome, L2capPolicy, disabled, prefer_l2cap, with_entry,
  sweep_all, prune_verified_prefixes,
}
use iroh_ble_transport.Registry.Connecting.{stay, close_if, pruned_if}

unfoldable pub forget_entry : Env → ℕ → PeerEntry → Step
unfolding abandon_outstanding
forget_entry env next e =
    let s = abandon_outstanding next e in
    record {
      next = s.next;
      entry = record (s.entry) {
        pipe = none;
        pending_sends = [];
        rx_backlog = [];
        target_endpoint = none;
        phase = dead DeadReason.forgotten env.now;
      };
      effects =
          s.effects
          ++ (answer_all connection_aborted e.pending_sends
              ++ close_if (live_channel e.phase) e DisconnectReason.local_close);
    }

unfoldable pub handle_forget : Env → DeviceId → Registry → Outcome
unfolding forget_entry with_entry prune_verified_prefixes
handle_forget env device_id r =
    pruned_if (λ e. true) device_id r (with_entry device_id (forget_entry env) r)

abbrev stall_reason : StallCause → DisconnectReason
stall_reason StallCause.link_dead = DisconnectReason.link_dead
stall_reason StallCause.local_close = DisconnectReason.local_close

abbrev resumes : StallCause → Bool
resumes StallCause.link_dead = false
resumes StallCause.local_close = true

stall_in : PeerPhase → Env → StallCause → ℕ → PeerEntry → Step
unfolding drain_to_draining
stall_in (connected since ch gen up) env cause next e =
    let s = drain_to_draining env (stall_reason cause) next e in
    record {
      next = s.next;
      entry = record (s.entry) { resume_after_drain = resumes cause };
      effects =
          s.effects ++ act (close_channel e.device_id e.lifecycle_id ch (stall_reason cause)) ∷ [];
    }
stall_in other env cause next e = stay next e

unfoldable pub stall : Env → StallCause → ℕ → PeerEntry → Step
unfolding stall_in
stall env cause next e = stall_in e.phase env cause next e

unfoldable pub handle_stalled : Env → DeviceId → StallCause → Registry → Outcome
unfolding stall with_entry
handle_stalled env device_id cause = with_entry device_id (stall env cause)

-- Work is invalidated; the phases stay.
unfoldable pub shut_entry : ℕ → PeerEntry → Step
unfolding abandon_outstanding
shut_entry next e =
    let s = abandon_outstanding next e in
    record {
      next = s.next;
      entry = record (s.entry) { pending_sends = [] };
      effects = s.effects ++ answer_all connection_aborted e.pending_sends;
    }

unfoldable pub handle_shutdown : Registry → Outcome
unfolding shut_entry sweep_all
handle_shutdown = sweep_all shut_entry

unfoldable pub power_down : Env → ℕ → PeerEntry → Step
unfolding abandon_outstanding
power_down env next e =
    let s = abandon_outstanding next e in
    record {
      next = s.next;
      entry = record (s.entry) { phase = restoring env.now; pending_sends = [] };
      effects = s.effects;
    }

restored : PeerPhase → Env → PeerPhase
restored (restoring since) env = reconnecting 0 env.now DisconnectReason.adapter_off
restored other env = other

unfoldable pub power_up : Env → ℕ → PeerEntry → Step
unfolding restored
power_up env next e = stay next (record e { phase = restored e.phase env })

abbrev prefers_l2cap : L2capPolicy → Bool
prefers_l2cap prefer_l2cap = true
prefers_l2cap disabled = false

unfoldable pub handle_adapter_state_changed : Env → Bool → Registry → Outcome
unfolding power_down power_up sweep_all
handle_adapter_state_changed env powered r =
    let off = sweep_all (power_down env) (record r { adapter_state = powered_off }) in
    let on = sweep_all (power_up env) (record r { adapter_state = powered_on }) in
    if powered
    then record on {
      effects =
          on.effects
          ++ (act (restore_peripheral (prefers_l2cap r.l2cap_policy)) ∷ act restart_scan ∷ []);
    }
    else off

-- `saturating_duration_since`.
abbrev pub elapsed : ℕ → ℕ → ℕ
elapsed now since = now - since

unfoldable pub drained_to_dead : Env → ℕ → PeerEntry → Step
drained_to_dead env next e = record {
  next = next;
  entry = record e { target_endpoint = none; phase = dead DeadReason.drained env.now };
  effects = [];
}

unfoldable pub wedged : Env → ChannelHandle → ℕ → PeerEntry → Step
unfolding drain_to_draining
wedged env ch next e =
    let s = drain_to_draining env DisconnectReason.link_dead next e in
    record s {
      effects =
          s.effects
          ++ (act (close_channel e.device_id e.lifecycle_id ch DisconnectReason.link_dead)
              ∷ act (emit_metric connected_pipe_wedged)
              ∷ []);
    }

-- The pipe has let nothing through for too long.
abbrev pub is_wedged : Env → PeerEntry → Bool
is_wedged env e = elim e.pipe [
  | none ↦ false
  | some pipe ↦ ltb connected_idle_deadline (elapsed env.now (env.last_rx pipe.last_rx_at))
]

unfoldable pub tick_in : PeerPhase → Env → ℕ → PeerEntry → Step
unfolding begin_connect resume_drained_entry drained_to_dead wedged
tick_in (reconnecting attempt next_at reason) env next e =
    if leb next_at env.now then begin_connect env attempt next e else stay next e
tick_in (pending_dial since deadline prefix) env next e =
    if leb deadline env.now then begin_connect env 0 next e else stay next e
tick_in (draining since reason) env next e =
    if ltb draining_timeout (elapsed env.now since)
    then if e.resume_after_drain
      then resume_drained_entry env next e
      else drained_to_dead env next e
    else stay next e
tick_in (restoring since) env next e =
    if ltb restoring_timeout (elapsed env.now since)
    then drained_to_dead env next e
    else stay next e
tick_in (connected since ch gen up) env next e =
    if is_wedged env e then wedged env ch next e else stay next e
tick_in other env next e = stay next e

unfoldable pub tick_entry : Env → ℕ → PeerEntry → Step
unfolding tick_in
tick_entry env next e = tick_in e.phase env next e

abbrev pub is_expired : ℕ → PeerPhase → Bool
is_expired now (dead reason at) = ltb dead_gc_ttl (elapsed now at)
is_expired now other = false

-- `env.now` is the instant that the command carries. A decision looks at its own entry only, and so
-- does its execution: deciding first and acting afterwards is one pass.
unfoldable pub handle_tick : Env → Registry → Outcome
unfolding tick_entry sweep_all retain prune_verified_prefixes
handle_tick env r =
    let o = sweep_all (tick_entry env) r in
    let r' = o.registry in
    record {
      registry =
          prune_verified_prefixes
            (record r' { peers = retain (λ e. not (is_expired env.now e.phase)) r'.peers });
      effects = o.effects;
    }

unfoldable pub set_remove : ℕ → List ℕ → List ℕ
set_remove x [] = []
set_remove x (y ∷ ys) = if y == x then set_remove x ys else y ∷ set_remove x ys

abbrev pub has_session : PeerEntry → Bool
has_session e = not (is_central e.role) && is_some (live_channel e.phase)

abbrev pub ends_session : ℕ → PeerEntry → Bool
ends_session char_uuid e = has_session e && is_empty (set_remove char_uuid e.subscribed_chars)

unfoldable pub unsubscribe : Env → ℕ → ℕ → PeerEntry → Step
unfolding drain_to_draining set_remove
unsubscribe env char_uuid next e =
    let e' = record e { subscribed_chars = set_remove char_uuid e.subscribed_chars } in
    if ends_session char_uuid e
    then drain_to_draining env DisconnectReason.remote_close next (record e' { rx_backlog = [] })
    else stay next e'

unfoldable pub handle_peripheral_client_unsubscribed : Env → DeviceId → ℕ → Registry → Outcome
unfolding unsubscribe with_entry prune_verified_prefixes
handle_peripheral_client_unsubscribed env client_id char_uuid r =
    pruned_if (ends_session char_uuid) client_id r
      (with_entry client_id (unsubscribe env char_uuid) r)
