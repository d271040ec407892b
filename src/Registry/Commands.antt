-- ===== src/Registry/Commands.antt =====
-- The induction of Closure at each command of registry.rs.
use iroh_ble_transport.Prelude.{
  Bool, List, Map, Option, Option-cases, [], false, get, if_both, inl, inr, none, some, true, ℕ,
  ◌∷◌,
}
use iroh_ble_transport.Peer.{
  DeviceId, DisconnectReason, EndpointId, FragmentSource, KeyPrefix, PeerCommand, PeerEntry,
  adapter_state_changed, advertised, central_connected, central_disconnected, connect_failed,
  connect_succeeded, data_pipe_ready, forget, inbound_gatt_fragment, inbound_l2cap_channel,
  l2cap_handover_timeout, open_l2cap_failed, open_l2cap_succeeded, peripheral_client_subscribed,
  peripheral_client_unsubscribed, prefix_from_endpoint, protocol_version_mismatch, send_datagram,
  shutdown, stalled, tick, verified_endpoint,
}
use iroh_ble_transport.Registry.Step.{Env}
use iroh_ble_transport.Registry.State.{
  powered_on, powered_off, Outcome, Registry, policy_cases, prune_verified_prefixes, select,
  sweep_all,
}
use iroh_ble_transport.Registry.Inbound.{
  channel_for_new, fragment_for_new, handle_inbound_gatt_fragment, handle_inbound_l2cap_channel,
}
use iroh_ble_transport.Registry.Connecting.{
  begin_upgrade, connected_count, handle_central_disconnected, handle_connect_failed,
  handle_connect_succeeded, handle_protocol_version_mismatch,
}
use iroh_ble_transport.Registry.Upgrades.{
  handle_l2cap_handover_timeout, handle_open_l2cap_failed, handle_open_l2cap_succeeded,
}
use iroh_ble_transport.Registry.Closing.{
  handle_adapter_state_changed, handle_forget, handle_peripheral_client_unsubscribed,
  handle_shutdown, handle_stalled, handle_tick, power_down, power_up, shut_entry, tick_entry,
}
use iroh_ble_transport.Registry.Verified.{
  cancel_dials, dedup, handle_advertised, handle_peripheral_client_subscribed,
  handle_verified_endpoint, is_candidate, note_verified, others, restore_verified, stamp,
  stamp_exact, suppress, to_upgrade, upgrade_winner, verify, waits_for, winner_of,
}
use iroh_ble_transport.Registry.Handle.{
  InboxItem, dispatch, forget_previous, handle, is_shutdown, run, verify_endpoint,
}
use iroh_ble_transport.Registry.Contract.{drain_to_draining-Keeps}
use iroh_ble_transport.Registry.Transitions.{
  advertise-Keeps, begin_upgrade-Keeps, channel_for_known-Keeps, channel_for_new-Starts,
  complete_upgrade-Keeps, disconnect-Keeps, fail-Keeps, forget_entry-Keeps,
  fragment_for_known-Keeps, fragment_for_new-Starts, give_upgrade_up-Keeps, hand_back-Keeps,
  handle_data_pipe_ready-Keeps, handle_send_datagram-Keeps, power_down-Keeps, power_up-Keeps,
  refuse_version-Keeps, shut_entry-Keeps, stall-Keeps, stamp-Keeps, stamp_exact-Keeps,
  subscribe-Keeps, succeed-Keeps, suppress-Keeps, tick_entry-Keeps, unsubscribe-Keeps,
}
use iroh_ble_transport.Registry.Closure.{
  Closed, Holds, for_each-Holds, pruned_if-Holds, sweep_all-Holds, with_entry-Holds,
  with_new_entry-Holds,
}

module _ (P : ℕ → Map PeerEntry → Type 0) (closed : Closed P) where
  handle_inbound_gatt_fragment-Holds :
      (env : Env) (d : DeviceId) (source : FragmentSource) (bytes : List ℕ) (r : Registry)
      → Holds P r
      → Holds P (handle_inbound_gatt_fragment env d source bytes r).registry
  unfolding handle_inbound_gatt_fragment
  handle_inbound_gatt_fragment-Holds env d source bytes r v =
      let n = r.next_lifecycle in
      elim (Option-cases (get d r.peers)) [
        | inl g ↦
            rw (g, handle_inbound_gatt_fragment)
              (closed.start n r.peers d (fragment_for_new env bytes d n) g
                (fragment_for_new-Starts env bytes d n) v)
        | inr (e, g) ↦
            rw (g, handle_inbound_gatt_fragment)
              (closed.step n r.peers d e _ g (fragment_for_known-Keeps env source bytes n e) v)
      ]

  handle_inbound_l2cap_channel-Holds :
      (env : Env) (d : DeviceId) (ch : ℕ) (r : Registry)
      → Holds P r
      → Holds P (handle_inbound_l2cap_channel env d ch r).registry
  unfolding handle_inbound_l2cap_channel
  handle_inbound_l2cap_channel-Holds env d ch r v =
      let n = r.next_lifecycle in
      elim (Option-cases (get d r.peers)) [
        | inl g ↦
            rw (g, handle_inbound_l2cap_channel)
              (closed.start n r.peers d (channel_for_new env ch d n) g
                (channel_for_new-Starts env ch d n) v)
        | inr (e, g) ↦
            rw (g, handle_inbound_l2cap_channel)
              (closed.step n r.peers d e _ g (channel_for_known-Keeps env ch n e) v)
      ]

  handle_tick-Holds : (env : Env) (r : Registry) → Holds P r → Holds P (handle_tick env r).registry
  unfolding handle_tick prune_verified_prefixes sweep_all
  handle_tick-Holds env r v =
      closed.drop _ _ _
        (closed.all (tick_entry env) (tick_entry-Keeps env) r.next_lifecycle r.peers v)

  handle_adapter_state_changed-Holds :
      (env : Env) (powered : Bool) (r : Registry)
      → Holds P r
      → Holds P (handle_adapter_state_changed env powered r).registry
  unfolding handle_adapter_state_changed
  handle_adapter_state_changed-Holds env true r v =
      sweep_all-Holds P closed (power_up env) (record r { adapter_state = powered_on })
        (power_up-Keeps env) v
  handle_adapter_state_changed-Holds env false r v =
      sweep_all-Holds P closed (power_down env) (record r { adapter_state = powered_off })
        (power_down-Keeps env) v

  restore_verified-Holds :
      (prefix : KeyPrefix) (old : Option PeerEntry) (r : Registry)
      → Holds P r
      → Holds P (restore_verified prefix old r)
  restore_verified-Holds prefix none r v = v
  restore_verified-Holds prefix (some e) r v = elim (Option-cases e.verified_endpoint) [
    | inl g ↦ rw (g, restore_verified) v
    | inr (endpoint, g) ↦ rw (g, restore_verified) (if_both (Holds P) _ v v)
  ]

  handle_advertised-Holds :
      (env : Env) (prefix : KeyPrefix) (d : DeviceId) (r : Registry)
      → Holds P r
      → Holds P (handle_advertised env prefix d r).registry
  unfolding handle_advertised
  handle_advertised-Holds env prefix d r v =
      if_both (λ (o : Outcome). Holds P o.registry) _
        (with_entry-Holds P closed d (suppress env prefix) r (suppress-Keeps env prefix) v)
        (restore_verified-Holds prefix (get d r.peers) _
          (with_new_entry-Holds P closed d _ r (advertise-Keeps env prefix _) v))

  stamp_exact-Holds :
      (now n : ℕ) (prefix : KeyPrefix) (endpoint : EndpointId) (exact : Option DeviceId)
      (m : Map PeerEntry)
      → P n m
      → P n (stamp_exact now prefix endpoint exact m)
  unfolding stamp_exact
  stamp_exact-Holds now n prefix endpoint none m v = v
  stamp_exact-Holds now n prefix endpoint (some d) m v = elim (Option-cases (get d m)) [
    | inl g ↦ rw (g, stamp_exact) v
    | inr (e, g) ↦
        let e' = record (verify now endpoint e) { prefix = some prefix } in
        rw (g, stamp_exact)
          (closed.step n m d e (record { next = n; entry = e'; effects = [] }) g
            (stamp_exact-Keeps now n prefix endpoint e) v)
  ]

  note_verified-Holds :
      (env : Env) (endpoint : EndpointId) (exact : Option DeviceId) (r : Registry)
      → Holds P r
      → Holds P (note_verified env endpoint exact r)
  unfolding note_verified sweep_all
  note_verified-Holds env endpoint exact r v =
      let prefix = prefix_from_endpoint endpoint in
      closed.all (stamp env.now prefix endpoint) (stamp-Keeps env.now prefix endpoint)
        r.next_lifecycle _
        (stamp_exact-Holds env.now r.next_lifecycle prefix endpoint exact r.peers v)

  cancel_dials-Holds :
      (env : Env) (prefix : KeyPrefix) (r : Registry)
      → Holds P r
      → Holds P (cancel_dials env prefix r).registry
  unfolding cancel_dials
  cancel_dials-Holds env prefix r v =
      for_each-Holds P closed (select (λ e. waits_for prefix e.phase) r.peers) _ r
        (drain_to_draining-Keeps env DisconnectReason.dedup_loser) v

  dedup-Holds :
      (env : Env) (prefix : KeyPrefix) (endpoint : EndpointId) (r : Registry)
      → Holds P r
      → Holds P (dedup env prefix endpoint r).registry
  unfolding dedup
  dedup-Holds env prefix endpoint r v =
      let candidates = select (is_candidate prefix) r.peers in
      if_both (λ (o : Outcome). Holds P o.registry) _
        (for_each-Holds P closed
          (others (winner_of env.now r.my_endpoint endpoint r.peers candidates) candidates) _ r
          (drain_to_draining-Keeps env DisconnectReason.dedup_loser) v)
        v

  upgrade_winner-Holds :
      (prefix : KeyPrefix) (endpoint : EndpointId) (r : Registry)
      → Holds P r
      → Holds P (upgrade_winner prefix endpoint r).registry
  unfolding upgrade_winner
  upgrade_winner-Holds prefix endpoint r v = elim (policy_cases r.l2cap_policy) [
    | inl g ↦ rw (g, upgrade_winner) v
    | inr g ↦
        rw (g, upgrade_winner)
          (for_each-Holds P closed
            (select (to_upgrade (connected_count prefix r.peers) prefix r.my_endpoint endpoint)
              r.peers)
            begin_upgrade r begin_upgrade-Keeps v)
  ]

  pub handle_verified_endpoint-Holds :
      (env : Env) (endpoint : EndpointId) (exact : Option DeviceId) (r : Registry)
      → Holds P r
      → Holds P (handle_verified_endpoint env endpoint exact r).registry
  unfolding handle_verified_endpoint
  handle_verified_endpoint-Holds env endpoint exact r v =
      let prefix = prefix_from_endpoint endpoint in
      upgrade_winner-Holds prefix endpoint _ (
        dedup-Holds env prefix endpoint _
          (cancel_dials-Holds env prefix _ (note_verified-Holds env endpoint exact r v)))

  pub handle-Holds :
      (env : Env) (cmd : PeerCommand) (r : Registry)
      → Holds P r
      → Holds P (handle env cmd r).registry
  unfolding handle handle_connect_succeeded handle_connect_failed handle_protocol_version_mismatch
      handle_central_disconnected handle_open_l2cap_succeeded handle_open_l2cap_failed
      handle_l2cap_handover_timeout handle_forget handle_stalled handle_shutdown
      handle_peripheral_client_unsubscribed handle_peripheral_client_subscribed
  handle-Holds env (advertised prefix d rssi) r v = handle_advertised-Holds env prefix d r v
  handle-Holds env (central_connected d) r v = v
  handle-Holds env (central_disconnected d cause) r v =
      pruned_if-Holds P closed _ d r _
        (with_entry-Holds P closed d _ r (disconnect-Keeps env cause) v)
  handle-Holds env (inbound_gatt_fragment d source bytes) r v =
      handle_inbound_gatt_fragment-Holds env d source bytes r v
  handle-Holds env (inbound_l2cap_channel d ch) r v =
      handle_inbound_l2cap_channel-Holds env d ch r v
  handle-Holds env (adapter_state_changed powered) r v =
      handle_adapter_state_changed-Holds env powered r v
  handle-Holds env (send_datagram d target gen bytes waker) r v =
      with_new_entry-Holds P closed d _ r (handle_send_datagram-Keeps env target _) v
  handle-Holds env (tick now) r v = handle_tick-Holds (record env { now = now }) r v
  handle-Holds env (connect_succeeded d life ch) r v =
      with_entry-Holds P closed d _ r (succeed-Keeps env life ch r) v
  handle-Holds env (connect_failed d life error) r v =
      pruned_if-Holds P closed _ d r _
        (with_entry-Holds P closed d _ r (fail-Keeps env life error) v)
  handle-Holds env (open_l2cap_succeeded d life up ch) r v =
      with_entry-Holds P closed d _ r (complete_upgrade-Keeps env life up ch) v
  handle-Holds env (open_l2cap_failed d life up error) r v =
      with_entry-Holds P closed d _ r (give_upgrade_up-Keeps env life up error) v
  handle-Holds env (protocol_version_mismatch d life got want) r v =
      pruned_if-Holds P closed _ d r _
        (with_entry-Holds P closed d _ r (refuse_version-Keeps env life got want) v)
  handle-Holds env (stalled d cause) r v = with_entry-Holds P closed d _ r (stall-Keeps env cause) v
  handle-Holds env (forget d) r v =
      pruned_if-Holds P closed (λ e. true) d r _
        (with_entry-Holds P closed d _ r (forget_entry-Keeps env) v)
  handle-Holds env (data_pipe_ready d gen pipe) r v =
      with_entry-Holds P closed d _ r (handle_data_pipe_ready-Keeps env gen pipe) v
  handle-Holds env (verified_endpoint endpoint token) r v =
      handle_verified_endpoint-Holds env endpoint none r v
  handle-Holds env (peripheral_client_subscribed d char prefix) r v =
      with_new_entry-Holds P closed d _ r (subscribe-Keeps env char prefix _) v
  handle-Holds env (peripheral_client_unsubscribed d char) r v =
      pruned_if-Holds P closed _ d r _
        (with_entry-Holds P closed d _ r (unsubscribe-Keeps env char) v)
  handle-Holds env (l2cap_handover_timeout d) r v =
      with_entry-Holds P closed d _ r hand_back-Keeps v
  handle-Holds env shutdown r v = sweep_all-Holds P closed shut_entry r shut_entry-Keeps v

  verify_endpoint-Holds :
      (c : InboxItem) (endpoint : EndpointId) (token : Option ℕ) (r : Registry)
      → Holds P r
      → Holds P (verify_endpoint c endpoint token r).registry
  unfolding verify_endpoint
  verify_endpoint-Holds c endpoint token r v =
      handle_verified_endpoint-Holds (c.env) endpoint _ _ (forgotten _)
    where
      forgotten :
          (exact : Option DeviceId) → Holds P (forget_previous (c.env) exact (c.routed) r).registry
      forgotten none = v
      forgotten (some d) = elim (Option-cases (c.routed.previous)) [
        | inl g ↦ rw (g, forget_previous) v
        | inr (previous, g) ↦ rw (g, forget_previous) (handle-Holds (c.env) (forget previous) r v)
      ]

  dispatch-Holds :
      (cmd : PeerCommand) (c : InboxItem) (r : Registry)
      → Holds P r
      → Holds P (dispatch cmd c r).registry
  unfolding dispatch
  dispatch-Holds (verified_endpoint endpoint token) c r v =
      verify_endpoint-Holds c endpoint token r v
  dispatch-Holds other c r v = handle-Holds (c.env) other r v

  pub run-Holds : (h : List InboxItem) (r : Registry) → Holds P r → Holds P (run h r)
  unfolding run
  run-Holds [] r v = v
  run-Holds (c ∷ h) r v =
      let w = dispatch-Holds c.command c r v in
      if_both (Holds P) (is_shutdown c.command) w (run-Holds h (dispatch c.command c r).registry w)
