-- ===== src/Registry/Stale.antt =====
-- About late reports on work that was given up, for the five commands of registry.rs that carry a
-- lifecycle identity. The reports on a data pipe carry the generation of the pipe in its place, and
-- are not among them.
use iroh_ble_transport.Prelude.{
  Bool, Bool-cases, List, Map, Option, Option-cases, [], arith, false, get, get-AllPairs, if_both,
  inl, inr, insert, insert_same, none, refl, some, subst, ℕ, ◌&&◌, ◌<◌, ◌==◌, ◌∙◌, ◌∷◌, ◌≡◌, ◌≢◌,
  ◌≤◌,
}
use iroh_ble_transport.Peer.{
  ChannelHandle, DeviceId, DisconnectCause, EndpointId, PeerCommand, PeerEntry,
  central_disconnected, connect_failed, connect_succeeded, open_l2cap_failed, open_l2cap_succeeded,
  protocol_version_mismatch,
}
use iroh_ble_transport.Registry.Step.{Env, Step}
use iroh_ble_transport.Registry.State.{
  L2capPolicy, Outcome, Registry, new, prune_verified_prefixes, unchanged, with_entry,
}
use iroh_ble_transport.Registry.Connecting.{
  disconnect, fail, handle_central_disconnected, handle_connect_failed, handle_connect_succeeded,
  handle_protocol_version_mismatch, is_last_attempt, pruned_if, refuse_version, stay, succeed,
}
use iroh_ble_transport.Registry.Upgrades.{
  complete_upgrade, give_upgrade_up, handle_open_l2cap_failed, handle_open_l2cap_succeeded,
}
use iroh_ble_transport.Registry.Handle.{InboxItem, handle, run}
use iroh_ble_transport.Registry.Identity.{EntryOk, IdsOk, Unlike}
use iroh_ble_transport.Registry.Commands.{handle-Holds}
use iroh_ble_transport.Registry.Lifecycles.{Below-Closed, run-IdsOk, run-Retired}

pub data Report : Type 0 where
  report : DeviceId → ℕ → Report

-- The device and the lifecycle identity that the driver reports on, for the five reports that carry
-- one.
abbrev pub completes : PeerCommand → Option Report
completes (connect_succeeded d life ch) = some (report d life)
completes (connect_failed d life error) = some (report d life)
completes (open_l2cap_succeeded d life up ch) = some (report d life)
completes (open_l2cap_failed d life up error) = some (report d life)
completes (protocol_version_mismatch d life got want) = some (report d life)
completes command = none

-- A transition that leaves the entry as it is leaves the registry so.
with_entry_idle :
    (d : DeviceId) (f : ℕ → PeerEntry → Step) (r : Registry)
    → ((e : PeerEntry) → get d r.peers ≡ some e → f r.next_lifecycle e ≡ stay r.next_lifecycle e)
    → with_entry d f r ≡ unchanged r
unfolding with_entry
with_entry_idle d f r h = elim (Option-cases (get d r.peers)) [
  | inl g ↦ rw (g, with_entry) refl
  | inr (e, g) ↦ rw (g, with_entry, h e g, insert_same d r.peers g) refl
]

pruned_if_idle :
    (dies : PeerEntry → Bool) (d : DeviceId) (r : Registry) (o : Outcome)
    → ((e : PeerEntry) → get d r.peers ≡ some e → dies e ≡ false)
    → pruned_if dies d r o ≡ o
unfolding prune_verified_prefixes
pruned_if_idle dies d r o h = elim (Option-cases (get d r.peers)) [
  | inl g ↦ rw (g, pruned_if) refl
  | inr (e, g) ↦ rw (g, pruned_if, h e g) refl
]

module _ (env : Env) (life : ℕ) (n : ℕ) (e : PeerEntry) (apart : e.lifecycle_id ≢ life) where
  succeed_idle : (ch : ChannelHandle) (r : Registry) → succeed env life ch r n e ≡ stay n e
  unfolding succeed
  succeed_idle ch r = ground arith

  fail_idle : (error : List ℕ) → fail env life error n e ≡ stay n e
  unfolding fail
  fail_idle error = ground arith

  complete_upgrade_idle : (up ch : ℕ) → complete_upgrade env life up ch n e ≡ stay n e
  unfolding complete_upgrade
  complete_upgrade_idle up ch = ground arith

  give_upgrade_up_idle :
      (up : ℕ) (error : List ℕ) → give_upgrade_up env life up error n e ≡ stay n e
  unfolding give_upgrade_up
  give_upgrade_up_idle up error = ground arith

  refuse_version_idle : (got want : ℕ) → refuse_version env life got want n e ≡ stay n e
  unfolding refuse_version
  refuse_version_idle got want = ground arith

apart :
    (d' l d life : ℕ) (r : Registry) (q : some (report d' l) ≡ some (report d life))
    (u : Unlike life r.peers) (e : PeerEntry)
    → get d' r.peers ≡ some e
    → e.lifecycle_id ≢ l
apart d' l d life r q u e g =
    let h = get-AllPairs (λ d e. e.lifecycle_id ≢ life) d' r.peers u g in
    let p : l ≡ life = cc in ground (arith)

-- A report whose lifecycle identity no entry has leaves the registry as it is and asks nothing of
-- the driver.
pub handle-Unlike :
    (env : Env) (cmd : PeerCommand) (d : DeviceId) (life : ℕ) (r : Registry)
    → completes cmd ≡ some (report d life)
    → Unlike life r.peers
    → handle env cmd r ≡ unchanged r
unfolding handle handle_connect_succeeded handle_connect_failed handle_protocol_version_mismatch
    handle_open_l2cap_succeeded handle_open_l2cap_failed
handle-Unlike env (connect_succeeded d' l ch) d life r q u =
    with_entry_idle d' (succeed env l ch r) r
      (λ e g. succeed_idle env l r.next_lifecycle e (apart d' l d life r q u e g) ch r)
handle-Unlike env (connect_failed d' l error) d life r q u =
    pruned_if_idle (λ e. (e.lifecycle_id == l) && is_last_attempt e.phase) d' r _
      (λ e g. let h = apart d' l d life r q u e g in ground arith)
    ∙ with_entry_idle d' (fail env l error) r
        (λ e g. fail_idle env l r.next_lifecycle e (apart d' l d life r q u e g) error)
handle-Unlike env (open_l2cap_succeeded d' l up ch) d life r q u =
    with_entry_idle d' (complete_upgrade env l up ch) r
      (λ e g. complete_upgrade_idle env l r.next_lifecycle e (apart d' l d life r q u e g) up ch)
handle-Unlike env (open_l2cap_failed d' l up error) d life r q u =
    with_entry_idle d' (give_upgrade_up env l up error) r
      (λ e g. give_upgrade_up_idle env l r.next_lifecycle e (apart d' l d life r q u e g) up error)
handle-Unlike env (protocol_version_mismatch d' l got want) d life r q u =
    pruned_if_idle (λ e. e.lifecycle_id == l) d' r _
      (λ e g. let h = apart d' l d life r q u e g in ground arith)
    ∙ with_entry_idle d' (refuse_version env l got want) r
        (λ e g. refuse_version_idle env l r.next_lifecycle e (apart d' l d life r q u e g) got want)
handle-Unlike env command d life r q u = absurd (cc)

-- An entry that takes a fresh identity leaves its old one to none.
Unlike-renewed :
    (n d : ℕ) (e e' : PeerEntry) (m : Map PeerEntry)
    → get d m ≡ some e
    → n ≤ e'.lifecycle_id
    → IdsOk n m
    → Unlike e.lifecycle_id (insert d e' m)
unfolding get insert
Unlike-renewed n d e e' [] g h v = absurd (cc)
Unlike-renewed n d e e' ((j, w) ∷ m) g h v = elim (Bool-cases (j == d)) [
  | inl t ↦
      let here : some w ≡ some e = rw t at g in
      let p : w.lifecycle_id ≡ e.lifecycle_id = ground arith in
      rw t (omega (arith, p, h, v.0.0.0), subst (λ i. Unlike i m) p v.1.0)
  | inr t ↦
      let there : get d m ≡ some e = rw t at g in
      let apart : e.lifecycle_id ≢ w.lifecycle_id =
        get-AllPairs (λ d e. e.lifecycle_id ≢ w.lifecycle_id) d m v.1.0 there in
      rw t (omega (arith, apart), Unlike-renewed n d e e' m there h (v.0.1, v.1.1))
]

disconnect_renews :
    (env : Env) (cause : DisconnectCause) (n : ℕ) (e : PeerEntry)
    → n ≤ (disconnect env cause n e).entry.lifecycle_id
unfolding disconnect
disconnect_renews env cause n e = ground arith

disconnected-Unlike :
    (env : Env) (d : DeviceId) (cause : DisconnectCause) (e : PeerEntry) (r : Registry)
    → get d r.peers ≡ some e
    → IdsOk r.next_lifecycle r.peers
    → Unlike e.lifecycle_id (handle env (central_disconnected d cause) r).registry.peers
unfolding handle handle_central_disconnected prune_verified_prefixes with_entry
disconnected-Unlike env d cause e r g v =
    let u =
      Unlike-renewed r.next_lifecycle d e (disconnect env cause r.next_lifecycle e).entry r.peers g
        (disconnect_renews env cause r.next_lifecycle e) v in
    let w : Unlike e.lifecycle_id (with_entry d (disconnect env cause) r).registry.peers =
      rw (g, with_entry) u in
    rw (g, pruned_if)
      (if_both (λ (o : Outcome). Unlike e.lifecycle_id o.registry.peers) (is_last_attempt e.phase) w
        w)

-- Once a known peer is disconnected, a later ConnectSucceeded, ConnectFailed, OpenL2capSucceeded,
-- OpenL2capFailed or ProtocolVersionMismatch with the lifecycle identity that the peer had then has no
-- effect: whatever commands come in between, it leaves the registry as it is and asks nothing of the
-- driver.
pub run-stale :
    (policy : L2capPolicy) (me : EndpointId) (before after : List InboxItem) (env env' : Env)
    (d d' : DeviceId) (cause : DisconnectCause) (cmd : PeerCommand) (e : PeerEntry)
    → get d (run before (new policy me)).peers ≡ some e
    → completes cmd ≡ some (report d' e.lifecycle_id)
    → handle env' cmd (
        run after (handle env (central_disconnected d cause) (run before (new policy me))).registry)
      ≡ unchanged (
          run after
            (handle env (central_disconnected d cause) (run before (new policy me))).registry)
run-stale policy me before after env env' d d' cause cmd e g q =
    let r = run before (new policy me) in
    let v = run-IdsOk policy me before in
    let o = handle env (central_disconnected d cause) r in
    let low = get-AllPairs (EntryOk r.next_lifecycle) d r.peers v.0 g in
    handle-Unlike env' cmd d' e.lifecycle_id _ q (
      run-Retired e.lifecycle_id after (o.registry)
        (handle-Holds (λ n m. e.lifecycle_id < n) (Below-Closed e.lifecycle_id) env
          (central_disconnected d cause) r low.0)
        (disconnected-Unlike env d cause e r g v))
