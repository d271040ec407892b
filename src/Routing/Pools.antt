-- ===== src/Routing/Pools.antt =====
-- The pools of pending and routable pipes of routing.rs.
use iroh_ble_transport.Prelude.{
  Bool, List, Map, Option, [], find_key, find_value, get, if◌then◌else◌, insert, is_some, none,
  opt_eq, remove, some, ℕ, ◌++◌, ◌==◌, ◌||◌, ◌∷◌,
}
use iroh_ble_transport.Peer.{DeviceId, EndpointId}
use iroh_ble_transport.Routing.Table.{
  Dialer, Pending, Reply, Routable, Routing, StableConnId, device_for_pipe,
}
use iroh_ble_transport.Routing.Hints.{wake_endpoint_waiters}

unfoldable pub register_pending : ℕ → StableConnId → Option EndpointId → Routing → Routing × List ℕ
unfolding wake_endpoint_waiters
register_pending now pipe target_endpoint r =
    let entry : Pending = record {
      pipe = pipe;
      target_endpoint = target_endpoint;
      created_at = now;
    } in
    let r' = record r { pending = insert pipe entry r.pending } in
    elim target_endpoint [ none ↦ (r', []) | some e ↦ wake_endpoint_waiters e r' ]

unfoldable pub evict_pending : StableConnId → Routing → Routing × Option Pending
evict_pending pipe r = (record r { pending = remove pipe r.pending }, get pipe r.pending)

unfoldable pub insert_routable :
    ℕ → EndpointId → StableConnId → Dialer → Routing → Reply (Option Routable)
unfolding wake_endpoint_waiters
insert_routable now endpoint_id pipe dialer r =
    let entry : Routable = record {
      pipe = pipe;
      endpoint_id = endpoint_id;
      dialer = dialer;
      verified_at = now;
    } in
    let r' = record r {
      pending = remove pipe r.pending;
      routable = insert endpoint_id entry r.routable;
    } in
    let (r'', woken) = wake_endpoint_waiters endpoint_id r' in
    record { routing = r''; woken = woken; answer = get endpoint_id r.routable }

-- The entry is taken out, and whoever waits for the endpoint is woken.
unfoldable pub drop_routable : EndpointId → Routable → Routing → Reply (Option Routable)
unfolding wake_endpoint_waiters
drop_routable endpoint_id entry r =
    let (r', woken) =
      wake_endpoint_waiters endpoint_id (record r { routable = remove endpoint_id r.routable }) in
    record { routing = r'; woken = woken; answer = some entry }

unfoldable pub evict_routable : EndpointId → Routing → Reply (Option Routable)
unfolding drop_routable
evict_routable endpoint_id r = elim (get endpoint_id r.routable) [
  | none ↦ record { routing = r; woken = []; answer = none }
  | some entry ↦ drop_routable endpoint_id entry r
]

unfoldable pub evict_routable_if_pipe :
    EndpointId → StableConnId → Routing → Reply (Option Routable)
unfolding drop_routable
evict_routable_if_pipe endpoint_id pipe r = elim (get endpoint_id r.routable) [
  | none ↦ record { routing = r; woken = []; answer = none }
  | some current ↦
      if current.pipe == pipe
      then drop_routable endpoint_id current r
      else record { routing = r; woken = []; answer = none }
]

abbrev pub rides : StableConnId → Routable → Bool
rides pipe x = x.pipe == pipe

unfoldable pub wake_some : Option EndpointId → Routing → Routing × List ℕ
unfolding wake_endpoint_waiters
wake_some none r = (r, [])
wake_some (some e) r = wake_endpoint_waiters e r

abbrev pub target_of : Option Pending → Option EndpointId
target_of none = none
target_of (some p) = p.target_endpoint

abbrev pub remove_opt {ℓ} : {V : Type ℓ} → Option ℕ → Map V → Map V
remove_opt none m = m
remove_opt (some k) m = remove k m

-- The pipe goes out of either pool; the endpoints that it served are woken.
unfoldable pub evict_pipe_state : StableConnId → Routing → Reply Bool
unfolding wake_some
evict_pipe_state pipe r =
    let removed = get pipe r.pending in
    let endpoint = find_key (rides pipe) r.routable in
    let r' = record r {
      pending = remove pipe r.pending;
      routable = remove_opt endpoint r.routable;
    } in
    let (r1, woken1) = wake_some (target_of removed) r' in
    let (r2, woken2) = wake_some endpoint r1 in
    record { routing = r2; woken = woken1 ++ woken2; answer = is_some removed || is_some endpoint }

unfoldable pub routable_pipe_for : EndpointId → Routing → Option StableConnId
routable_pipe_for endpoint_id r = elim (get endpoint_id r.routable) [
  | none ↦ none
  | some x ↦ some x.pipe
]

unfoldable pub pending_pipe_for : EndpointId → Routing → Option StableConnId
pending_pipe_for endpoint_id r =
    elim (find_value (λ (p : Pending). opt_eq p.target_endpoint (some endpoint_id)) r.pending) [
      | none ↦ none
      | some p ↦ some p.pipe
    ]

pub record RoutableSnapshot : Type 0 where
  pub endpoint_id : EndpointId
  pub stable_id : StableConnId
  pub device_id : DeviceId
  pub verified_at : ℕ

-- The routable entries whose pipe is live.
unfoldable pub snapshots : Routing → Map Routable → List RoutableSnapshot
unfolding device_for_pipe
snapshots r [] = []
snapshots r ((k, x) ∷ m) =
    let rest = snapshots r m in
    elim (device_for_pipe x.pipe r) [
      | none ↦ rest
      | some d ↦
          record {
            endpoint_id = x.endpoint_id;
            stable_id = x.pipe;
            device_id = d;
            verified_at = x.verified_at;
          }
          ∷ rest
    ]

unfoldable pub routable_entries : Routing → List RoutableSnapshot
unfolding snapshots
routable_entries r = snapshots r r.routable
