-- ===== src/Routing/Promotion.antt =====
-- The promotion rule: `Dialer::compute`, `decide` and `promote` of routing.rs.
use iroh_ble_transport.Prelude.{
  Bool, List, Map, Option, [], any, false, find_key, get, if◌then◌else◌, insert, ltb, map, none,
  not, opt_eq, remove, some, true, ℕ, ◌&&◌, ◌++◌, ◌==◌, ◌∷◌,
}
use iroh_ble_transport.Peer.{EndpointId}
use iroh_ble_transport.Routing.Table.{
  Dialer, Direction, Pending, Pipe, Reply, Routable, Routing, StableConnId, high, low,
}
use iroh_ble_transport.Routing.Hints.{wake_endpoint_waiters}
use iroh_ble_transport.Routing.Pools.{remove_opt, rides}

-- Both ends of a pair compute the same answer for a pipe.
unfoldable pub compute : EndpointId → EndpointId → Direction → Dialer
compute self_id remote_id Direction.outbound = if ltb self_id remote_id then low else high
compute self_id remote_id Direction.inbound = if ltb self_id remote_id then high else low

pub record Contender : Type 0 where
  pub pipe : StableConnId
  pub dialer : Dialer

pub data Decision : Type 0 where
  accept accept_evicting_all reject : Decision

abbrev pub is_high : Dialer → Bool
is_high high = true
is_high low = false

unfoldable pub decide : Dialer → List Contender → Decision
decide new_dialer [] = accept
decide new_dialer (c ∷ cs) =
    if not (is_high new_dialer) && any (λ (x : Contender). is_high x.dialer) (c ∷ cs)
    then reject
    else accept_evicting_all

-- Another pending pipe that was dialled for the same endpoint.
abbrev pub rivals_for : StableConnId → EndpointId → ℕ → Pending → Bool
rivals_for pipe_id remote pid p = not (pid == pipe_id) && opt_eq p.target_endpoint (some remote)

unfoldable pub pending_contenders :
    StableConnId → EndpointId → EndpointId → Map Pipe → Map Pending → List Contender
unfolding compute
pending_contenders pipe_id self remote pipes [] = []
pending_contenders pipe_id self remote pipes ((pid, p) ∷ m) =
    let rest = pending_contenders pipe_id self remote pipes m in
    if rivals_for pipe_id remote pid p
    then elim (get pid pipes) [
      | none ↦ rest
      | some other ↦ record { pipe = pid; dialer = compute self remote other.direction } ∷ rest
    ]
    else rest

abbrev pub routable_contender : StableConnId → Option Routable → List Contender
routable_contender pipe_id none = []
routable_contender pipe_id (some x) =
    if x.pipe == pipe_id then [] else record { pipe = x.pipe; dialer = x.dialer } ∷ []

unfoldable pub contenders : StableConnId → EndpointId → EndpointId → Routing → List Contender
unfolding pending_contenders
contenders pipe_id self remote r =
    routable_contender pipe_id (get remote r.routable)
    ++ pending_contenders pipe_id self remote r.pipes r.pending

-- A losing pipe leaves the pools.
unfoldable pub evict_contenders : List Contender → Routing → Routing
evict_contenders [] r = r
evict_contenders (c ∷ cs) r = evict_contenders cs (record r {
  pending = remove c.pipe r.pending;
  routable = remove_opt (find_key (rides c.pipe) r.routable) r.routable;
})

pub data PromoteOutcome : Type 0 where
  accepted : List StableConnId → PromoteOutcome
  rejected : PromoteOutcome

-- The pipe becomes the route to its endpoint.
unfoldable pub install : ℕ → StableConnId → EndpointId → Dialer → Routing → Routing
install now pipe_id remote dialer r =
    let entry : Routable = record {
      pipe = pipe_id;
      endpoint_id = remote;
      dialer = dialer;
      verified_at = now;
    } in
    record r {
      pending = remove pipe_id r.pending;
      routable = insert remote entry (remove remote r.routable);
    }

unfoldable pub promote_over :
    ℕ → StableConnId → EndpointId → Dialer → List Contender → Routing → Reply PromoteOutcome
unfolding evict_contenders install wake_endpoint_waiters
promote_over now pipe_id remote dialer losers r =
    let (r', woken) =
      wake_endpoint_waiters remote
        (install now pipe_id remote dialer (evict_contenders losers r)) in
    record {
      routing = r';
      woken = woken;
      answer = accepted (map (λ (c : Contender). c.pipe) losers);
    }

-- With the dialer that has been computed for the pipe.
unfoldable pub promote_pipe :
    ℕ → Dialer → StableConnId → EndpointId → EndpointId → Routing → Reply PromoteOutcome
unfolding contenders decide promote_over
promote_pipe now dialer pipe_id self remote r =
    let cs = contenders pipe_id self remote r in
    elim (decide dialer cs) [
      | accept ↦ promote_over now pipe_id remote dialer cs r
      | accept_evicting_all ↦ promote_over now pipe_id remote dialer cs r
      | reject ↦ record { routing = r; woken = []; answer = rejected }
    ]

unfoldable pub promote : ℕ → StableConnId → EndpointId → EndpointId → Routing → Reply PromoteOutcome
unfolding compute promote_pipe
promote now pipe_id self remote r = elim (get pipe_id r.pipes) [
  | none ↦ record { routing = r; woken = []; answer = rejected }
  | some pipe ↦ promote_pipe now (compute self remote pipe.direction) pipe_id self remote r
]
