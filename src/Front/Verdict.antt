-- ===== src/Front/Verdict.antt =====
-- About what a handshake leaves in the routing table and in the connection table (hook.rs).
use iroh_ble_transport.Prelude.{
  List, Map, Option-cases, [], ap, arith, get, get-insert_self, get-remove, inl, inr, insert, map,
  none, refl, remove, some, true, ℕ, ◌==◌, ◌∙◌, ◌≡◌, ◌⊎◌,
}
use iroh_ble_transport.Peer.{EndpointId}
use iroh_ble_transport.Routing.Address.{CustomAddrs}
use iroh_ble_transport.Routing.Table.{Dialer, Reply, Routable, Routing, StableConnId}
use iroh_ble_transport.Routing.Hints.{wake_endpoint_waiters}
use iroh_ble_transport.Routing.Pools.{routable_pipe_for}
use iroh_ble_transport.Routing.Promotion.{
  Contender, PromoteOutcome, accepted, compute, contenders, decide, evict_contenders, install,
  promote, promote_over, promote_pipe, rejected,
}
use iroh_ble_transport.Routing.Promoted.{Decision-cases}
use iroh_ble_transport.Conns.Handle.{ConnId, TransportAddr}
use iroh_ble_transport.Conns.Index.{Conns, ble_close_code_conflict, ble_conflict}
use iroh_ble_transport.Front.Hook.{
  Handshake, after_handshake, after_promotion, let_in, token_of, turn_away,
}

-- The pipe is the route to the endpoint, and no longer pending.
abbrev pub IsRoute : StableConnId → EndpointId → Routing → Type 0
IsRoute id remote r = (routable_pipe_for remote r ≡ some id) × (get id r.pending ≡ none)

routable_pipe_for-insert :
    (remote : EndpointId) (x : Routable) (m : Map Routable) (r : Routing)
    → routable_pipe_for remote (record r { routable = insert remote x m }) ≡ some x.pipe
unfolding routable_pipe_for
routable_pipe_for-insert remote x m r = rw (routable_pipe_for, get-insert_self remote x m) refl

promote_over-IsRoute :
    (now : ℕ) (d : Dialer) (id : StableConnId) (remote : EndpointId) (cs : List Contender)
    (r : Routing)
    → IsRoute id remote (promote_over now id remote d cs r).routing
unfolding promote_over install wake_endpoint_waiters routable_pipe_for
promote_over-IsRoute now d id remote cs r =
    let r' = evict_contenders cs r in
    let entry : Routable = record {
      pipe = id;
      endpoint_id = remote;
      dialer = d;
      verified_at = now;
    } in
    let self : (id == id) ≡ true = ground arith in
    (
      routable_pipe_for-insert remote entry (remove remote r'.routable) r',
      get-remove id id r'.pending ∙ rw self refl,
    )

promote_over-answer :
    (now : ℕ) (d : Dialer) (id : StableConnId) (remote : EndpointId) (cs : List Contender)
    (r : Routing)
    → (promote_over now id remote d cs r).answer ≡ accepted (map (λ (c : Contender). c.pipe) cs)
unfolding promote_over
promote_over-answer now d id remote cs r = refl

-- A reply refuses, and nothing has changed; or it accepts, and the pipe is the route.
abbrev pub IsVerdict : StableConnId → EndpointId → Routing → Reply PromoteOutcome → Type 0
IsVerdict id remote r reply =
    (reply ≡ record { routing = r; woken = []; answer = rejected })
    ⊎ ((evicted : List StableConnId) × (reply.answer ≡ accepted evicted)
        × IsRoute id remote reply.routing)

promote_pipe-IsVerdict :
    (now : ℕ) (d : Dialer) (id : StableConnId) (self remote : EndpointId) (r : Routing)
    → IsVerdict id remote r (promote_pipe now d id self remote r)
unfolding promote_pipe
promote_pipe-IsVerdict now d id self remote r =
    let cs = contenders id self remote r in
    let over : IsVerdict id remote r (promote_over now id remote d cs r) = inr (
      map (λ (c : Contender). c.pipe) cs,
      promote_over-answer now d id remote cs r,
      promote_over-IsRoute now d id remote cs r,
    ) in
    elim (Decision-cases (decide d cs)) [
      | inl a ↦ rw (promote_pipe, a) over
      | inr (inl a) ↦ rw (promote_pipe, a) over
      | inr (inr a) ↦ rw (promote_pipe, a) (inl refl)
    ]

pub promote-IsVerdict :
    (now : ℕ) (id : StableConnId) (self remote : EndpointId) (r : Routing)
    → IsVerdict id remote r (promote now id self remote r)
unfolding promote
promote-IsVerdict now id self remote r = elim (Option-cases (get id r.pipes)) [
  | inl e ↦ rw (e, promote) (inl refl)
  | inr (pipe, e) ↦
      rw (e, promote)
        (promote_pipe-IsVerdict now (compute self remote pipe.direction) id self remote r)
]

-- What a handshake on a pipe comes to.
abbrev pub Settled : StableConnId → EndpointId → Routing → Conns → Handshake → Type 0
Settled id remote r c h =
    ((h.outcome ≡ turn_away ble_close_code_conflict ble_conflict) × (h.routing ≡ r) × (h.conns ≡ c))
    ⊎ ((h.outcome ≡ let_in) × IsRoute id remote h.routing)

after_promotion-Settled :
    (now : ℕ) (id : StableConnId) (remote : EndpointId) (conn : ConnId) (r : Routing) (c : Conns)
    (reply : Reply PromoteOutcome)
    → IsVerdict id remote r reply
    → Settled id remote r c (after_promotion now id remote conn c reply)
unfolding after_promotion
after_promotion-Settled now id remote conn r c reply v = elim v [
  | inl e ↦
      rw (e, after_promotion) (inl (refl, ap (λ (x : Reply PromoteOutcome). x.routing) e, refl))
  | inr (evicted, a, route) ↦ rw (after_promotion, a) (inr (refl, route))
]

-- A handshake whose connection has an address of a pipe is refused, and then both tables are as they
-- were, or it is let in, and then the pipe is the route to the endpoint and no longer pending.
pub after_handshake-Settled :
    (api : CustomAddrs) (now : ℕ) (self remote : EndpointId) (conn : ConnId) (id : StableConnId)
    (addrs : List (TransportAddr api)) (r : Routing) (c : Conns)
    → token_of api addrs ≡ some id
    → Settled id remote r c (after_handshake api now self remote conn addrs r c)
unfolding after_handshake
after_handshake-Settled api now self remote conn id addrs r c t =
    rw (after_handshake, t)
      (after_promotion-Settled now id remote conn r c (promote now id self remote r)
        (promote-IsVerdict now id self remote r))
