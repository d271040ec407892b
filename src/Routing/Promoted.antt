-- ===== src/Routing/Promoted.antt =====
-- What promotions of several pipes to one endpoint leave: `promote` of routing.rs in any sequence.
use iroh_ble_transport.Prelude.{
  All, Bool-cases, List, Map, Option-cases, [], any, arith, false, find_key, get, get-insert_self,
  inl, inr, refl, remove, some, subst, sym, true, ℕ, ◌==◌, ◌∷◌, ◌≡◌, ◌≢◌, ◌⊎◌,
}
use iroh_ble_transport.Peer.{EndpointId}
use iroh_ble_transport.Routing.Table.{Dialer, Pipe, Routable, Routing, StableConnId, high, low}
use iroh_ble_transport.Routing.Hints.{wake_endpoint_waiters}
use iroh_ble_transport.Routing.Pools.{remove_opt, rides}
use iroh_ble_transport.Routing.Promotion.{
  Contender, Decision, accept, accept_evicting_all, compute, contenders, decide, evict_contenders,
  install, promote, promote_over, promote_pipe, reject, rejected,
}

-- The pipe is live, and the rule computes this dialer for it.
abbrev pub Dials : EndpointId → EndpointId → Dialer → StableConnId → Map Pipe → Type 0
Dials self remote dialer p pipes =
    (pipe : Pipe) × (get p pipes ≡ some pipe) × (compute self remote pipe.direction ≡ dialer)

-- The one high pipe, or a low one that is live.
abbrev pub OneHigh : EndpointId → EndpointId → StableConnId → Map Pipe → StableConnId → Type 0
OneHigh self remote h pipes p = (p ≡ h) ⊎ Dials self remote low p pipes

-- The route to the endpoint is that pipe, as one that the high side has dialled.
abbrev pub RoutedHigh : StableConnId → EndpointId → Routing → Type 0
RoutedHigh p remote r =
    (x : Routable) × (get remote r.routable ≡ some x) × (x.pipe ≡ p) × (x.dialer ≡ high)

pub evict_contenders-pipes :
    (cs : List Contender) (r : Routing) → (evict_contenders cs r).pipes ≡ r.pipes
unfolding evict_contenders
evict_contenders-pipes [] r = refl
evict_contenders-pipes (c ∷ cs) r = evict_contenders-pipes cs (record r {
  pending = remove c.pipe r.pending;
  routable = remove_opt (find_key (rides c.pipe) r.routable) r.routable;
})

pub Decision-cases : (d : Decision) → (d ≡ accept) ⊎ (d ≡ accept_evicting_all) ⊎ (d ≡ reject)
Decision-cases accept = inl refl
Decision-cases accept_evicting_all = inr (inl refl)
Decision-cases reject = inr (inr refl)

decide_high :
    (cs : List Contender) → (decide high cs ≡ accept) ⊎ (decide high cs ≡ accept_evicting_all)
unfolding decide
decide_high [] = inl refl
decide_high (c ∷ cs) = inr refl

module _ (now : ℕ) (self remote : EndpointId) where
  promote_over-pipes :
      (p : StableConnId) (d : Dialer) (cs : List Contender) (r : Routing)
      → (promote_over now p remote d cs r).routing.pipes ≡ r.pipes
  unfolding promote_over install wake_endpoint_waiters
  promote_over-pipes p d cs r = evict_contenders-pipes cs r

  promote_pipe-pipes :
      (d : Dialer) (p : StableConnId) (r : Routing)
      → (promote_pipe now d p self remote r).routing.pipes ≡ r.pipes
  unfolding promote_pipe
  promote_pipe-pipes d p r =
      let cs = contenders p self remote r in
      elim (Decision-cases (decide d cs)) [
        | inl a ↦ rw (promote_pipe, a) (promote_over-pipes p d cs r)
        | inr (inl a) ↦ rw (promote_pipe, a) (promote_over-pipes p d cs r)
        | inr (inr a) ↦ rw (promote_pipe, a) refl
      ]

  promote-promote_pipe :
      (p : StableConnId) {pipe : Pipe} (r : Routing)
      → get p r.pipes ≡ some pipe
      → promote now p self remote r
        ≡ promote_pipe now (compute self remote pipe.direction) p self remote r
  unfolding promote
  promote-promote_pipe p r e = rw (e, promote) refl

  pub promote-pipes :
      (p : StableConnId) (r : Routing) → (promote now p self remote r).routing.pipes ≡ r.pipes
  unfolding promote
  promote-pipes p r = elim (Option-cases (get p r.pipes)) [
    | inl e ↦ rw (e, promote) refl
    | inr (pipe, e) ↦
        rw (promote-promote_pipe p r e)
          (promote_pipe-pipes (compute self remote pipe.direction) p r)
  ]

  promote_pipe-high :
      (p : StableConnId) (r : Routing)
      → RoutedHigh p remote (promote_pipe now high p self remote r).routing
  unfolding promote_pipe promote_over install wake_endpoint_waiters
  promote_pipe-high p r =
      let cs = contenders p self remote r in
      let entry : Routable = record {
        pipe = p;
        endpoint_id = remote;
        dialer = high;
        verified_at = now;
      } in
      let kept = remove remote (evict_contenders cs r).routable in
      let placed = get-insert_self remote entry kept in
      elim (decide_high cs) [
        | inl a ↦ rw (promote_pipe, a) (entry, placed, refl, refl)
        | inr a ↦ rw (promote_pipe, a) (entry, placed, refl, refl)
      ]

  -- A pipe of the high side becomes the route, whatever stood there.
  pub promote-high :
      (p : StableConnId) (r : Routing)
      → Dials self remote high p r.pipes
      → RoutedHigh p remote (promote now p self remote r).routing
  promote-high p r (pipe, e, d) = rw (promote-promote_pipe p r e, d) (promote_pipe-high p r)

  promote_pipe-low :
      (p h : StableConnId) (r : Routing)
      → p ≢ h
      → RoutedHigh h remote r
      → promote_pipe now low p self remote r ≡ record { routing = r; woken = []; answer = rejected }
  unfolding promote_pipe contenders decide
  promote_pipe-low p h r ne (x, g, same, hi) =
      let t : (x.pipe == p) ≡ false = ground arith in
      rw (promote_pipe, contenders, g, t, decide, hi) refl

  -- Against it, a pipe of the low side is refused, and nothing changes.
  pub promote-low :
      (p h : StableConnId) (r : Routing)
      → p ≢ h
      → RoutedHigh h remote r
      → Dials self remote low p r.pipes
      → promote now p self remote r ≡ record { routing = r; woken = []; answer = rejected }
  promote-low p h r ne routed (pipe, e, d) =
      rw (promote-promote_pipe p r e, d) (promote_pipe-low p h r ne routed)

  unfoldable pub promote_each : List StableConnId → Routing → Routing
  unfolding promote
  promote_each [] r = r
  promote_each (p ∷ ps) r = promote_each ps (promote now p self remote r).routing

  promote-RoutedHigh :
      (h p : StableConnId) (r : Routing)
      → Dials self remote high h r.pipes
      → OneHigh self remote h r.pipes p
      → RoutedHigh h remote r
      → RoutedHigh h remote (promote now p self remote r).routing
  promote-RoutedHigh h p r top one routed = elim (Bool-cases (p == h)) [
    | inl t ↦ let e : p ≡ h = ground arith in rw e (promote-high h r top)
    | inr f ↦ elim one [
      | inl e ↦ absurd (ground arith)
      | inr d ↦ rw (promote-low p h r (ground arith) routed d) routed
    ]
  ]

  promote_each-RoutedHigh :
      (h : StableConnId) (ps : List StableConnId) (r : Routing)
      → Dials self remote high h r.pipes
      → All (OneHigh self remote h r.pipes) ps
      → RoutedHigh h remote r
      → RoutedHigh h remote (promote_each ps r)
  unfolding promote_each
  promote_each-RoutedHigh h [] r top all routed = routed
  promote_each-RoutedHigh h (p ∷ ps) r top all routed =
      let e = sym (promote-pipes p r) in
      promote_each-RoutedHigh h ps (promote now p self remote r).routing
        (subst (Dials self remote high h) e top)
        (subst (λ pipes. All (OneHigh self remote h pipes) ps) e all.1)
        (promote-RoutedHigh h p r top all.0 routed)

  -- In whatever order the pipes are promoted, the high one is the route once it has had its turn.
  pub promote_each-high :
      (h : StableConnId) (ps : List StableConnId) (r : Routing)
      → Dials self remote high h r.pipes
      → All (OneHigh self remote h r.pipes) ps
      → any (λ p. p == h) ps ≡ true
      → RoutedHigh h remote (promote_each ps r)
  unfolding promote_each
  promote_each-high h [] r top all turn = absurd (cc)
  promote_each-high h (p ∷ ps) r top all turn =
      let e = sym (promote-pipes p r) in
      let r' = (promote now p self remote r).routing in
      let top' = subst (Dials self remote high h) e top in
      let all' = subst (λ pipes. All (OneHigh self remote h pipes) ps) e all.1 in
      elim (Bool-cases (p == h)) [
        | inl t ↦
            let q : p ≡ h = ground arith in
            promote_each-RoutedHigh h ps r' top' all' (rw q (promote-high h r top))
        | inr f ↦ promote_each-high h ps r' top' all' (rw f at turn)
      ]
