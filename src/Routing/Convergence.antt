-- ===== src/Routing/Convergence.antt =====
-- About two ends with several pipes between them: `Dialer::compute` and `promote` of routing.rs.
use iroh_ble_transport.Prelude.{
  All, List, Map, [], any, ap, arith, get, inl, inr, map, refl, some, sym, true, ℕ, ◌==◌, ◌∙◌, ◌∷◌,
  ◌≡◌, ◌≢◌, ◌⊎◌,
}
use iroh_ble_transport.Peer.{EndpointId}
use iroh_ble_transport.Routing.Table.{Dialer, Direction, Pipe, Routing, StableConnId, high, low}
use iroh_ble_transport.Routing.Pools.{routable_pipe_for}
use iroh_ble_transport.Routing.Promotion.{compute}
use iroh_ble_transport.Routing.Promoted.{Dials, OneHigh, promote_each, promote_each-high}

abbrev pub opposite : Direction → Direction
opposite Direction.outbound = Direction.inbound
opposite Direction.inbound = Direction.outbound

-- The two ends of a pipe see it in opposite directions and compute the same dialer for it, if their
-- endpoint ids differ.
pub compute-opposite :
    (a b : EndpointId) (d : Direction) → a ≢ b → compute a b d ≡ compute b a (opposite d)
unfolding compute
compute-opposite a b Direction.outbound h = ground arith
compute-opposite a b Direction.inbound h = ground arith

-- A connection as the two ends know it.
pub record Link : Type 0 where
  pub here : StableConnId
  pub there : StableConnId

-- It is live at both ends, in opposite directions, and dialled by that side.
abbrev pub Joins : EndpointId → EndpointId → Dialer → Map Pipe → Map Pipe → Link → Type 0
Joins a b dialer pipes_a pipes_b l =
    (pa : Pipe) × (pb : Pipe) × (get l.here pipes_a ≡ some pa)
    × (get l.there pipes_b ≡ some pb)
    × (pb.direction ≡ opposite pa.direction)
    × (compute a b pa.direction ≡ dialer)

module _ (a b : EndpointId) (apart : a ≢ b) (ra rb : Routing) (kept : Link) where
  -- The link is the kept one, or one of the low side.
  abbrev pub Loses : Link → Type 0
  Loses l = (l ≡ kept) ⊎ Joins a b low ra.pipes rb.pipes l

  Joins-here :
      (d : Dialer) (l : Link) → Joins a b d ra.pipes rb.pipes l → Dials a b d l.here ra.pipes
  Joins-here d l (pa, pb, ga, gb, o, c) = (pa, ga, c)

  Joins-there :
      (d : Dialer) (l : Link) → Joins a b d ra.pipes rb.pipes l → Dials b a d l.there rb.pipes
  Joins-there d l (pa, pb, ga, gb, o, c) =
      (pb, gb, rw o (sym (compute-opposite a b pa.direction apart) ∙ c))

  Loses-here :
      (ls : List Link)
      → All Loses ls
      → All (OneHigh a b kept.here ra.pipes) (map (λ (l : Link). l.here) ls)
  Loses-here [] h = tt
  Loses-here (l ∷ ls) h = (
    elim h.0 [ inl e ↦ inl (ap (λ (x : Link). x.here) e) | inr j ↦ inr (Joins-here low l j) ],
    Loses-here ls h.1,
  )

  Loses-there :
      (ls : List Link)
      → All Loses ls
      → All (OneHigh b a kept.there rb.pipes) (map (λ (l : Link). l.there) ls)
  Loses-there [] h = tt
  Loses-there (l ∷ ls) h = (
    elim h.0 [ inl e ↦ inl (ap (λ (x : Link). x.there) e) | inr j ↦ inr (Joins-there low l j) ],
    Loses-there ls h.1,
  )

  -- Two ends with different endpoint ids, which promote the same connections, each in its own order
  -- and at its own time, keep the same connection, if one of them was dialled by the high side and
  -- all others by the low side.
  pub ends_agree :
      (now_a now_b : ℕ) (tried_a tried_b : List Link)
      → Joins a b high ra.pipes rb.pipes kept
      → All Loses tried_a
      → All Loses tried_b
      → (any (λ p. p == kept.here) (map (λ (l : Link). l.here) tried_a) ≡ true)
      → (any (λ p. p == kept.there) (map (λ (l : Link). l.there) tried_b) ≡ true)
      → (routable_pipe_for b (promote_each now_a a b (map (λ (l : Link). l.here) tried_a) ra)
          ≡ some kept.here)
        × (routable_pipe_for a (promote_each now_b b a (map (λ (l : Link). l.there) tried_b) rb)
            ≡ some kept.there)
  unfolding routable_pipe_for
  ends_agree now_a now_b tried_a tried_b j la lb ta tb =
      let (x, gx, px, _) =
        promote_each-high now_a a b kept.here (map (λ (l : Link). l.here) tried_a) ra
          (Joins-here high kept j) (Loses-here tried_a la) ta in
      let (y, gy, py, _) =
        promote_each-high now_b b a kept.there (map (λ (l : Link). l.there) tried_b) rb
          (Joins-there high kept j) (Loses-there tried_b lb) tb in
      (rw (gx, routable_pipe_for, px) refl, rw (gy, routable_pipe_for, py) refl)
