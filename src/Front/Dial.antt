-- ===== src/Front/Dial.antt =====
-- The address that a resolver is given for an endpoint, from the first answer to the open pipe.
use iroh_ble_transport.Prelude.{
  Bool, Bool-cases, Map, [], ap, arith, find_value, get, get-insert_self, inl, inr, insert, none,
  refl, some, true, ℕ, ◌%◌, ◌+◌, ◌==◌, ◌^◌, ◌∷◌, ◌≡◌,
}
use iroh_ble_transport.Peer.{DeviceId, EndpointId, prefix_from_endpoint}
use iroh_ble_transport.Routing.Table.{
  Pending, Reservation, Routing, StableConnId, device_for_pipe, next_stable_id,
  prune_pipe_tombstones,
}
use iroh_ble_transport.Routing.Hints.{scan_hint_for_prefix}
use iroh_ble_transport.Routing.Pools.{pending_pipe_for, routable_pipe_for}
use iroh_ble_transport.Routing.Reservations.{
  reservation_for_prefix, reservation_target, reserve_outbound,
}
use iroh_ble_transport.Routing.Promises.{NoWrap}
use iroh_ble_transport.Front.Resolver.{current}
use iroh_ble_transport.Front.Sender.{route, to}

-- No pipe, and no promise, leads to the endpoint.
abbrev pub Unreached : EndpointId → Routing → Type 0
Unreached e r =
    (get e r.routable ≡ none)
    × (pending_pipe_for e r ≡ none)
    × (get (prefix_from_endpoint e) r.reservations ≡ none)

-- What the promise of an id to the endpoint leaves of the table.
abbrev pub Promise : EndpointId → DeviceId → StableConnId → Routing → Type 0
Promise e d i r =
    (x : Reservation) × (get (prefix_from_endpoint e) r.reservations ≡ some x)
    × (x.stable_id ≡ i)
    × (x.endpoint_id ≡ e)
    × (get i r.reserved_stable_ids ≡ some (prefix_from_endpoint e))
    × (get (prefix_from_endpoint e) r.scan_hint ≡ some d)
    × (get i r.pipes ≡ none)
    × (get e r.routable ≡ none)
    × (pending_pipe_for e r ≡ none)

pub find_value-insert :
    (test : Pending → Bool) (k : ℕ) (v : Pending) (m : Map Pending)
    → find_value test m ≡ none
    → test v ≡ true
    → find_value test (insert k v m) ≡ some v
unfolding find_value insert
find_value-insert test k v [] h t = rw (find_value, t) refl
find_value-insert test k v ((j, w) ∷ m) h t = elim (Bool-cases (test w)) [
  | inl y ↦ let h' : some w ≡ none = rw (find_value, y) at h in absurd (cc)
  | inr n ↦
      let h' : find_value test m ≡ none = rw (find_value, n) at h in
      elim (Bool-cases (j == k)) [
        | inl s ↦ rw (insert, s, find_value, t) refl
        | inr f ↦ rw (insert, f, find_value, n) (find_value-insert test k v m h' t)
      ]
]

module _ (e : EndpointId) (d : DeviceId) where
  pub reserve_outbound-Promise :
      (now : ℕ) (r : Routing)
      → NoWrap r
      → Unreached e r
      → get (prefix_from_endpoint e) r.scan_hint ≡ some d
      → get (r.next_id + 1) r.pipes ≡ none
      → (reserve_outbound now e r).1 ≡ r.next_id + 1
        × Promise e d (r.next_id + 1) (reserve_outbound now e r).0
  unfolding reserve_outbound next_stable_id prune_pipe_tombstones pending_pipe_for
  reserve_outbound-Promise now r small (a, b, c) hint fresh =
      let id : (r.next_id + 1) % 2 ^ 64 ≡ r.next_id + 1 = omega (arith, small) in
      let p = prefix_from_endpoint e in
      let x : Reservation = record {
        stable_id = r.next_id + 1;
        endpoint_id = e;
        reserved_at = now;
      } in
      rw (c, reserve_outbound, id)
        (
          refl,
          (
            x,
            get-insert_self p x r.reservations,
            refl,
            refl,
            get-insert_self (r.next_id + 1) p r.reserved_stable_ids,
            hint,
            fresh,
            a,
            b,
          ),
        )

  -- The first answer to the resolver is the id that is promised then.
  pub current-Promise :
      (now : ℕ) (r : Routing)
      → NoWrap r
      → Unreached e r
      → get (prefix_from_endpoint e) r.scan_hint ≡ some d
      → get (r.next_id + 1) r.pipes ≡ none
      → ((current now e r).1 ≡ some (r.next_id + 1))
        × Promise e d (r.next_id + 1) (current now e r).0
  unfolding current routable_pipe_for reservation_for_prefix scan_hint_for_prefix
  current-Promise now r small (a, b, c) hint fresh =
      let (same, promise) = reserve_outbound-Promise now r small (a, b, c) hint fresh in
      rw (current, a, b, c, hint) (ap some same, promise)

  -- A datagram for the promised id goes to the device that the scan has seen, for the endpoint.
  pub route-Promise :
      (now : ℕ) (i : StableConnId) (r : Routing)
      → Promise e d i r
      → route now i r ≡ (r, to d (some e))
  unfolding route device_for_pipe reservation_target scan_hint_for_prefix
  route-Promise now i r (x, a, same, whose, index, hint, fresh, _, _) =
      rw (route, fresh, reservation_target, index, a, hint, whose) refl
