-- ===== src/Front/Open.antt =====
-- The pipe that is opened for a promised id.
use iroh_ble_transport.Prelude.{
  Bool, Option, Option-cases, arith, find_value, get, get-insert_self, inl, inr, insert, none,
  opt_eq, refl, remove, some, subst, true, ℕ, ◌+◌, ◌==◌, ◌∙◌, ◌≡◌,
}
use iroh_ble_transport.Peer.{ConnectRole, DeviceId, EndpointId, prefix_from_endpoint}
use iroh_ble_transport.Routing.Table.{
  Direction, Pending, Pipe, Reservation, Routing, StableConnId, device_for_pipe,
  register_pipe_with_id,
}
use iroh_ble_transport.Routing.Hints.{register_endpoint_waker, wake_endpoint_waiters}
use iroh_ble_transport.Routing.Pools.{pending_pipe_for, register_pending, routable_pipe_for}
use iroh_ble_transport.Routing.Reservations.{
  consume_reservation_for_endpoint, consume_reservation_for_prefix,
}
use iroh_ble_transport.Routing.Promises.{NoWrap}
use iroh_ble_transport.Front.Resolver.{current, emit, poll_next}
use iroh_ble_transport.Front.Sender.{route, to}
use iroh_ble_transport.Driver.Pipes.{claim, direction_for_role, execute_start_data_pipe, open_pipe}
use iroh_ble_transport.Front.Dial.{Promise, Unreached, current-Promise, find_value-insert}

module _ (e : EndpointId) (d : DeviceId) where
  -- A pipe is open under the id, and pending for the endpoint.
  abbrev pub OpenUnder : StableConnId → Routing → Type 0
  OpenUnder i r =
      (device_for_pipe i r ≡ some d) × (get e r.routable ≡ none) × (pending_pipe_for e r ≡ some i)

  register_pending-pending_pipe_for :
      (now : ℕ) (i : StableConnId) (r : Routing)
      → pending_pipe_for e r ≡ none
      → pending_pipe_for e (register_pending now i (some e) r).0 ≡ some i
  unfolding register_pending wake_endpoint_waiters pending_pipe_for
  register_pending-pending_pipe_for now i r nobody =
      let test : Pending → Bool = λ p. opt_eq p.target_endpoint (some e) in
      let entry : Pending = record { pipe = i; target_endpoint = some e; created_at = now } in
      let self : test entry ≡ true = ground arith in
      elim (Option-cases (find_value test r.pending)) [
        | inl g ↦ rw (pending_pipe_for, find_value-insert test i entry r.pending g self) refl
        | inr (v, g) ↦
            let h : some v.pipe ≡ none = rw (pending_pipe_for, g) at nobody in absurd (cc)
      ]

  device_for_pipe-insert :
      (i : StableConnId) (pipe : Pipe) (r : Routing)
      → device_for_pipe i (record r { pipes = insert i pipe r.pipes }) ≡ some pipe.device_id
  unfolding device_for_pipe
  device_for_pipe-insert i pipe r = rw (device_for_pipe, get-insert_self i pipe r.pipes) refl

  open_pipe-OpenUnder :
      (now : ℕ) (dir : Direction) (x : Reservation) (r : Routing)
      → x.endpoint_id ≡ e
      → get e r.routable ≡ none
      → pending_pipe_for e r ≡ none
      → OpenUnder x.stable_id (open_pipe now d dir (r, some x)).routing
  unfolding open_pipe register_pipe_with_id register_pending wake_endpoint_waiters device_for_pipe
      pending_pipe_for
  open_pipe-OpenUnder now dir x r whose free nobody =
      let pipe : Pipe = record {
        id = x.stable_id;
        device_id = d;
        direction = dir;
        created_at = now;
      } in
      rw whose (
        device_for_pipe-insert x.stable_id pipe r,
        free,
        register_pending-pending_pipe_for now x.stable_id r nobody,
      )

  open_pipe-stable_id :
      (now : ℕ) (dir : Direction) (x : Reservation) (r : Routing)
      → (open_pipe now d dir (r, some x)).stable_id ≡ x.stable_id
  unfolding open_pipe
  open_pipe-stable_id now dir x r = refl

  abbrev consumed : Reservation → Routing → Routing
  consumed x r = record r {
    reservations = remove (prefix_from_endpoint e) r.reservations;
    reserved_stable_ids = remove x.stable_id r.reserved_stable_ids;
    pipe_tombstones = remove x.stable_id r.pipe_tombstones;
  }

  claim-reserved :
      (x : Reservation) (r : Routing)
      → get (prefix_from_endpoint e) r.reservations ≡ some x
      → claim (some e) d r ≡ (consumed x r, some x)
  unfolding claim consume_reservation_for_endpoint consume_reservation_for_prefix
  claim-reserved x r a =
      let once : consume_reservation_for_prefix (prefix_from_endpoint e) r
          ≡ (consumed x r, some x) =
        rw (a, consume_reservation_for_prefix) refl in
      let same : consume_reservation_for_endpoint e r ≡ (consumed x r, some x) = once in
      rw (claim, same) same

  pending_pipe_for-consumed :
      (x : Reservation) (r : Routing)
      → pending_pipe_for e r ≡ none
      → pending_pipe_for e (consumed x r) ≡ none
  unfolding pending_pipe_for
  pending_pipe_for-consumed x r nobody = nobody

  pub execute_start_data_pipe-Promise :
      (now : ℕ) (role : ConnectRole) (i : StableConnId) (r : Routing)
      → Promise e d i r
      → let o = execute_start_data_pipe now d role (some e) r in
        (o.stable_id ≡ i) × OpenUnder i o.routing
  unfolding execute_start_data_pipe
  execute_start_data_pipe-Promise now role i r (x, a, same, whose, _, _, _, free, nobody) =
      let dir = direction_for_role role in
      let r' = consumed x r in
      rw (execute_start_data_pipe, claim-reserved x r a)
        (
          open_pipe-stable_id now dir x r' ∙ same,
          subst (λ k. OpenUnder k (open_pipe now d dir (r', some x)).routing) same
              (open_pipe-OpenUnder now dir x r' whose free (pending_pipe_for-consumed x r nobody)),
        )

  pub route-OpenUnder :
      (now : ℕ) (i : StableConnId) (r : Routing) → OpenUnder i r → route now i r ≡ (r, to d none)
  unfolding route
  route-OpenUnder now i r (live, _, _) = rw (route, live) refl

  current-OpenUnder :
      (now : ℕ) (i : StableConnId) (r : Routing) → OpenUnder i r → current now e r ≡ (r, some i)
  unfolding current routable_pipe_for
  current-OpenUnder now i r (_, free, waits) = rw (current, routable_pipe_for, free, waits) refl

  Unreached-register_endpoint_waker :
      (waker : ℕ) (r : Routing) → Unreached e r → Unreached e (register_endpoint_waker e waker r)
  unfolding register_endpoint_waker pending_pipe_for
  Unreached-register_endpoint_waker waker r h = h

  emit-Promise :
      (i : StableConnId) (answered : Routing × Option StableConnId)
      → answered.1 ≡ some i
      → Promise e d i answered.0
      → let polled = emit none answered in
        (polled.item ≡ some i) × (polled.last_emitted ≡ some i) × Promise e d i polled.routing
  unfolding emit
  emit-Promise i (r, answer) same promise = rw same (refl, refl, promise)

  pub poll_next-Promise :
      (now waker : ℕ) (r : Routing)
      → NoWrap r
      → Unreached e r
      → get (prefix_from_endpoint e) r.scan_hint ≡ some d
      → get (r.next_id + 1) r.pipes ≡ none
      → let polled = poll_next now waker e none r in
        (polled.item ≡ some (r.next_id + 1))
        × (polled.last_emitted ≡ some (r.next_id + 1))
        × Promise e d (r.next_id + 1) polled.routing
  unfolding poll_next register_endpoint_waker
  poll_next-Promise now waker r small h hint fresh =
      let r0 = register_endpoint_waker e waker r in
      let (first, promise) =
        current-Promise e d now r0 small (Unreached-register_endpoint_waker waker r h) hint fresh in
      emit-Promise (r.next_id + 1) (current now e r0) first promise

  pub poll_next-OpenUnder :
      (now waker : ℕ) (i : StableConnId) (r : Routing)
      → OpenUnder i r
      → (poll_next now waker e (some i) r).item ≡ none
  unfolding poll_next register_endpoint_waker device_for_pipe pending_pipe_for emit
  poll_next-OpenUnder now waker i r h =
      let r0 = register_endpoint_waker e waker r in
      let same : (i == i) ≡ true = ground arith in
      rw (poll_next, current-OpenUnder now i r0 h, emit, same) refl
