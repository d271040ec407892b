-- ===== src/Front/Resolver.antt =====
-- `EndpointResolveStream::poll_next` of transport.rs: the id under which an endpoint is reached.
use iroh_ble_transport.Prelude.{Option, if◌then◌else◌, none, opt_eq, some, ℕ}
use iroh_ble_transport.Peer.{EndpointId, prefix_from_endpoint}
use iroh_ble_transport.Routing.Table.{Routing, StableConnId}
use iroh_ble_transport.Routing.Hints.{register_endpoint_waker, scan_hint_for_prefix}
use iroh_ble_transport.Routing.Pools.{pending_pipe_for, routable_pipe_for}
use iroh_ble_transport.Routing.Reservations.{reservation_for_prefix, reserve_outbound}

pub record Resolved : Type 0 where
  pub routing : Routing
  pub last_emitted : Option StableConnId
  -- Ready with an id, or pending.
  pub item : Option StableConnId

-- The first answer: a routable pipe, a pending one, a reservation, or, for a prefix that the scan has
-- seen, a new reservation.
unfoldable pub current : ℕ → EndpointId → Routing → Routing × Option StableConnId
unfolding routable_pipe_for pending_pipe_for reservation_for_prefix scan_hint_for_prefix
    reserve_outbound
current now endpoint_id r =
    let prefix = prefix_from_endpoint endpoint_id in
    elim (routable_pipe_for endpoint_id r) [
      | some id ↦ (r, some id)
      | none ↦ elim (pending_pipe_for endpoint_id r) [
        | some id ↦ (r, some id)
        | none ↦ elim (reservation_for_prefix prefix r) [
          | some x ↦ (r, some x.stable_id)
          | none ↦ elim (scan_hint_for_prefix prefix r) [
            | some device ↦ let (r', id) = reserve_outbound now endpoint_id r in (r', some id)
            | none ↦ (r, none)
          ]
        ]
      ]
    ]

-- The answer is emitted if it is not the last one.
unfoldable pub emit : Option StableConnId → Routing × Option StableConnId → Resolved
emit last_emitted (r, none) = record { routing = r; last_emitted = last_emitted; item = none }
emit last_emitted (r, some id) =
    if opt_eq (some id) last_emitted
    then record { routing = r; last_emitted = last_emitted; item = none }
    else record { routing = r; last_emitted = some id; item = some id }

unfoldable pub poll_next : ℕ → ℕ → EndpointId → Option StableConnId → Routing → Resolved
unfolding current emit register_endpoint_waker
poll_next now waker endpoint_id last_emitted r =
    emit last_emitted (current now endpoint_id (register_endpoint_waker endpoint_id waker r))
