-- ===== src/Routing/Reservations.antt =====
-- Ids that a resolver has promised for a dial: the reservations of routing.rs.
use iroh_ble_transport.Prelude.{Option, find_key, get, insert, none, remove, some, ℕ, ◌==◌}
use iroh_ble_transport.Peer.{DeviceId, EndpointId, KeyPrefix, prefix_from_endpoint}
use iroh_ble_transport.Routing.Table.{
  Reservation, Routing, StableConnId, next_stable_id, prune_pipe_tombstones,
}

-- A prefix keeps the id that it was promised.
unfoldable pub reserve_outbound : ℕ → EndpointId → Routing → Routing × StableConnId
unfolding next_stable_id prune_pipe_tombstones
reserve_outbound now endpoint_id r =
    let prefix = prefix_from_endpoint endpoint_id in
    let r' = prune_pipe_tombstones now r in
    let id = next_stable_id r in
    elim (get prefix r.reservations) [
      | some existing ↦ (r', existing.stable_id)
      | none ↦ (
        record r' {
          next_id = id;
          reservations =
              insert prefix
                (record { stable_id = id; endpoint_id = endpoint_id; reserved_at = now })
                r.reservations;
          reserved_stable_ids = insert id prefix r.reserved_stable_ids;
        },
        id,
      )
    ]

pub record Target : Type 0 where
  pub endpoint_id : EndpointId
  pub prefix : KeyPrefix

unfoldable pub reservation_target : StableConnId → Routing → Option Target
reservation_target stable_id r = elim (get stable_id r.reserved_stable_ids) [
  | none ↦ none
  | some prefix ↦ elim (get prefix r.reservations) [
    | none ↦ none
    | some reservation ↦ some (record { endpoint_id = reservation.endpoint_id; prefix = prefix })
  ]
]

unfoldable pub reservation_for_prefix : KeyPrefix → Routing → Option Reservation
reservation_for_prefix prefix r = get prefix r.reservations

unfoldable pub consume_reservation_for_prefix : KeyPrefix → Routing → Routing × Option Reservation
consume_reservation_for_prefix prefix r = elim (get prefix r.reservations) [
  | none ↦ (r, none)
  | some reservation ↦ (
    record r {
      reservations = remove prefix r.reservations;
      reserved_stable_ids = remove reservation.stable_id r.reserved_stable_ids;
      pipe_tombstones = remove reservation.stable_id r.pipe_tombstones;
    },
    some reservation,
  )
]

unfoldable pub consume_reservation_for_endpoint :
    EndpointId → Routing → Routing × Option Reservation
unfolding consume_reservation_for_prefix
consume_reservation_for_endpoint endpoint_id =
    consume_reservation_for_prefix (prefix_from_endpoint endpoint_id)

-- By the prefix that the device is hinted under.
unfoldable pub consume_reservation_for_device : DeviceId → Routing → Routing × Option Reservation
unfolding consume_reservation_for_prefix
consume_reservation_for_device device_id r = elim (find_key (λ d. d == device_id) r.scan_hint) [
  | none ↦ (r, none)
  | some prefix ↦ consume_reservation_for_prefix prefix r
]
