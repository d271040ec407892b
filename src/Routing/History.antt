-- ===== src/Routing/History.antt =====
-- Every method of `Routing` that changes the table, as data, and what a sequence of them leaves.
use iroh_ble_transport.Prelude.{List, [], Option, ℕ, ◌∷◌}
use iroh_ble_transport.Peer.{DeviceId, EndpointId, KeyPrefix}
use iroh_ble_transport.Routing.Table.{Dialer, Direction, Routing, StableConnId}
use iroh_ble_transport.Routing.Table
use iroh_ble_transport.Routing.Hints
use iroh_ble_transport.Routing.Pools
use iroh_ble_transport.Routing.Reservations
use iroh_ble_transport.Routing.Promotion

pub data Op : Type 0 where
  register_pipe : ℕ → DeviceId → Direction → Op
  evict_pipe : ℕ → StableConnId → Op
  register_pipe_with_id : ℕ → StableConnId → DeviceId → Direction → Op
  note_tombstoned_transmit : ℕ → StableConnId → Op
  register_endpoint_waker : EndpointId → ℕ → Op
  note_scan_hint : KeyPrefix → DeviceId → Op
  forget_scan_hint : KeyPrefix → Op
  register_pending : ℕ → StableConnId → Option EndpointId → Op
  evict_pending : StableConnId → Op
  insert_routable : ℕ → EndpointId → StableConnId → Dialer → Op
  evict_routable : EndpointId → Op
  evict_routable_if_pipe : EndpointId → StableConnId → Op
  evict_pipe_state : StableConnId → Op
  reserve_outbound : ℕ → EndpointId → Op
  consume_for_prefix : KeyPrefix → Op
  consume_for_endpoint : EndpointId → Op
  consume_for_device : DeviceId → Op
  promote : ℕ → StableConnId → EndpointId → EndpointId → Op

unfoldable pub perform_op : Op → Routing → Routing
unfolding Table.register_pipe Table.evict_pipe Table.register_pipe_with_id
    Table.note_tombstoned_transmit Hints.register_endpoint_waker Hints.note_scan_hint
    Hints.forget_scan_hint Pools.register_pending Pools.evict_pending Pools.insert_routable
    Pools.evict_routable Pools.evict_routable_if_pipe Pools.evict_pipe_state
    Reservations.reserve_outbound Reservations.consume_reservation_for_prefix
    Reservations.consume_reservation_for_endpoint Reservations.consume_reservation_for_device
    Promotion.promote
perform_op (Op.register_pipe now device direction) r =
    (Table.register_pipe now device direction r).0
perform_op (Op.evict_pipe now id) r = Table.evict_pipe now id r
perform_op (Op.register_pipe_with_id now id device direction) r =
    Table.register_pipe_with_id now id device direction r
perform_op (Op.note_tombstoned_transmit now id) r = (Table.note_tombstoned_transmit now id r).0
perform_op (Op.register_endpoint_waker e w) r = Hints.register_endpoint_waker e w r
perform_op (Op.note_scan_hint p device) r = (Hints.note_scan_hint p device r).routing
perform_op (Op.forget_scan_hint p) r = Hints.forget_scan_hint p r
perform_op (Op.register_pending now id target) r = (Pools.register_pending now id target r).0
perform_op (Op.evict_pending id) r = (Pools.evict_pending id r).0
perform_op (Op.insert_routable now e id dialer) r =
    (Pools.insert_routable now e id dialer r).routing
perform_op (Op.evict_routable e) r = (Pools.evict_routable e r).routing
perform_op (Op.evict_routable_if_pipe e id) r = (Pools.evict_routable_if_pipe e id r).routing
perform_op (Op.evict_pipe_state id) r = (Pools.evict_pipe_state id r).routing
perform_op (Op.reserve_outbound now e) r = (Reservations.reserve_outbound now e r).0
perform_op (Op.consume_for_prefix p) r = (Reservations.consume_reservation_for_prefix p r).0
perform_op (Op.consume_for_endpoint e) r = (Reservations.consume_reservation_for_endpoint e r).0
perform_op (Op.consume_for_device d) r = (Reservations.consume_reservation_for_device d r).0
perform_op (Op.promote now id self remote) r = (Promotion.promote now id self remote r).routing

unfoldable pub run_ops : List Op → Routing → Routing
unfolding perform_op
run_ops [] r = r
run_ops (o ∷ os) r = run_ops os (perform_op o r)
