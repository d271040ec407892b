-- ===== src/Driver/Pipes.antt =====
-- The routing and connection tables around a data pipe: the `StartDataPipe` arm of `Driver::execute` of
-- driver.rs. The channels and the worker between the two ends of the arm are not modelled.
use iroh_ble_transport.Prelude.{List, Option, none, some, ℕ}
use iroh_ble_transport.Peer.{ConnectRole, DeviceId, EndpointId, central, peripheral}
use iroh_ble_transport.Routing.Table.{
  Direction, Reservation, Routing, StableConnId, evict_pipe, register_pipe, register_pipe_with_id,
}
use iroh_ble_transport.Routing.Pools.{evict_pipe_state, register_pending}
use iroh_ble_transport.Routing.Reservations.{
  consume_reservation_for_device, consume_reservation_for_endpoint,
}
use iroh_ble_transport.Conns.Index.{
  Attempt, Conns, ble_close_code_retry, ble_pipe_closed, close_pipe,
}

unfoldable pub direction_for_role : ConnectRole → Direction
direction_for_role central = Direction.outbound
direction_for_role peripheral = Direction.inbound

-- A reservation for the endpoint that is dialled, or else for the device.
unfoldable pub claim : Option EndpointId → DeviceId → Routing → Routing × Option Reservation
unfolding consume_reservation_for_endpoint consume_reservation_for_device
claim none device r = consume_reservation_for_device device r
claim (some e) device r = elim (consume_reservation_for_endpoint e r).1 [
  | some x ↦ consume_reservation_for_endpoint e r
  | none ↦ consume_reservation_for_device device (consume_reservation_for_endpoint e r).0
]

pub record Opened : Type 0 where
  pub routing : Routing
  pub woken : List ℕ
  pub stable_id : StableConnId

-- The pipe under the id that was promised, or a new one, and in the pending pool.
unfoldable pub open_pipe : ℕ → DeviceId → Direction → Routing × Option Reservation → Opened
unfolding register_pipe_with_id register_pipe register_pending
open_pipe now device direction (r, some x) =
    let r' = register_pipe_with_id now x.stable_id device direction r in
    let (r'', woken) = register_pending now x.stable_id (some x.endpoint_id) r' in
    record { routing = r''; woken = woken; stable_id = x.stable_id }
open_pipe now device direction (r, none) =
    let (r', stable_id) = register_pipe now device direction r in
    let (r'', woken) = register_pending now stable_id none r' in
    record { routing = r''; woken = woken; stable_id = stable_id }

unfoldable pub execute_start_data_pipe :
    ℕ → DeviceId → ConnectRole → Option EndpointId → Routing → Opened
unfolding direction_for_role claim open_pipe
execute_start_data_pipe now device role target_endpoint r =
    open_pipe now device (direction_for_role role) (claim target_endpoint device r)

pub record Ended : Type 0 where
  pub routing : Routing
  pub conns : Conns
  pub woken : List ℕ
  pub attempts : List Attempt

-- When the worker has returned: out of the pools, the connections closed, the pipe gone.
unfoldable pub end_data_pipe : ℕ → StableConnId → Routing → Conns → Ended
unfolding evict_pipe_state close_pipe evict_pipe
end_data_pipe now stable_id r c =
    let reply = evict_pipe_state stable_id r in
    let (c', attempts) = close_pipe now stable_id ble_close_code_retry ble_pipe_closed c in
    record {
      routing = evict_pipe now stable_id reply.routing;
      conns = c';
      woken = reply.woken;
      attempts = attempts;
    }
