-- ===== src/Scenarios/Pipes.antt =====
-- The supervisor of a pipe and the lane of a device at concrete inputs.
use iroh_ble_transport.Prelude.{All, List, [], arith, none, refl, some, true, ◌++◌, ◌∷◌, ◌≡◌}
use iroh_ble_transport.Peer.{DeviceId}
use iroh_ble_transport.Driver.Lanes.{
  DeviceLane, LaneEvent, activated, dispatched, dropped, finished, immediate, never, retire,
  retired, round, run_lane, started, while_queued, work,
}
use iroh_ble_transport.Driver.Serial.{IsSerial}
use iroh_ble_transport.Driver.Retired.{IsHeld, run_lane-retire}
use iroh_ble_transport.Driver.Fleet.{run_driver}
use iroh_ble_transport.Driver.Parallel.{run_driver-IsSerial}
use iroh_ble_transport.Pipe.Supervisor.{
  PipeEvent, in_time, inbound, is_full, l2cap_added, outbound, outbound_closed, passed, supervise,
  timed_out,
}
use iroh_ble_transport.Pipe.Outcomes.{all_offered, outcomes, supervise-outcomes}

-- Two devices: the lane of the first is idle, and goes, when the second one is dialled.
abbrev two_devices : List (DeviceId × LaneEvent)
two_devices =
    (7, activated 1)
    ∷ (7, dispatched 1 never 32)
    ∷ (7, round)
    ∷ (7, round)
    ∷ (7, retired 1)
    ∷ (7, round)
    ∷ (8, activated 2)
    ∷ (8, dispatched 2 immediate 33)
    ∷ (7, dispatched 1 never 34)
    ∷ (8, round)
    ∷ (7, round)
    ∷ []

run_driver-IsSerial_example : IsSerial none (run_driver 7 two_devices [])
run_driver-IsSerial_example = run_driver-IsSerial 7 two_devices

-- The connect is queued, and its lifecycle over, when the lane gets to it.
abbrev waiting_lane : DeviceLane
waiting_lane = record {
  jobs = work 1 while_queued 31 ∷ work 1 never 32 ∷ [];
  lifecycle = some 1;
  native_owner = some 1;
  running = none;
}

run_lane-retire_example :
    All (IsHeld 1) (run_lane (round ∷ activated 2 ∷ round ∷ round ∷ []) (retire 1 waiting_lane))
run_lane-retire_example =
    run_lane-retire 1 (round ∷ activated 2 ∷ round ∷ round ∷ []) waiting_lane
      (tt, (ground arith, (tt, (tt, tt))))

waiting_lane_run :
    run_lane (round ∷ round ∷ round ∷ []) (retire 1 waiting_lane)
    ≡ dropped 1 while_queued 31 ∷ started 1 never 32 ∷ finished 1 never 32 ∷ []
unfolding run_lane retire
waiting_lane_run = refl

-- The L2CAP path wedges at the second datagram, and the GATT path is full at the third.
abbrev pipe_events : List PipeEvent
pipe_events =
    outbound (record { tx_gen = 1; datagram = 5 ∷ []; waker = 61 }) in_time passed
    ∷ outbound (record { tx_gen = 1; datagram = 6 ∷ []; waker = 62 }) timed_out passed
    ∷ inbound (7 ∷ []) passed
    ∷ outbound (record { tx_gen = 1; datagram = 8 ∷ []; waker = 63 }) in_time is_full
    ∷ outbound_closed
    ∷ l2cap_added 9
    ∷ []

supervise-outcomes_example :
    (received : List PipeEvent) × (received
        ++ (supervise pipe_events (record { gatt = true; l2cap = true })).1
      ≡ pipe_events)
    × (outcomes (supervise pipe_events (record { gatt = true; l2cap = true })).0
        ≡ all_offered received)
supervise-outcomes_example = supervise-outcomes pipe_events (record { gatt = true; l2cap = true })
