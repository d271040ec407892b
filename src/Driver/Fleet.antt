-- ===== src/Driver/Fleet.antt =====
-- The lanes of all devices: the `lanes` of `Driver` in driver.rs, with `activate`, `retire` and `dispatch`
-- as they find a lane, and the rounds of each lane's task.
use iroh_ble_transport.Prelude.{
  Bool, List, Map, Option, [], get, if◌then◌else◌, insert, is_empty, is_some, none, not, some, ℕ,
  ◌&&◌, ◌++◌, ◌==◌, ◌||◌, ◌∷◌,
}
use iroh_ble_transport.Peer.{DeviceId}
use iroh_ble_transport.Driver.Lanes.{
  DeviceLane, LaneEvent, Ran, activate, activated, dispatched, lane_event, new_lane, retired, round,
}

-- No lifecycle, and no job queued or running.
unfoldable pub is_idle : DeviceLane → Bool
is_idle l = not (is_some l.lifecycle) && (is_empty l.jobs && not (is_some l.running))

-- A lane that is idle goes, but for the device's own.
unfoldable pub keep_lanes : DeviceId → Map DeviceLane → Map DeviceLane
unfolding is_idle
keep_lanes device [] = []
keep_lanes device ((d, l) ∷ lanes) =
    let rest = keep_lanes device lanes in
    if d == device || not (is_idle l) then (d, l) ∷ rest else rest

abbrev pub lane_or_new : Option DeviceLane → DeviceLane
lane_or_new none = new_lane
lane_or_new (some l) = l

unfoldable pub activate_device : DeviceId → ℕ → Map DeviceLane → Map DeviceLane
unfolding keep_lanes new_lane activate
activate_device device lifecycle_id lanes =
    let kept = keep_lanes device lanes in
    insert device (activate lifecycle_id (lane_or_new (get device kept))) kept

-- Another event finds the device's lane, or none, and then nothing happens.
unfoldable pub on_lane : DeviceId → LaneEvent → Map DeviceLane → Map DeviceLane × List Ran
unfolding lane_event
on_lane device e lanes = elim (get device lanes) [
  | none ↦ (lanes, [])
  | some l ↦ let (l', ran) = lane_event e l in (insert device l' lanes, ran)
]

unfoldable pub driver_event : DeviceId → LaneEvent → Map DeviceLane → Map DeviceLane × List Ran
unfolding activate_device on_lane
driver_event device (activated lifecycle_id) lanes = (activate_device device lifecycle_id lanes, [])
driver_event device (retired lifecycle_id) lanes = on_lane device (retired lifecycle_id) lanes
driver_event device (dispatched lifecycle_id cancellation job) lanes =
    on_lane device (dispatched lifecycle_id cancellation job) lanes
driver_event device round lanes = on_lane device round lanes

-- The log of one device, out of the events of all.
unfoldable pub run_driver : DeviceId → List (DeviceId × LaneEvent) → Map DeviceLane → List Ran
unfolding driver_event
run_driver device [] lanes = []
run_driver device ((d, e) ∷ es) lanes =
    let (lanes', ran) = driver_event d e lanes in
    let later = run_driver device es lanes' in if d == device then ran ++ later else later
