-- ===== src/Driver/Parallel.antt =====
-- About the work of one device among the lanes of all: the `lanes` of driver.rs.
use iroh_ble_transport.Prelude.{
  AllPairs, Bool-cases, KeysOk, KeysOk-insert, List, Map, Option, Option-cases, [], arith, false,
  get, get-AllPairs, get-insert, if_both, if◌then◌else◌, inl, inr, insert-AllPairs, none, not, refl,
  some, subst, sym, ℕ, ◌++◌, ◌==◌, ◌||◌, ◌∙◌, ◌∷◌, ◌≡◌, ◌≢◌,
}
use iroh_ble_transport.Peer.{DeviceId}
use iroh_ble_transport.Driver.Lanes.{
  DeviceLane, LaneEvent, LaneJob, Ran, activate, activated, dispatched, lane_event, new_lane,
  retired, round,
}
use iroh_ble_transport.Driver.Serial.{IsSerial, RunsWork, lane_event-Follows}
use iroh_ble_transport.Driver.Fleet.{
  activate_device, driver_event, is_idle, keep_lanes, lane_or_new, on_lane, run_driver,
}

abbrev pub running_of : Option DeviceLane → Option LaneJob
running_of none = none
running_of (some l) = l.running

-- No device has two lanes, and nothing but work runs.
abbrev pub LanesOk : Map DeviceLane → Type 0
LanesOk lanes = KeysOk lanes × AllPairs (λ d l. RunsWork l.running) lanes

keep_lanes-AllPairs {κ} :
    (P : ℕ → DeviceLane → Type κ) (device : DeviceId) (lanes : Map DeviceLane)
    → AllPairs P lanes
    → AllPairs P (keep_lanes device lanes)
unfolding keep_lanes
keep_lanes-AllPairs P device [] h = tt
keep_lanes-AllPairs P device ((d, l) ∷ lanes) h =
    if_both (AllPairs P) (d == device || not (is_idle l))
      (h.0, keep_lanes-AllPairs P device lanes h.1) (keep_lanes-AllPairs P device lanes h.1)

keep_lanes-KeysOk :
    (device : DeviceId) (lanes : Map DeviceLane) → KeysOk lanes → KeysOk (keep_lanes device lanes)
unfolding keep_lanes
keep_lanes-KeysOk device [] h = tt
keep_lanes-KeysOk device ((d, l) ∷ lanes) h =
    if_both KeysOk (d == device || not (is_idle l))
      (keep_lanes-AllPairs (λ j w. j ≢ d) device lanes h.0, keep_lanes-KeysOk device lanes h.1)
      (keep_lanes-KeysOk device lanes h.1)

get-absent : (k : ℕ) (lanes : Map DeviceLane) → AllPairs (λ j w. j ≢ k) lanes → get k lanes ≡ none
unfolding get
get-absent k [] h = refl
get-absent k ((j, w) ∷ lanes) h = ground (arith, get-absent k lanes h.1)

idle-running : (l : DeviceLane) → not (is_idle l) ≡ false → l.running ≡ none
unfolding is_idle
idle-running l h = elim (Option-cases l.running) [
  | inl e ↦ e
  | inr (job, e) ↦ let h' = rw (is_idle, e) at h in absurd (ground arith)
]

-- A lane that is dropped was running nothing.
keep_lanes-running :
    (k device : DeviceId) (lanes : Map DeviceLane)
    → KeysOk lanes
    → running_of (get k (keep_lanes device lanes)) ≡ running_of (get k lanes)
unfolding keep_lanes get
keep_lanes-running k device [] keys = refl
keep_lanes-running k device ((d, l) ∷ lanes) keys =
    let rest = keep_lanes-running k device lanes keys.1 in
    elim (Bool-cases (d == device || not (is_idle l))) [
      | inl t ↦ elim (Bool-cases (d == k)) [
        | inl s ↦ rw (keep_lanes, t, get, s) refl
        | inr n ↦ rw (keep_lanes, t, get, n) rest
      ]
      | inr f ↦ elim (Bool-cases (d == k)) [
        | inl s ↦
            let same : d ≡ k = ground arith in
            let gone : get k lanes ≡ none =
              get-absent k lanes (subst (λ x. AllPairs (λ j w. j ≢ x) lanes) same keys.0) in
            let idle = idle-running l (ground arith) in
            rw (keep_lanes, f, get, s) (rest ∙ rw (gone) (sym idle))
        | inr n ↦ rw (keep_lanes, f, get, n) rest
      ]
    ]

-- What the log of a device is after an event of some device.
abbrev pub log_after : DeviceId → DeviceId → List Ran → List Ran → List Ran
log_after k d ran later = if d == k then ran ++ later else later

-- The new lanes are in order, and what is serial for the device from them on is so from the old ones.
abbrev pub Extends : DeviceId → DeviceId → Map DeviceLane → Map DeviceLane × List Ran → Type 0
Extends k d lanes (lanes', ran) =
    LanesOk lanes'
    × ((log : List Ran)
        → IsSerial (running_of (get k lanes')) log
        → IsSerial (running_of (get k lanes)) (log_after k d ran log))

runs_work :
    (k : ℕ) (l : DeviceLane) (lanes : Map DeviceLane)
    → AllPairs (λ d l. RunsWork l.running) lanes
    → get k lanes ≡ some l
    → RunsWork l.running
runs_work k l lanes h e = get-AllPairs (λ d (l : DeviceLane). RunsWork l.running) k lanes h e

on_lane-Extends :
    (k d : DeviceId) (e : LaneEvent) (lanes : Map DeviceLane)
    → LanesOk lanes
    → Extends k d lanes (on_lane d e lanes)
unfolding on_lane
on_lane-Extends k d e lanes (keys, all_work) = elim (Option-cases (get d lanes)) [
  | inl g ↦
      rw (on_lane, g)
        (
          (keys, all_work),
          (λ log serial. if_both (IsSerial (running_of (get k lanes))) (d == k) serial serial),
        )
  | inr (l, g) ↦
      let (runs, serial) = lane_event-Follows e l (runs_work d l lanes all_work g) in
      let l' = (lane_event e l).0 in
      rw (on_lane, g)
        (
          (
            KeysOk-insert d l' lanes keys,
            insert-AllPairs (λ d (l : DeviceLane). RunsWork l.running) d l' lanes runs all_work,
          ),
          (λ log later. elim (Bool-cases (d == k)) [
            | inl t ↦
                let same : d ≡ k = ground arith in
                let g' : get k lanes ≡ some l = subst (λ x. get x lanes ≡ some l) same g in
                let later' : IsSerial l'.running log = rw (get-insert, t) at later in
                rw (t, g') (serial log later')
            | inr n ↦
                let later' : IsSerial (running_of (get k lanes)) log =
                  rw (get-insert, n) at later in
                rw n later'
          ]),
        )
]

activated_running :
    (i : ℕ) (o : Option DeviceLane) → (activate i (lane_or_new o)).running ≡ running_of o
unfolding activate new_lane
activated_running i none = refl
activated_running i (some l) = refl

running_work :
    (d : DeviceId) (lanes : Map DeviceLane)
    → AllPairs (λ d l. RunsWork l.running) lanes
    → RunsWork (running_of (get d lanes))
running_work d lanes h = elim (Option-cases (get d lanes)) [
  | inl e ↦ rw e tt
  | inr (l, e) ↦ rw e (runs_work d l lanes h e)
]

activate_device-Extends :
    (k d : DeviceId) (i : ℕ) (lanes : Map DeviceLane)
    → LanesOk lanes
    → Extends k d lanes (activate_device d i lanes, [])
unfolding activate_device activate new_lane
activate_device-Extends k d i lanes (keys, all_work) =
    let kept = keep_lanes d lanes in
    let l = activate i (lane_or_new (get d kept)) in
    let keys' = keep_lanes-KeysOk d lanes keys in
    let work' = keep_lanes-AllPairs (λ d (l : DeviceLane). RunsWork l.running) d lanes all_work in
    let same = keep_lanes-running k d lanes keys in
    let runs : l.running ≡ running_of (get d kept) = activated_running i (get d kept) in
    let runs_ok : RunsWork l.running = rw runs (running_work d kept work') in
    (
      (
        KeysOk-insert d l kept keys',
        insert-AllPairs (λ d (l : DeviceLane). RunsWork l.running) d l kept runs_ok work',
      ),
      (λ log later. elim (Bool-cases (d == k)) [
        | inl t ↦
            let here : d ≡ k = ground arith in
            let later' : IsSerial l.running log = rw (get-insert, t) at later in
            let from : IsSerial (running_of (get d kept)) log = rw runs at later' in
            let from' : IsSerial (running_of (get k kept)) log =
              subst (λ x. IsSerial (running_of (get x kept)) log) here from in
            rw t (rw same at from')
        | inr n ↦
            let later' : IsSerial (running_of (get k kept)) log = rw (get-insert, n) at later in
            rw n (rw same at later')
      ]),
    )

driver_event-Extends :
    (k d : DeviceId) (e : LaneEvent) (lanes : Map DeviceLane)
    → LanesOk lanes
    → Extends k d lanes (driver_event d e lanes)
unfolding driver_event
driver_event-Extends k d (activated i) lanes h = activate_device-Extends k d i lanes h
driver_event-Extends k d (retired i) lanes h = on_lane-Extends k d (retired i) lanes h
driver_event-Extends k d (dispatched i c job) lanes h =
    on_lane-Extends k d (dispatched i c job) lanes h
driver_event-Extends k d round lanes h = on_lane-Extends k d round lanes h

run_driver-IsSerial_from :
    (k : DeviceId) (es : List (DeviceId × LaneEvent)) (lanes : Map DeviceLane)
    → LanesOk lanes
    → IsSerial (running_of (get k lanes)) (run_driver k es lanes)
unfolding run_driver
run_driver-IsSerial_from k [] lanes h = tt
run_driver-IsSerial_from k ((d, e) ∷ es) lanes h =
    let (lanes_ok, serial) = driver_event-Extends k d e lanes h in
    let lanes' = (driver_event d e lanes).0 in
    serial (run_driver k es lanes') (run_driver-IsSerial_from k es lanes' lanes_ok)

-- Whatever is dispatched to the devices, and however their lifecycles and their lanes come and go, the
-- work of each device runs one piece at a time: what starts has ended, by itself or cancelled, before
-- other work of the device starts or is dropped.
pub run_driver-IsSerial :
    (device : DeviceId) (es : List (DeviceId × LaneEvent)) → IsSerial none (run_driver device es [])
unfolding get
run_driver-IsSerial device es = run_driver-IsSerial_from device es [] (tt, tt)
