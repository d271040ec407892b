-- ===== src/Driver/Lanes.antt =====
-- The lane of a device: `activate`, `retire`, `dispatch` and `run_lane` of driver.rs. A job's work is a
-- number. The lane's task takes one job at a time from its queue; what is cancelled while it runs is
-- retired in between, so a job starts and ends in two steps. Fleet has the
-- lanes of all devices.
use iroh_ble_transport.Prelude.{
  Bool, List, Option, [], false, if◌then◌else◌, none, not, opt_eq, some, true, ℕ, ◌&&◌, ◌++◌, ◌∷◌,
}

pub data Cancellation : Type 0 where
  never while_queued immediate : Cancellation

pub data LaneJob : Type 0 where
  activation : (lifecycle_id : ℕ) → LaneJob
  work : (lifecycle_id : ℕ) → Cancellation → (job : ℕ) → LaneJob

-- `DeviceLane` with the state of its task: the native owner, and the work that runs.
pub record DeviceLane : Type 0 where
  pub jobs : List LaneJob
  pub lifecycle : Option ℕ
  pub native_owner : Option ℕ
  pub running : Option LaneJob

-- What the task does with work.
pub data Ran : Type 0 where
  started cancelled dropped finished : (lifecycle_id : ℕ) → Cancellation → (job : ℕ) → Ran

unfoldable pub new_lane : DeviceLane
new_lane = record { jobs = []; lifecycle = none; native_owner = none; running = none }

unfoldable pub activate : ℕ → DeviceLane → DeviceLane
activate lifecycle_id l = record l {
  lifecycle = some lifecycle_id;
  jobs = l.jobs ++ activation lifecycle_id ∷ [];
}

-- Work that may be cancelled is, if its lifecycle is no longer the lane's.
unfoldable pub retire : ℕ → DeviceLane → DeviceLane
retire lifecycle_id l =
    if opt_eq l.lifecycle (some lifecycle_id) then record l { lifecycle = none } else l

unfoldable pub dispatch : ℕ → Cancellation → ℕ → DeviceLane → DeviceLane
dispatch lifecycle_id cancellation job l = record l {
  jobs = l.jobs ++ work lifecycle_id cancellation job ∷ [];
}

abbrev pub is_cancellable : Cancellation → Bool
is_cancellable never = false
is_cancellable while_queued = true
is_cancellable immediate = true

-- The next job is taken, when none runs.
unfoldable pub take_job : LaneJob → DeviceLane → DeviceLane × List Ran
take_job (activation lifecycle_id) l = (record l { native_owner = some lifecycle_id }, [])
take_job (work lifecycle_id cancellation job) l =
    if not (opt_eq l.native_owner (some lifecycle_id))
    then (l, dropped lifecycle_id cancellation job ∷ [])
    else if is_cancellable cancellation && not (opt_eq l.lifecycle (some lifecycle_id))
    then (l, dropped lifecycle_id cancellation job ∷ [])
    else (
      record l { running = some (work lifecycle_id cancellation job) },
      started lifecycle_id cancellation job ∷ [],
    )

abbrev pub is_immediate : Cancellation → Bool
is_immediate immediate = true
is_immediate never = false
is_immediate while_queued = false

-- The running work ends: by itself, or, where that is asked for, because its lifecycle is over.
unfoldable pub end_job : LaneJob → DeviceLane → DeviceLane × List Ran
end_job (activation lifecycle_id) l = (record l { running = none }, [])
end_job (work lifecycle_id cancellation job) l =
    if is_immediate cancellation && not (opt_eq l.lifecycle (some lifecycle_id))
    then (record l { running = none }, cancelled lifecycle_id cancellation job ∷ [])
    else (record l { running = none }, finished lifecycle_id cancellation job ∷ [])

-- One round of the task.
unfoldable pub lane_step : DeviceLane → DeviceLane × List Ran
unfolding take_job end_job
lane_step l = elim l.running [
  | some job ↦ end_job job l
  | none ↦ elim l.jobs [ [] ↦ (l, []) | job ∷ jobs ↦ take_job job (record l { jobs = jobs }) ]
]

-- What happens to a lane, in any order: the driver's calls, and rounds of the task.
pub data LaneEvent : Type 0 where
  activated retired : (lifecycle_id : ℕ) → LaneEvent
  dispatched : (lifecycle_id : ℕ) → Cancellation → (job : ℕ) → LaneEvent
  round : LaneEvent

unfoldable pub lane_event : LaneEvent → DeviceLane → DeviceLane × List Ran
unfolding activate retire dispatch lane_step
lane_event (activated lifecycle_id) l = (activate lifecycle_id l, [])
lane_event (retired lifecycle_id) l = (retire lifecycle_id l, [])
lane_event (dispatched lifecycle_id cancellation job) l =
    (dispatch lifecycle_id cancellation job l, [])
lane_event round l = lane_step l

unfoldable pub run_lane : List LaneEvent → DeviceLane → List Ran
unfolding lane_event
run_lane [] l = []
run_lane (e ∷ es) l = let (l', ran) = lane_event e l in ran ++ run_lane es l'
