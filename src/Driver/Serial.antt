-- ===== src/Driver/Serial.antt =====
-- About the order of the work of one device: the queue of native work in driver.rs.
use iroh_ble_transport.Prelude.{
  Bool-cases, List, List-cases, Option, Option-cases, [], if_both, inl, inr, none, not, opt_eq,
  refl, some, subst, ℕ, ◌&&◌, ◌++◌, ◌∷◌, ◌≡◌,
}
use iroh_ble_transport.Driver.Lanes.{
  Cancellation, DeviceLane, LaneEvent, LaneJob, Ran, activate, activated, activation, cancelled,
  dispatch, dispatched, dropped, end_job, finished, is_cancellable, is_immediate, lane_event,
  lane_step, new_lane, retire, retired, round, run_lane, started, take_job, work,
}

-- The log is one of work that starts, and ends before other work starts or is dropped.
abbrev pub IsSerial : Option LaneJob → List Ran → Type 0
IsSerial running [] = Unit
IsSerial none (started i c job ∷ log) = IsSerial (some (work i c job)) log
IsSerial none (dropped i c job ∷ log) = IsSerial none log
IsSerial none (cancelled i c job ∷ log) = ⊥
IsSerial none (finished i c job ∷ log) = ⊥
IsSerial (some w) (started i c job ∷ log) = ⊥
IsSerial (some w) (dropped i c job ∷ log) = ⊥
IsSerial (some w) (cancelled i c job ∷ log) = (w ≡ work i c job) × IsSerial none log
IsSerial (some w) (finished i c job ∷ log) = (w ≡ work i c job) × IsSerial none log

-- Nothing but work runs.
abbrev pub RunsWork : Option LaneJob → Type 0
RunsWork none = Unit
RunsWork (some (activation i)) = ⊥
RunsWork (some (work i c job)) = Unit

retire-running : (i : ℕ) (l : DeviceLane) → (retire i l).running ≡ l.running
unfolding retire
retire-running i l = elim (Bool-cases (opt_eq l.lifecycle (some i))) [
  | inl t ↦ rw (retire, t) refl
  | inr f ↦ rw (retire, f) refl
]

-- What has been logged, before a log that is serial from the new state, is serial from the old one.
abbrev pub Follows : Option LaneJob → DeviceLane × List Ran → Type 0
Follows before (l, ran) =
    RunsWork l.running × ((log : List Ran) → IsSerial l.running log → IsSerial before (ran ++ log))

Follows-same :
    (l l' : DeviceLane) → RunsWork l.running → l'.running ≡ l.running → Follows l.running (l', [])
Follows-same l l' h e = rw e (h, (λ log serial. serial))

Follows-dropped :
    (i : ℕ) (c : Cancellation) (job : ℕ) (l : DeviceLane)
    → l.running ≡ none
    → Follows none (l, dropped i c job ∷ [])
Follows-dropped i c job l idle = rw idle (tt, (λ log serial. serial))

take_job-Follows :
    (job : LaneJob) (l : DeviceLane) → l.running ≡ none → Follows none (take_job job l)
unfolding take_job
take_job-Follows (activation i) l idle = rw idle (tt, (λ log serial. serial))
take_job-Follows (work i c job) l idle =
    if_both (Follows none) (not (opt_eq l.native_owner (some i))) (Follows-dropped i c job l idle) (
      if_both (Follows none) (is_cancellable c && not (opt_eq l.lifecycle (some i)))
        (Follows-dropped i c job l idle) (tt, (λ log serial. serial)))

end_job-Follows :
    (job : LaneJob) (l : DeviceLane) → RunsWork (some job) → Follows (some job) (end_job job l)
unfolding end_job
end_job-Follows (activation i) l h = absurd h
end_job-Follows (work i c job) l h =
    if_both (Follows (some (work i c job))) (is_immediate c && not (opt_eq l.lifecycle (some i)))
      (tt, (λ log serial. (refl, serial))) (tt, (λ log serial. (refl, serial)))

lane_step-Follows : (l : DeviceLane) → RunsWork l.running → Follows l.running (lane_step l)
unfolding lane_step
lane_step-Follows l h = elim (Option-cases l.running) [
  | inr (job, e) ↦ rw (lane_step, e) (end_job-Follows job l (subst RunsWork e h))
  | inl e ↦ elim (List-cases l.jobs) [
    | inl q ↦ rw (lane_step, e, q) (rw e (tt, (λ log serial. serial)))
    | inr (job, jobs, q) ↦ rw (lane_step, e, q) (take_job-Follows job (record l { jobs = jobs }) e)
  ]
]

pub lane_event-Follows :
    (e : LaneEvent) (l : DeviceLane) → RunsWork l.running → Follows l.running (lane_event e l)
unfolding lane_event activate dispatch
lane_event-Follows (activated i) l h = Follows-same l (activate i l) h refl
lane_event-Follows (retired i) l h = Follows-same l (retire i l) h (retire-running i l)
lane_event-Follows (dispatched i c job) l h = Follows-same l (dispatch i c job l) h refl
lane_event-Follows round l h = lane_step-Follows l h

run_lane-IsSerial_from :
    (es : List LaneEvent) (l : DeviceLane) → RunsWork l.running → IsSerial l.running (run_lane es l)
unfolding run_lane
run_lane-IsSerial_from [] l h = tt
run_lane-IsSerial_from (e ∷ es) l h =
    let (runs, serial) = lane_event-Follows e l h in
    let l' = (lane_event e l).0 in serial (run_lane es l') (run_lane-IsSerial_from es l' runs)

-- Whatever is dispatched to a device, and however its lifecycles come and go, its work runs one piece
-- at a time: what starts has ended, by itself or cancelled, before other work starts or is dropped.
pub run_lane-IsSerial : (es : List LaneEvent) → IsSerial none (run_lane es new_lane)
unfolding new_lane
run_lane-IsSerial es = run_lane-IsSerial_from es new_lane tt
