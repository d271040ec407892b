-- ===== src/Driver/Retired.antt =====
-- About work whose lifecycle is over: `retire` of driver.rs and the lane's task after it.
use iroh_ble_transport.Prelude.{
  All, All-append, Bool-cases, List, List-cases, Option-cases, [], arith, false, if_both, if_split,
  inl, inr, not, opt_eq, refl, some, subst, true, ℕ, ◌&&◌, ◌∷◌, ◌≡◌, ◌≢◌, ◌⊎◌,
}
use iroh_ble_transport.Driver.Lanes.{
  DeviceLane, LaneEvent, LaneJob, Ran, activate, activated, activation, cancelled, dispatch,
  dispatched, dropped, end_job, finished, is_cancellable, is_immediate, lane_event, lane_step,
  retire, retired, round, run_lane, started, take_job, work,
}

-- A lifecycle is over.
abbrev pub IsOver : ℕ → DeviceLane → Type 0
IsOver i l = opt_eq l.lifecycle (some i) ≡ false

-- Work of the lifecycle that may be cancelled is not started, and work that is cancelled at once is
-- not finished.
abbrev pub IsHeld : ℕ → Ran → Type 0
IsHeld i (started j c job) = (j ≢ i) ⊎ (is_cancellable c ≡ false)
IsHeld i (finished j c job) = (j ≢ i) ⊎ (is_immediate c ≡ false)
IsHeld i (dropped j c job) = Unit
IsHeld i (cancelled j c job) = Unit

-- The lifecycle is not activated again.
abbrev pub IsOther : ℕ → LaneEvent → Type 0
IsOther i (activated j) = j ≢ i
IsOther i (retired j) = Unit
IsOther i (dispatched j c job) = Unit
IsOther i round = Unit

abbrev pub Held : ℕ → DeviceLane × List Ran → Type 0
Held i (l, ran) = IsOver i l × All (IsHeld i) ran

pub retire-IsOver : (i : ℕ) (l : DeviceLane) → IsOver i (retire i l)
unfolding retire
retire-IsOver i l = elim (Bool-cases (opt_eq l.lifecycle (some i))) [
  | inl t ↦ rw (retire, t) refl
  | inr f ↦ rw (retire, f) f
]

retire-Held : (i j : ℕ) (l : DeviceLane) → IsOver i l → IsOver i (retire j l)
unfolding retire
retire-Held i j l h = if_both (IsOver i) (opt_eq l.lifecycle (some j)) refl h

same_over : (i j : ℕ) (l : DeviceLane) → IsOver i l → opt_eq l.lifecycle (some j) ≡ true → j ≢ i
same_over i j l h t e =
    let t' : opt_eq l.lifecycle (some i) ≡ true =
      subst (λ x. opt_eq l.lifecycle (some x) ≡ true) e t in
    absurd (cc)

take_job-Held : (i : ℕ) (job : LaneJob) (l : DeviceLane) → IsOver i l → Held i (take_job job l)
unfolding take_job
take_job-Held i (activation j) l h = (h, tt)
take_job-Held i (work j c job) l h =
    if_both (Held i) (not (opt_eq l.native_owner (some j))) (h, (tt, tt))
      (if_split (Held i) (is_cancellable c && not (opt_eq l.lifecycle (some j)))
        (λ t. (h, (tt, tt)))
        (λ f. (
          h,
          (
            elim (Bool-cases (is_cancellable c)) [
              | inr n ↦ inr n
              | inl y ↦ inl (same_over i j l h (ground arith))
            ],
            tt,
          ),
        )))

end_job-Held : (i : ℕ) (job : LaneJob) (l : DeviceLane) → IsOver i l → Held i (end_job job l)
unfolding end_job
end_job-Held i (activation j) l h = (h, tt)
end_job-Held i (work j c job) l h =
    if_split (Held i) (is_immediate c && not (opt_eq l.lifecycle (some j))) (λ t. (h, (tt, tt)))
      (λ f. (
        h,
        (
          elim (Bool-cases (is_immediate c)) [
            | inr n ↦ inr n
            | inl y ↦ inl (same_over i j l h (ground arith))
          ],
          tt,
        ),
      ))

lane_step-Held : (i : ℕ) (l : DeviceLane) → IsOver i l → Held i (lane_step l)
unfolding lane_step
lane_step-Held i l h = elim (Option-cases l.running) [
  | inr (job, e) ↦ rw (lane_step, e) (end_job-Held i job l h)
  | inl e ↦ elim (List-cases l.jobs) [
    | inl q ↦ rw (lane_step, e, q) (h, tt)
    | inr (job, jobs, q) ↦ rw (lane_step, e, q) (take_job-Held i job (record l { jobs = jobs }) h)
  ]
]

lane_event-Held :
    (i : ℕ) (e : LaneEvent) (l : DeviceLane) → IsOther i e → IsOver i l → Held i (lane_event e l)
unfolding lane_event activate dispatch
lane_event-Held i (activated j) l ne h = (ground arith, tt)
lane_event-Held i (retired j) l ne h = (retire-Held i j l h, tt)
lane_event-Held i (dispatched j c job) l ne h = (h, tt)
lane_event-Held i round l ne h = lane_step-Held i l h

run_lane-IsHeld :
    (i : ℕ) (es : List LaneEvent) (l : DeviceLane)
    → All (IsOther i) es
    → IsOver i l
    → All (IsHeld i) (run_lane es l)
unfolding run_lane
run_lane-IsHeld i [] l others h = tt
run_lane-IsHeld i (e ∷ es) l others h =
    let (over, held) = lane_event-Held i e l others.0 h in
    let l' = (lane_event e l).0 in
    All-append (IsHeld i) (lane_event e l).1 (run_lane es l') held
      (run_lane-IsHeld i es l' others.1 over)

-- Once a lifecycle is retired, and as long as it is not activated again, none of its work that may be
-- cancelled starts, though it was queued before, and none of its work that is to be cancelled at once
-- runs to its end.
pub run_lane-retire :
    (i : ℕ) (es : List LaneEvent) (l : DeviceLane)
    → All (IsOther i) es
    → All (IsHeld i) (run_lane es (retire i l))
run_lane-retire i es l others = run_lane-IsHeld i es (retire i l) others (retire-IsOver i l)
