-- ===== src/Reliable/Loop.antt =====
-- `run_send_loop` in reliable.rs: a round of the send loop, how long it sleeps, and what it does when
-- the sleep ends. A write that fails is only logged, so it changes nothing here.
use iroh_ble_transport.Prelude.{
  ℕ, ◌+◌, ◌*◌, min, Bool, true, false, not, Option, none, some, List, [], ◌∷◌, leb, ltb, ◌==◌,
  if◌then◌else◌, length,
}
use iroh_ble_transport.Reliable.Header.{header_size, set_ack}
use iroh_ble_transport.Reliable.Send.{dead, next_send_action, send, wait}
use iroh_ble_transport.Reliable.State.{
  Channel, ack_timeout, ack_timeout_max, link_dead_deadline, count_up, take_ack,
}

-- The variables of the loop: `timeout` and `tracked_progress_at`.
pub record Backoff : Type 0 where
  pub timeout : ℕ
  pub tracked : Option ℕ

unfoldable pub start : Backoff
start = record { timeout = ack_timeout; tracked = none }

pub data Plan : Type 0 where
  -- The deadline has passed: the loop returns `LinkDead`.
  give_up : Plan
  -- Sleep until the first instant at most; a retransmission is due at the second.
  sleep : ℕ → ℕ → Plan
  -- Nothing is in flight: sleep until a wake-up, or until an acknowledgement is due.
  idle : Option ℕ → Plan

has_moved : Option ℕ → ℕ → Bool
has_moved none at = false
has_moved (some prev) at = not (prev == at)

-- Forward progress since the last look puts the timeout back to its base.
unfoldable pub track : Channel → Backoff → Backoff
unfolding has_moved
track c b = record {
  timeout = if has_moved b.tracked c.last_progress_at then ack_timeout else b.timeout;
  tracked = some c.last_progress_at;
}

abbrev pub dead_at : Channel → ℕ
dead_at c = c.last_progress_at + link_dead_deadline

unfoldable pub sleep_until : ℕ → ℕ → Channel → ℕ
sleep_until now retransmit_at c = elim c.ack_deadline [
  | none ↦ min retransmit_at (dead_at c)
  | some dl ↦ min (min dl retransmit_at) (dead_at c)
]

-- What the loop decides before it sleeps, with the state that it leaves.
unfoldable pub plan_wait : ℕ → Channel → Backoff → Plan × Channel × Backoff
unfolding track sleep_until
plan_wait now c b = elim c.in_flight [
  | [] ↦ (idle c.ack_deadline, c, b)
  | f ∷ fs ↦
      let b' = track c b in
      if leb (dead_at c) now
      then (give_up, record c { link_dead = true }, b')
      else (sleep (sleep_until now (now + b'.timeout) c) (now + b'.timeout), c, b')
]

pub data Round : Type 0 where
  -- The loop returns `LinkDead`.
  ended : Round
  wrote : List ℕ → Round
  waits : Plan → Round

unfoldable pub planned : Plan → Round
planned give_up = ended
planned (sleep until due) = waits (sleep until due)
planned (idle deadline) = waits (idle deadline)

-- A round up to its write or its sleep. The lock is free between the look for an action, at `now`, and
-- the look at the deadline, at `later`: `between` is what the other tasks do to the channel then.
unfoldable pub loop_round :
    ℕ → ℕ → (Channel → Channel) → Channel → Backoff → Round × Channel × Backoff
unfolding plan_wait next_send_action planned
loop_round now later between c b =
    let (action, c') = next_send_action now c in
    elim action [
      | dead ↦ (ended, c', b)
      | send msg ↦ (wrote msg, c', b)
      | wait ↦ let (plan, c2, b') = plan_wait later (between c') b in (planned plan, c2, b')
    ]

-- After an idle sleep, however it ended.
unfoldable pub after_idle : Backoff → Backoff
after_idle b = record { timeout = ack_timeout; tracked = none }

-- The oldest fragment again, with a fresh acknowledgement if one is pending.
unfoldable pub resend_oldest : Channel → Option (List ℕ) × Channel
unfolding take_ack
resend_oldest c = elim c.in_flight [
  | [] ↦ (none, c)
  | f ∷ fs ↦
      let (ack, c') = take_ack c in
      let msg : List ℕ = elim ack [
        | none ↦ f.wire_msg
        | some ack_seq ↦
            if leb header_size (length f.wire_msg) then set_ack f.wire_msg ack_seq else f.wire_msg
      ] in
      (some msg, record c' { retransmits = count_up c.retransmits })
]

-- The sleep ran out at `now` without a wake-up.
unfoldable pub after_timeout : ℕ → ℕ → Channel → Backoff → Option (List ℕ) × Channel × Backoff
unfolding resend_oldest
after_timeout now retransmit_at c b =
    if ltb now retransmit_at
    then (none, c, b)
    else let (msg, c') = resend_oldest c in
      (msg, c', record b { timeout = min (b.timeout * 2) ack_timeout_max })
