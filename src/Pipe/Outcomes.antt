-- ===== src/Pipe/Outcomes.antt =====
-- About the supervisor of pipe.rs and each datagram that it receives. What a worker does later with
-- a datagram that it was given is not part of this.
use iroh_ble_transport.Prelude.{
  Bool-cases, List, [], ap, append-nil, append_assoc, arith, false, if_both, inl, inr, refl, sym,
  ◌++◌, ◌∙◌, ◌∷◌, ◌≡◌,
}
use iroh_ble_transport.Peer.{PendingSend}
use iroh_ble_transport.Pipe.Supervisor.{
  PipeEffect, PipeEvent, SendTimeout, TryForward, WorkerSet, add_l2cap, adds_closed, fall_back,
  forward_gatt, forward_inbound_gatt, forward_outbound, fragment_to_gatt, hung_up, in_time, inbound,
  inbound_closed, is_closed, is_full, l2cap_added, outbound, outbound_closed, passed, pipe_step,
  report_handover_timeout, spawn_l2cap, supervise, teardown_l2cap, timed_out, to_gatt, to_l2cap,
  wake,
}

-- The datagram that an effect settles.
abbrev pub settled : PipeEffect → List PendingSend
settled (to_l2cap s) = s ∷ []
settled (to_gatt s) = s ∷ []
settled (wake s) = s ∷ []
settled (fragment_to_gatt bytes) = []
settled teardown_l2cap = []
settled report_handover_timeout = []
settled (spawn_l2cap channel) = []

abbrev pub outcomes : List PipeEffect → List PendingSend
outcomes [] = []
outcomes (x ∷ xs) = settled x ++ outcomes xs

-- The datagrams among the events.
abbrev pub offered : PipeEvent → List PendingSend
offered (outbound s l2cap_answer gatt_answer) = s ∷ []
offered (inbound bytes answer) = []
offered (l2cap_added channel) = []
offered adds_closed = []
offered outbound_closed = []
offered inbound_closed = []

abbrev pub all_offered : List PipeEvent → List PendingSend
all_offered [] = []
all_offered (e ∷ es) = offered e ++ all_offered es

outcomes-append : (xs ys : List PipeEffect) → outcomes (xs ++ ys) ≡ outcomes xs ++ outcomes ys
outcomes-append [] ys = refl
outcomes-append (x ∷ xs) ys =
    ap (λ rest. settled x ++ rest) (outcomes-append xs ys)
    ∙ sym (append_assoc (settled x) (outcomes xs) (outcomes ys))

abbrev SettlesOne : PendingSend → WorkerSet × List PipeEffect → Type 0
SettlesOne s x = outcomes x.1 ≡ s ∷ []

forward_gatt-outcomes :
    (s : PendingSend) (answer : TryForward) (w : WorkerSet)
    → outcomes (forward_gatt s answer w).1 ≡ s ∷ []
unfolding forward_gatt
forward_gatt-outcomes s passed w = ground arith
forward_gatt-outcomes s is_full w = ground arith
forward_gatt-outcomes s is_closed w = ground arith

forward_outbound-outcomes :
    (s : PendingSend) (slow : SendTimeout) (answer : TryForward) (w : WorkerSet)
    → outcomes (forward_outbound s slow answer w).1 ≡ s ∷ []
unfolding forward_outbound fall_back
forward_outbound-outcomes s in_time answer w =
    if_both (SettlesOne s) w.l2cap refl (forward_gatt-outcomes s answer w)
forward_outbound-outcomes s timed_out answer w =
    if_both (SettlesOne s) w.l2cap (forward_gatt-outcomes s answer (record w { l2cap = false }))
      (forward_gatt-outcomes s answer w)
forward_outbound-outcomes s hung_up answer w =
    if_both (SettlesOne s) w.l2cap (forward_gatt-outcomes s answer (record w { l2cap = false }))
      (forward_gatt-outcomes s answer w)

pipe_step-outcomes : (e : PipeEvent) (w : WorkerSet) → outcomes (pipe_step e w).1 ≡ offered e
unfolding pipe_step forward_inbound_gatt add_l2cap
pipe_step-outcomes (outbound s slow answer) w = forward_outbound-outcomes s slow answer w
pipe_step-outcomes (inbound bytes passed) w = ground arith
pipe_step-outcomes (inbound bytes is_full) w = ground arith
pipe_step-outcomes (inbound bytes is_closed) w = ground arith
pipe_step-outcomes (l2cap_added channel) w = ground arith
pipe_step-outcomes adds_closed w = refl
pipe_step-outcomes outbound_closed w = refl
pipe_step-outcomes inbound_closed w = refl

-- The events that a pipe has received before its loop ends: each datagram among them, in order and
-- once each, is passed on to one path or its sender is woken.
pub supervise-outcomes :
    (es : List PipeEvent) (w : WorkerSet)
    → (received : List PipeEvent) × (received ++ (supervise es w).1 ≡ es)
      × (outcomes (supervise es w).0 ≡ all_offered received)
unfolding supervise
supervise-outcomes [] w = ([], refl, refl)
supervise-outcomes (e ∷ es) w =
    let now = pipe_step-outcomes e w in
    let (w', effects, goes_on) = pipe_step e w in
    let (received, whole, told) = supervise-outcomes es (pipe_step e w).0 in
    elim (Bool-cases (pipe_step e w).2) [
      | inl t ↦
          rw (supervise, t)
            (
              e ∷ received,
              ap (λ rest. e ∷ rest) whole,
              outcomes-append (pipe_step e w).1 (supervise es (pipe_step e w).0).0
                  ∙ rw (now, told) refl,
            )
      | inr f ↦ rw (supervise, f) (e ∷ [], refl, now ∙ sym (append-nil (offered e)))
    ]
