-- ===== src/Reliable/Liveness.antt =====
-- About the end of the send loop, and how long it sleeps until then (`run_send_loop` of
-- reliable.rs).
use iroh_ble_transport.Prelude.{
  ℕ, ◌+◌, ◌≤◌, ◌<◌, ◌≡◌, ◌≢◌, ◌⊎◌, inl, inr, true, false, List, List-cases, [], arith, leb,
  Bool-cases, refl, ap, ◌∙◌, ◌∷◌,
}
use iroh_ble_transport.Reliable.State.{Channel, ack_timeout, ack_timeout_max}
use iroh_ble_transport.Reliable.Send.{
  SendAction, refill, dead, send, wait, next_send_action, send_fragment, send_next_fragment,
  send_pure_ack,
}
use iroh_ble_transport.Reliable.Loop.{
  Backoff, Round, ended, wrote, waits, idle, loop_round, planned, give_up, sleep, dead_at, track,
  plan_wait, sleep_until, after_timeout,
}

sleep_until-le : (now due : ℕ) (c : Channel) → sleep_until now due c ≤ c.last_progress_at + 6000
unfolding sleep_until
sleep_until-le now due c = ground arith

-- What a round that started with the channel `c` and looked at its deadline, at `later`, with `c1`
-- may come to.
abbrev pub RoundOk : ℕ → Channel → Channel → Round × Channel × Backoff → Type 0
RoundOk later c c1 (ended, c', b) =
    ((c.link_dead ≡ true) ⊎ ((c1.in_flight ≢ []) × (c1.last_progress_at + 6000 ≤ later)))
    × (c'.link_dead ≡ true)
RoundOk later c c1 (wrote msg, c', b) = c.link_dead ≡ false
RoundOk later c c1 (waits give_up, c', b) = ⊥
RoundOk later c c1 (waits (sleep until due), c', b) =
    (c.link_dead ≡ false)
    × (later < c1.last_progress_at + 6000)
    × (until ≤ c1.last_progress_at + 6000)
RoundOk later c c1 (waits (idle deadline), c', b) = (c.link_dead ≡ false) × (c1.in_flight ≡ [])

SendAction-cases : (a : SendAction) → (a ≡ dead) ⊎ (((msg : List ℕ) × (a ≡ send msg)) ⊎ (a ≡ wait))
SendAction-cases dead = inl refl
SendAction-cases (send msg) = inr (inl (msg, refl))
SendAction-cases wait = inr (inr refl)

send_pure_ack-alive : (now : ℕ) (c : Channel) → (send_pure_ack now c).0 ≢ dead
unfolding send_pure_ack
send_pure_ack-alive now c = ground arith

send_next_fragment-alive : (now : ℕ) (c : Channel) → (send_next_fragment now c).0 ≢ dead
unfolding send_next_fragment send_fragment
send_next_fragment-alive now c = elim (List-cases c.frag_queue) [
  | inl e ↦ rw (e, send_next_fragment) (send_pure_ack-alive now c)
  | inr (f, fs, e) ↦ rw (e, send_next_fragment) (λ p. absurd (cc))
]

next_send_action-alive :
    (now : ℕ) (c : Channel)
    → ((c.link_dead ≡ true) × (next_send_action now c ≡ (dead, c)))
      ⊎ ((c.link_dead ≡ false) × ((next_send_action now c).0 ≢ dead))
unfolding next_send_action
next_send_action-alive now c = elim (Bool-cases c.link_dead) [
  | inl t ↦ inl (t, rw (t, next_send_action) refl)
  | inr f ↦ inr (
    f,
    ground (
      arith,
      send_next_fragment-alive now (refill (refill c)),
      send_pure_ack-alive now (refill c),
    ),
  )
]

plan_wait-RoundOk :
    (later : ℕ) (c c1 : Channel) (b : Backoff)
    → c.link_dead ≡ false
    → let (plan, c', b') = plan_wait later c1 b in RoundOk later c c1 (planned plan, c', b')
unfolding planned plan_wait
plan_wait-RoundOk later c c1 b alive = elim (List-cases c1.in_flight) [
  | inl e ↦ rw (e, plan_wait) (alive, refl)
  | inr (f, fs, e) ↦
      let busy : f ∷ fs ≢ [] = λ p. absurd (cc) in
      elim (Bool-cases (leb (dead_at c1) later)) [
        | inl late ↦ rw (e, late, plan_wait) (inr (busy, ground arith), refl)
        | inr early ↦
            rw (e, early, plan_wait)
              (alive, ground arith, sleep_until-le later (later + (track c1 b).timeout) c1)
      ]
]

-- A round of the send loop ends the loop only where the link had been marked dead, or something is in
-- flight and six seconds have passed since the last progress, and leaves the link marked dead. Where it
-- had been, the round writes nothing and waits for nothing; where those seconds have passed it does not
-- sleep, and a sleep with something in flight is never past that instant. Only with nothing in flight
-- it sleeps without that limit. All this whatever other tasks do between its two looks at the channel.
pub loop_round-RoundOk :
    (now later : ℕ) (between : Channel → Channel) (c : Channel) (b : Backoff)
    → RoundOk later c (between (next_send_action now c).1) (loop_round now later between c b)
unfolding loop_round
loop_round-RoundOk now later between c b =
    let c1 = between (next_send_action now c).1 in
    elim (next_send_action-alive now c) [
      | inl (gone, e) ↦
          rw (loop_round, e) (inl gone, ap (λ (x : SendAction × Channel). x.1.link_dead) e ∙ gone)
      | inr (alive, busy) ↦ elim (SendAction-cases (next_send_action now c).0) [
        | inl e ↦ absurd (busy e)
        | inr (inl (msg, e)) ↦ rw (loop_round, e) alive
        | inr (inr e) ↦ rw (loop_round, e) (plan_wait-RoundOk later c c1 b alive)
      ]
    ]

-- A link that was given up stays so: no later action sends anything.
pub next_send_action-dead :
    (now : ℕ) (c : Channel) → c.link_dead ≡ true → next_send_action now c ≡ (dead, c)
unfolding next_send_action
next_send_action-dead now c h = rw h

abbrev pub IsPaced : Backoff → Type 0
IsPaced b = (ack_timeout ≤ b.timeout) × (b.timeout ≤ ack_timeout_max)

pub plan_wait-IsPaced :
    (now : ℕ) (c : Channel) (b : Backoff) → IsPaced b → IsPaced (plan_wait now c b).2
unfolding plan_wait
plan_wait-IsPaced now c b h = ground arith

pub after_timeout-IsPaced :
    (now due : ℕ) (c : Channel) (b : Backoff) → IsPaced b → IsPaced (after_timeout now due c b).2
unfolding after_timeout
after_timeout-IsPaced now due c b h = ground arith
