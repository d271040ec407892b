-- ===== src/Reliable/Window.antt =====
-- About the sender's window of reliable.rs: what is in flight between `send_base` and `send_next`,
-- along any sequence of calls.
use iroh_ble_transport.Prelude.{
  ℕ, zero, suc, ◌+◌, ◌-◌, ◌%◌, ◌≤◌, ◌<◌, min, ◌≡◌, refl, inl, inr, true, some, List, [], ◌∷◌, ◌++◌,
  arith, ltb, Bool-cases, Option-cases, if◌then◌else◌, if_both, if_split, opt_eq, last?, take,
  List-cases, ◌∙◌, length, length-append, length-drop, drop,
}
use iroh_ble_transport.Reliable.Header.{decode}
use iroh_ble_transport.Reliable.State.{
  Channel, FragmentEntry, InFlightFragment, new, can_send, in_flight_count, set_chunk_size,
  mark_dead, enqueue_datagram, count_up,
}
use iroh_ble_transport.Reliable.Receive.{
  accept_and_deliver, take_fragment, drain_loop, drain_recv_buf, acked_count, is_acceptable,
  receive_ack, receive_data, receive_body, receive_fragment,
}
use iroh_ble_transport.Reliable.Send.{
  send_fragment, send_pure_ack, next_send_action, refill, send_next_fragment, SendAction,
  wire_message,
}
use iroh_ble_transport.Reliable.Loop.{Backoff, plan_wait, after_timeout}

-- Consecutive sequence numbers, modulo 16.
abbrev pub Consecutive : ℕ → List InFlightFragment → Type 0
Consecutive seq [] = Unit
Consecutive seq (f ∷ fs) = (f.seq ≡ seq) × Consecutive ((seq + 1) % 16) fs

pub record SendWindow (c : Channel) : Type 0 where
  pub base_small : c.send_base < 16
  pub bounded : length c.in_flight ≤ 6
  pub span : c.send_next ≡ (c.send_base + length c.in_flight) % 16
  pub run : Consecutive c.send_base c.in_flight

Consecutive-drop :
    (k s : ℕ) (fs : List InFlightFragment)
    → s < 16
    → k ≤ length fs
    → Consecutive s fs
    → Consecutive ((s + k) % 16) (drop k fs)
Consecutive-drop zero s fs h l r = let e : (s + 0) % 16 ≡ s = omega arith in rw e r
Consecutive-drop (suc k) s [] h l r = absurd (omega arith)
Consecutive-drop (suc k) s (f ∷ fs) h l r =
    let e : (s + suc k) % 16 ≡ ((s + 1) % 16 + k) % 16 = omega arith in
    rw e (Consecutive-drop k ((s + 1) % 16) fs (omega arith) (omega arith) r.1)

Consecutive-snoc :
    (s : ℕ) (fs : List InFlightFragment) (f : InFlightFragment)
    → s < 16
    → f.seq ≡ (s + length fs) % 16
    → Consecutive s fs
    → Consecutive s (fs ++ f ∷ [])
Consecutive-snoc s [] f h e r = (omega arith, tt)
Consecutive-snoc s (x ∷ fs) f h e r =
    (r.0, Consecutive-snoc ((s + 1) % 16) fs f (omega arith) (omega arith) r.1)

in_flight_count-length : (c : Channel) → SendWindow c → in_flight_count c ≡ length c.in_flight
unfolding in_flight_count
in_flight_count-length c w = omega (arith, w.span, w.bounded, w.base_small)

-- An acknowledgement that passes the guard covers fragments in flight, and no more.
pub acked_in_flight :
    (a : ℕ) (c : Channel)
    → SendWindow c
    → is_acceptable a c ≡ true
    → (acked_count a c ≤ length c.in_flight) × ((a + 1) % 16 ≡ (c.send_base + acked_count a c) % 16)
unfolding is_acceptable
acked_in_flight a c w e = (ground (arith, in_flight_count-length c w), omega (arith, w.base_small))

-- An acknowledgement that is accepted slides the window by what it covers.
pub receive_ack-SendWindow :
    (now a : ℕ) (c : Channel) → SendWindow c → SendWindow (receive_ack now a c)
unfolding receive_ack
receive_ack-SendWindow now a c w = elim (Bool-cases (is_acceptable a c)) [
  | inl e ↦
      let covered = acked_in_flight a c w e in
      let enough : min (acked_count a c) (length c.in_flight) ≡ acked_count a c = omega arith in
      rw (e, enough)
        (record {
          base_small = omega arith;
          bounded = omega (arith, w.bounded, length-drop (acked_count a c) c.in_flight);
          span =
              omega
                (arith, w.span, covered.0, covered.1, length-drop (acked_count a c) c.in_flight);
          run = rw covered.1 (
              Consecutive-drop (acked_count a c) c.send_base c.in_flight w.base_small covered.0
                w.run);
        })
  | inr e ↦ rw e w
]

-- The calls below leave the sending half as it is.
record SameWindow (c d : Channel) : Type 0 where
  same_base : d.send_base ≡ c.send_base
  same_next : d.send_next ≡ c.send_next
  same_flight : d.in_flight ≡ c.in_flight

SameWindow-SendWindow : (c d : Channel) → SameWindow c d → SendWindow c → SendWindow d
SameWindow-SendWindow c d s w = record {
  base_small = rw s.same_base w.base_small;
  bounded = rw s.same_flight w.bounded;
  span = rw (s.same_base, s.same_next, s.same_flight) w.span;
  run = rw (s.same_base, s.same_flight) w.run;
}

drain_loop-SameWindow : (fuel now : ℕ) (c : Channel) → SameWindow c (drain_loop fuel now c)
unfolding drain_loop accept_and_deliver
drain_loop-SameWindow zero now c = ground arith
drain_loop-SameWindow (suc fuel) now c =
    elim (Option-cases (take_fragment c.recv_next c.recv_buf)) [
      | inl e ↦ ground arith
      | inr ((f, rest), e) ↦ ground (
        arith,
        drain_loop-SameWindow fuel now (accept_and_deliver now f (record c { recv_buf = rest })),
      )
    ]

receive_data-SameWindow :
    (now seq : ℕ) (f : FragmentEntry) (c : Channel) → SameWindow c (receive_data now seq f c)
unfolding receive_data drain_recv_buf accept_and_deliver
receive_data-SameWindow now seq f c =
    ground (arith, drain_loop-SameWindow (length c.recv_buf) now (accept_and_deliver now f c))

receive_body-SendWindow :
    (now : ℕ) (value : List ℕ) (c : Channel) → SendWindow c → SendWindow (receive_body now value c)
unfolding receive_body
receive_body-SendWindow now [] c w = w
receive_body-SendWindow now (b0 ∷ []) c w = w
receive_body-SendWindow now (b0 ∷ b1 ∷ payload) c w =
    if_both SendWindow _ (SameWindow-SendWindow _ _ (receive_data-SameWindow now _ _ _) acked) acked
  where
    acked :
        SendWindow (if (decode b0 b1).has_ack then receive_ack now (decode b0 b1).ack_seq c else c)
    acked = if_both SendWindow (decode b0 b1).has_ack (receive_ack-SendWindow now _ c w) w

pub receive_fragment-SendWindow :
    (now : ℕ) (value : List ℕ) (c : Channel)
    → SendWindow c
    → SendWindow (receive_fragment now value c)
unfolding receive_fragment
receive_fragment-SendWindow now value c w = if_both SendWindow (ltb (length value) 2) w (
    if_both SendWindow (ltb 2 (length value))
      (if_both SendWindow (opt_eq (last? value) (some 0x5A))
        (receive_body-SendWindow now (take (length value - 1) value) c w) truncated)
      (receive_body-SendWindow now value c w))
  where
    truncated : SendWindow (record c { truncations = count_up c.truncations })
    truncated = record {
      base_small = w.base_small;
      bounded = w.bounded;
      span = w.span;
      run = w.run;
    }

refill-SameWindow : (c : Channel) → SameWindow c (refill c)
unfolding refill
refill-SameWindow c = ground arith

send_pure_ack-SameWindow : (now : ℕ) (c : Channel) → SameWindow c (send_pure_ack now c).1
unfolding send_pure_ack
send_pure_ack-SameWindow now c = ground arith

can_send-SameWindow : (c d : Channel) → SameWindow c d → can_send d ≡ can_send c
unfolding can_send
can_send-SameWindow c d s = rw (s.same_base, s.same_next)

send_fragment-SendWindow :
    (now : ℕ) (f : FragmentEntry) (c : Channel)
    → can_send c ≡ true
    → SendWindow c
    → SendWindow (send_fragment now f c).1
unfolding send_fragment can_send
send_fragment-SendWindow now f c room w =
    let free : length c.in_flight < 6 = ground (arith, in_flight_count-length c w) in
    record {
      base_small = w.base_small;
      bounded = omega (arith, length-append c.in_flight (sent ∷ []));
      span = omega (arith, w.span, length-append c.in_flight (sent ∷ []));
      run = Consecutive-snoc c.send_base c.in_flight sent w.base_small w.span w.run;
    }
  where
    sent : InFlightFragment
    sent = record { seq = c.send_next; wire_msg = wire_message c.ack_pending c.send_next f }

send_next_fragment-SendWindow :
    (now : ℕ) (c : Channel)
    → can_send c ≡ true
    → SendWindow c
    → SendWindow (send_next_fragment now c).1
unfolding send_next_fragment can_send
send_next_fragment-SendWindow now c room w = elim (List-cases c.frag_queue) [
  | inl e ↦
      rw (e, send_next_fragment) (SameWindow-SendWindow c _ (send_pure_ack-SameWindow now c) w)
  | inr (f, fs, e) ↦
      rw (e, send_next_fragment)
        (send_fragment-SendWindow now f (record c { frag_queue = fs }) room
          (SameWindow-SendWindow c _ (ground arith) w))
]

-- No action of the send loop overfills the window.
pub next_send_action-SendWindow :
    (now : ℕ) (c : Channel) → SendWindow c → SendWindow (next_send_action now c).1
unfolding next_send_action
next_send_action-SendWindow now c w =
    if_both (λ (s : SendAction × Channel). SendWindow s.1) c.link_dead w
      (if_split (λ (s : SendAction × Channel). SendWindow s.1) (can_send (refill c))
        (λ e.
          send_next_fragment-SendWindow now _
            (can_send-SameWindow _ _ (refill-SameWindow (refill c)) ∙ e)
            (SameWindow-SendWindow _ _ (refill-SameWindow (refill c)) first))
        (λ e. SameWindow-SendWindow _ _ (send_pure_ack-SameWindow now (refill c)) first))
  where
    first : SendWindow (refill c)
    first = SameWindow-SendWindow c _ (refill-SameWindow c) w

-- The calls on a channel, each at an instant of its own.
pub data Call : Type 0 where
  receive : ℕ → List ℕ → Call
  act : ℕ → Call
  enqueue : List ℕ → Call
  resize : ℕ → Call
  kill : Call
  wait_at : ℕ → Backoff → Call
  time_out : ℕ → ℕ → Backoff → Call

unfoldable pub perform : Call → Channel → Channel
perform (receive now value) c = receive_fragment now value c
perform (act now) c = (next_send_action now c).1
perform (enqueue bytes) c = (enqueue_datagram bytes c).0
perform (resize n) c = set_chunk_size n c
perform kill c = mark_dead c
perform (wait_at now b) c = (plan_wait now c b).1
perform (time_out now due b) c = (after_timeout now due c b).1

unfoldable pub perform_all : List Call → Channel → Channel
perform_all [] c = c
perform_all (k ∷ ks) c = perform_all ks (perform k c)

enqueue-SameWindow : (bytes : List ℕ) (c : Channel) → SameWindow c (enqueue_datagram bytes c).0
unfolding enqueue_datagram
enqueue-SameWindow bytes c = ground arith

plan_wait-SameWindow : (now : ℕ) (c : Channel) (b : Backoff) → SameWindow c (plan_wait now c b).1
unfolding plan_wait
plan_wait-SameWindow now c b = ground arith

after_timeout-SameWindow :
    (now due : ℕ) (c : Channel) (b : Backoff) → SameWindow c (after_timeout now due c b).1
unfolding after_timeout
after_timeout-SameWindow now due c b = ground arith

perform-SendWindow : (k : Call) (c : Channel) → SendWindow c → SendWindow (perform k c)
unfolding perform set_chunk_size mark_dead
perform-SendWindow (receive now value) c w = receive_fragment-SendWindow now value c w
perform-SendWindow (act now) c w = next_send_action-SendWindow now c w
perform-SendWindow (enqueue bytes) c w = SameWindow-SendWindow c _ (enqueue-SameWindow bytes c) w
perform-SendWindow (resize n) c w =
    SameWindow-SendWindow c _ (record { same_base = refl; same_next = refl; same_flight = refl }) w
perform-SendWindow kill c w =
    SameWindow-SendWindow c _ (record { same_base = refl; same_next = refl; same_flight = refl }) w
perform-SendWindow (wait_at now b) c w = SameWindow-SendWindow c _ (plan_wait-SameWindow now c b) w
perform-SendWindow (time_out now due b) c w =
    SameWindow-SendWindow c _ (after_timeout-SameWindow now due c b) w

perform_all-keeps : (ks : List Call) (c : Channel) → SendWindow c → SendWindow (perform_all ks c)
unfolding perform_all
perform_all-keeps [] c w = w
perform_all-keeps (k ∷ ks) c w = perform_all-keeps ks (perform k c) (perform-SendWindow k c w)

-- After any calls on a new channel, with any bytes received, at most six fragments are in flight,
-- their sequence numbers run from `send_base` without a gap, and `send_next` is the one after.
pub perform_all-SendWindow :
    (ks : List Call) (now chunk_size : ℕ) → SendWindow (perform_all ks (new now chunk_size))
unfolding new
perform_all-SendWindow ks now chunk_size =
    perform_all-keeps ks _
      (record { base_small = omega arith; bounded = omega arith; span = refl; run = tt })
