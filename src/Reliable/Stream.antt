-- ===== src/Reliable/Stream.antt =====
-- Reception of a whole history of messages: `receive_fragment` call by call, with losses,
-- repetitions and overtaking.
use iroh_ble_transport.Prelude.{
  ℕ, ◌+◌, ◌%◌, ◌≤◌, ◌<◌, ◌≡◌, refl, true, Option, none, some, List, [], ◌∷◌, arith,
}
use iroh_ble_transport.Reliable.Header.{seq_dist}
use iroh_ble_transport.Reliable.State.{Channel, FragmentEntry, new}
use iroh_ble_transport.Reliable.Receive.{receive_ack, receive_fragment}
use iroh_ble_transport.Reliable.Send.{wire_message}
use iroh_ble_transport.Reliable.Wire.{AckBelow, apply_ack, has_data, receive_fragment-wire_message}
use iroh_ble_transport.Reliable.Delivery.{accepted, Received}
use iroh_ble_transport.Reliable.Arrival.{receive_data-Received}

-- The message of the stream's fragment `index` arrives, with the acknowledgement that it carries.
pub record Arrival : Type 0 where
  pub now : ℕ
  pub index : ℕ
  pub ack : Option ℕ

advance : ℕ → ℕ → ℕ → ℕ
advance n before after = n + seq_dist before after

-- The receiver, with the count of the fragments that it has accepted.
unfoldable pub arrive : (ℕ → FragmentEntry) → Arrival → ℕ × Channel → ℕ × Channel
unfolding advance
arrive stream a (n, c) =
    let c' = receive_fragment a.now (wire_message a.ack (a.index % 16) (stream a.index)) c in
    (advance n c.recv_next c'.recv_next, c')

unfoldable pub arrive_all : (ℕ → FragmentEntry) → List Arrival → ℕ × Channel → ℕ × Channel
arrive_all stream [] s = s
arrive_all stream (a ∷ as') s = arrive_all stream as' (arrive stream a s)

-- Each message belongs to the sender's window of six or is a repetition that is at most ten
-- fragments old when it arrives: an older one would be taken for a new one.
abbrev pub IsTimely : (ℕ → FragmentEntry) → List Arrival → ℕ × Channel → Type 0
IsTimely stream [] s = Unit
IsTimely stream (a ∷ as') s =
    ((a.index < s.0 + 6) × (s.0 ≤ a.index + 10) × AckBelow a.ack)
    × IsTimely stream as' (arrive stream a s)

receive_ack-recv_next : (now a : ℕ) (c : Channel) → (receive_ack now a c).recv_next ≡ c.recv_next
unfolding receive_ack
receive_ack-recv_next now a c = ground arith

receive_ack-reassembly : (now a : ℕ) (c : Channel) → (receive_ack now a c).reassembly ≡ c.reassembly
unfolding receive_ack
receive_ack-reassembly now a c = ground arith

receive_ack-recv_buf : (now a : ℕ) (c : Channel) → (receive_ack now a c).recv_buf ≡ c.recv_buf
unfolding receive_ack
receive_ack-recv_buf now a c = ground arith

apply_ack-Received :
    (stream : ℕ → FragmentEntry) (now n : ℕ) (ack : Option ℕ) (c : Channel)
    → Received stream n c
    → Received stream n (apply_ack now ack c)
apply_ack-Received stream now n none c r = r
apply_ack-Received stream now n (some a) c r = record {
  next = rw (receive_ack-recv_next now a c) r.next;
  taken = rw (receive_ack-reassembly now a c) r.taken;
  held = rw (receive_ack-recv_buf now a c) r.held;
}

seq_dist_of_le : (n m a b : ℕ) → n ≤ m → m ≤ n + 6 → a ≡ n % 16 → b ≡ m % 16 → n + seq_dist a b ≡ m
unfolding seq_dist
seq_dist_of_le n m a b h k e f = omega arith

module _ (stream : ℕ → FragmentEntry) (full : (i : ℕ) → has_data (stream i) ≡ true) where
  arrive-Received :
      (a : Arrival) (n : ℕ) (c : Channel)
      → a.index < n + 6
      → n ≤ a.index + 10
      → AckBelow a.ack
      → Received stream n c
      → let s = arrive stream a (n, c) in Received stream s.0 s.1
  unfolding arrive
  arrive-Received a n c h k below r =
      let c1 = apply_ack a.now a.ack c in
      let e =
        receive_fragment-wire_message a.now (a.index % 16) a.ack (stream a.index) c (omega arith)
          below (full a.index) in
      let (m, above, upto, which, received, answer) =
        receive_data-Received stream a.now n a.index c1 h k
          (apply_ack-Received stream a.now n a.ack c r) in
      rw e (rw (seq_dist_of_le n m c.recv_next _ above upto r.next received.next) received)

  arrive_all-Received :
      (as' : List Arrival) (s : ℕ × Channel)
      → IsTimely stream as' s
      → Received stream s.0 s.1
      → let t = arrive_all stream as' s in Received stream t.0 t.1
  unfolding arrive_all
  arrive_all-Received [] s t r = r
  arrive_all-Received (a ∷ as') (n, c) ((h, k, below), t) r =
      arrive_all-Received as' (arrive stream a (n, c)) t (arrive-Received a n c h k below r)

  -- From a new channel on, fragments of a stream, each with data or a mark, are lost, repeated and
  -- overtaken, but each that arrives is from the window of six or at most ten fragments old. Then the
  -- receiver has accepted a prefix of the stream, in order and once each: what it has reassembled and
  -- handed over is what those first fragments give, and it expects the next.
  pub arrive_all_in_order :
      (as' : List Arrival) (now chunk_size : ℕ)
      → IsTimely stream as' (0, new now chunk_size)
      → let (n, c) = arrive_all stream as' (0, new now chunk_size) in
        (c.reassembly ≡ accepted stream n) × (c.recv_next ≡ n % 16)
  unfolding new accepted
  arrive_all_in_order as' now chunk_size t =
      let r =
        arrive_all-Received as' (0, new now chunk_size) t
          (record { next = refl; taken = refl; held = tt }) in
      (r.taken, r.next)
