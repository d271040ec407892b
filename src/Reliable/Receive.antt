-- ===== src/Reliable/Receive.antt =====
-- The receiving half of reliable.rs: `receive_fragment`, `accept_and_deliver`, `drain_recv_buf`.
-- The lock is held from the acknowledgement to the end, so each call is one step of the state.
use iroh_ble_transport.Prelude.{
  ℕ, zero, suc, ◌+◌, ◌-◌, ◌%◌, min, Bool, true, false, not, ◌&&◌, ◌||◌, Option, none, some, List,
  [], ◌∷◌, ◌++◌, ltb, leb, ◌==◌, opt_eq, if◌then◌else◌, length, is_empty, last?, take, drop,
}
use iroh_ble_transport.Mtu.{max_datagram_size}
use iroh_ble_transport.Reliable.Header.{header_size, fragment_canary, seq_modulus, decode, seq_dist}
use iroh_ble_transport.Reliable.State.{
  Channel, Reassembly, BufferedFragment, FragmentEntry, window_size, count_up, in_flight_count,
  in_recv_window, is_buffered, schedule_ack,
}

start_over : Bool → Reassembly → Reassembly
start_over first r = if first then record r { bytes = []; overflow = false } else r

append : List ℕ → Reassembly → Reassembly
append payload r =
    let bytes = r.bytes ++ payload in
    if r.overflow
    then r
    else if ltb max_datagram_size (length bytes)
    then record r { bytes = []; overflow = true }
    else record r { bytes = bytes }

hand_over : Bool → Reassembly → Reassembly
hand_over last r =
    if last
    then record {
      bytes = [];
      overflow = false;
      delivered = if is_empty r.bytes then r.delivered else r.delivered ++ r.bytes ∷ [];
    }
    else r

-- What one accepted fragment does to the datagram under reassembly.
unfoldable pub reassemble : FragmentEntry → Reassembly → Reassembly
unfolding start_over append hand_over
reassemble f r = hand_over f.last (append f.payload (start_over f.first r))

unfoldable pub accept_and_deliver : ℕ → FragmentEntry → Channel → Channel
unfolding schedule_ack
accept_and_deliver now f c =
    let recv_next = (c.recv_next + 1) % seq_modulus in
    schedule_ack now ((recv_next + seq_modulus - 1) % seq_modulus)
      (record c { reassembly = reassemble f c.reassembly; recv_next = recv_next; wake = true })

-- The first fragment of that sequence number, and the others: `position` and `remove`.
unfoldable pub take_fragment :
    ℕ → List BufferedFragment → Option (FragmentEntry × List BufferedFragment)
take_fragment seq [] = none
take_fragment seq (f ∷ fs) =
    if f.seq == seq
    then some (f.entry, fs)
    else elim (take_fragment seq fs) [ none ↦ none | some (e, rest) ↦ some (e, f ∷ rest) ]

-- The `loop` of `drain_recv_buf`. Each round takes a fragment out of the buffer, so as many rounds
-- as it holds are enough.
unfoldable pub drain_loop : ℕ → ℕ → Channel → Channel
drain_loop zero now c = c
drain_loop (suc fuel) now c = elim (take_fragment c.recv_next c.recv_buf) [
  | none ↦ c
  | some (f, rest) ↦ drain_loop fuel now (accept_and_deliver now f (record c { recv_buf = rest }))
]

unfoldable pub drain_recv_buf : ℕ → Channel → Channel
unfolding drain_loop
drain_recv_buf now c = drain_loop (length c.recv_buf) now c

-- How many fragments an acknowledgement covers, counted from `send_base`.
unfoldable pub acked_count : ℕ → Channel → ℕ
unfolding seq_dist
acked_count ack_seq c = seq_dist c.send_base ((ack_seq + 1) % seq_modulus)

-- The guard against stale and bogus acknowledgements.
unfoldable pub is_acceptable : ℕ → Channel → Bool
unfolding acked_count
is_acceptable ack_seq c =
    let acked = acked_count ack_seq c in
    ltb 0 acked && (leb acked window_size && leb acked (in_flight_count c))

-- The cumulative acknowledgement: what it covers is no longer in flight.
unfoldable pub receive_ack : ℕ → ℕ → Channel → Channel
receive_ack now ack_seq c =
    if is_acceptable ack_seq c
    then record c {
      in_flight = drop (min (acked_count ack_seq c) (length c.in_flight)) c.in_flight;
      send_base = (ack_seq + 1) % seq_modulus;
      last_progress_at = now;
      send_waker = true;
      wake = true;
    }
    else c

-- The current position is acknowledged again.
unfoldable pub ack_again : ℕ → Channel → Channel
unfolding schedule_ack
ack_again now c = record (schedule_ack now ((c.recv_next + seq_modulus - 1) % seq_modulus) c) {
  wake = true;
}

unfoldable pub receive_data : ℕ → ℕ → FragmentEntry → Channel → Channel
unfolding ack_again
receive_data now seq f c =
    if seq == c.recv_next
    then drain_recv_buf now (accept_and_deliver now f c)
    else if in_recv_window c seq && not (is_buffered c seq)
    then record (ack_again now c) { recv_buf = c.recv_buf ++ record { seq = seq; entry = f } ∷ [] }
    else if not (in_recv_window c seq)
    then ack_again now c
    else c

-- A fragment after the canary is off; `receive_fragment` passes at least two bytes.
unfoldable pub receive_body : ℕ → List ℕ → Channel → Channel
receive_body now (b0 ∷ b1 ∷ payload) c =
    let h = decode b0 b1 in
    let c' = if h.has_ack then receive_ack now h.ack_seq c else c in
    if h.first || (h.last || not (is_empty payload))
    then receive_data now h.seq (record { payload = payload; first = h.first; last = h.last }) c'
    else c'
receive_body now short c = c

unfoldable pub receive_fragment : ℕ → List ℕ → Channel → Channel
receive_fragment now value c =
    if ltb (length value) header_size
    then c
    else if ltb header_size (length value)
    then if opt_eq (last? value) (some fragment_canary)
      then receive_body now (take (length value - 1) value) c
      else record c { truncations = count_up c.truncations }
    else receive_body now value c
