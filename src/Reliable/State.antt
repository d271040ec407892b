-- ===== src/Reliable/State.antt =====
-- `ChannelState` of reliable.rs with the counters and the outputs of `ReliableChannel`. A wake-up of
-- the send loop and of a parked sender is a flag; a datagram sent on `datagram_tx` is put at the
-- end of `delivered`. An instant is a number of milliseconds, and the current one is an argument.
use iroh_ble_transport.Prelude.{
  ℕ, ◌+◌, ◌%◌, ◌^◌, Bool, true, false, Option, none, some, List, [], ◌∷◌, ◌++◌, ltb, leb, ◌==◌,
  if◌then◌else◌, any, length,
}
use iroh_ble_transport.Reliable.Header.{seq_dist}

abbrev pub window_size : ℕ
window_size = 6

abbrev pub inter_frame_gap : ℕ
inter_frame_gap = 3

abbrev pub ack_timeout : ℕ
ack_timeout = 300

abbrev pub ack_timeout_max : ℕ
ack_timeout_max = 5000

abbrev pub ack_delay : ℕ
ack_delay = 15

abbrev pub link_dead_deadline : ℕ
link_dead_deadline = 6000

abbrev pub send_queue_capacity : ℕ
send_queue_capacity = 32

-- An `AtomicU64` counter wraps.
abbrev pub count_up : ℕ → ℕ
count_up n = (n + 1) % 2 ^ 64

pub record InFlightFragment : Type 0 where
  pub seq : ℕ
  pub wire_msg : List ℕ

pub record FragmentEntry : Type 0 where
  pub payload : List ℕ
  pub first : Bool
  pub last : Bool

pub record BufferedFragment : Type 0 where
  pub seq : ℕ
  pub entry : FragmentEntry

-- The datagram under reassembly, and those handed over so far.
pub record Reassembly : Type 0 where
  pub bytes : List ℕ
  pub overflow : Bool
  pub delivered : List (List ℕ)

pub record Channel : Type 0 where
  pub send_queue : List (List ℕ)
  pub frag_queue : List FragmentEntry
  pub send_next : ℕ
  pub send_base : ℕ
  pub in_flight : List InFlightFragment
  pub recv_next : ℕ
  pub reassembly : Reassembly
  pub recv_buf : List BufferedFragment
  pub ack_pending : Option ℕ
  pub ack_deadline : Option ℕ
  pub last_progress_at : ℕ
  pub link_dead : Bool
  pub chunk_size : ℕ
  pub retransmits : ℕ
  pub truncations : ℕ
  pub wake : Bool
  pub send_waker : Bool

-- `ReliableChannel::new` at the instant `now`.
unfoldable pub new : ℕ → ℕ → Channel
new now chunk_size = record {
  send_queue = [];
  frag_queue = [];
  send_next = 0;
  send_base = 0;
  in_flight = [];
  recv_next = 0;
  reassembly = record { bytes = []; overflow = false; delivered = [] };
  recv_buf = [];
  ack_pending = none;
  ack_deadline = none;
  last_progress_at = now;
  link_dead = false;
  chunk_size = chunk_size;
  retransmits = 0;
  truncations = 0;
  wake = false;
  send_waker = false;
}

unfoldable pub in_flight_count : Channel → ℕ
unfolding seq_dist
in_flight_count c = seq_dist c.send_base c.send_next

unfoldable pub can_send : Channel → Bool
unfolding in_flight_count
can_send c = ltb (in_flight_count c) window_size

unfoldable pub in_recv_window : Channel → ℕ → Bool
unfolding seq_dist
in_recv_window c seq = ltb (seq_dist c.recv_next seq) window_size

unfoldable pub is_buffered : Channel → ℕ → Bool
is_buffered c seq = any (λ (f : BufferedFragment). f.seq == seq) c.recv_buf

-- A deadline that is set already stays.
unfoldable pub schedule_ack : ℕ → ℕ → Channel → Channel
schedule_ack now seq c = record c {
  ack_pending = some seq;
  ack_deadline = elim c.ack_deadline [ none ↦ some (now + ack_delay) | some dl ↦ some dl ];
}

-- The pending acknowledgement, and the channel without it.
unfoldable pub take_ack : Channel → Option ℕ × Channel
take_ack c = (c.ack_pending, record c { ack_pending = none; ack_deadline = none })

unfoldable pub set_chunk_size : ℕ → Channel → Channel
set_chunk_size n c = record c { chunk_size = n }

unfoldable pub mark_dead : Channel → Channel
mark_dead c = record c { link_dead = true; wake = true }

unfoldable pub enqueue_datagram : List ℕ → Channel → Channel × Bool
enqueue_datagram bytes c =
    if leb send_queue_capacity (length c.send_queue + length c.frag_queue)
    then (c, false)
    else (record c { send_queue = c.send_queue ++ bytes ∷ []; wake = true }, true)

-- `none` where the lock is held by another task.
unfoldable pub try_enqueue_datagram : Bool → List ℕ → Channel → Channel × Option Bool
unfolding enqueue_datagram
try_enqueue_datagram contended bytes c =
    if contended
    then (c, none)
    else let (c', queued) = enqueue_datagram bytes c in (c', some queued)
