-- ===== src/Reliable/Send.antt =====
-- The sending half of reliable.rs: `fragment_into` and `next_send_action`.
use iroh_ble_transport.Prelude.{
  ℕ, zero, suc, ◌-◌, ◌%◌, ◌+◌, Bool, true, false, Option, none, some, List, [], ◌∷◌, ◌++◌, leb,
  if◌then◌else◌, length, is_empty, take, drop,
}
use iroh_ble_transport.Reliable.Header.{
  header_size, fragment_canary, seq_modulus, make_header, set_ack,
}
use iroh_ble_transport.Reliable.State.{Channel, FragmentEntry, can_send, take_ack}

-- `chunks(n)`: pieces of `n` bytes, the last one of what is left. Each piece takes a byte at least,
-- so the length is fuel enough. (The source panics at 0.)
unfoldable pub chunks : ℕ → ℕ → List ℕ → List (List ℕ)
chunks zero n xs = []
chunks (suc fuel) n [] = []
chunks (suc fuel) n (x ∷ xs) = take n (x ∷ xs) ∷ chunks fuel n (drop n (x ∷ xs))

-- The entries of a list of chunks: the first is marked, and the last.
unfoldable pub mark_chunks : Bool → List (List ℕ) → List FragmentEntry
mark_chunks first [] = []
mark_chunks first (c ∷ []) = record { payload = c; first = first; last = true } ∷ []
mark_chunks first (c ∷ d ∷ cs) =
    record { payload = c; first = first; last = false } ∷ mark_chunks false (d ∷ cs)

-- A chunk size below three makes the source's subtraction fail; `Mtu` keeps it at 21 or more.
abbrev pub max_payload : ℕ → ℕ
max_payload chunk_size = chunk_size - header_size - 1

unfoldable pub fragments : ℕ → List ℕ → List FragmentEntry
unfolding chunks mark_chunks
fragments chunk_size datagram =
    if leb (length datagram) (max_payload chunk_size)
    then record { payload = datagram; first = true; last = true } ∷ []
    else mark_chunks true (chunks (length datagram) (max_payload chunk_size) datagram)

unfoldable pub fragment_into : List ℕ → Channel → Channel
unfolding fragments
fragment_into datagram c = record c { frag_queue = c.frag_queue ++ fragments c.chunk_size datagram }

pub data SendAction : Type 0 where
  send : List ℕ → SendAction
  wait : SendAction
  dead : SendAction

-- A datagram from the queue is cut up once the last one's fragments are all sent.
unfoldable pub refill : Channel → Channel
unfolding fragment_into
refill c = elim c.frag_queue [
  | [] ↦ elim c.send_queue [
    | [] ↦ c
    | datagram ∷ rest ↦ record (fragment_into datagram (record c { send_queue = rest })) {
      send_waker = true;
    }
  ]
  | f ∷ fs ↦ c
]

abbrev pub with_ack : Option ℕ → List ℕ → List ℕ
with_ack none header = header
with_ack (some ack_seq) header = set_ack header ack_seq

-- Header, payload and canary.
unfoldable pub wire_message : Option ℕ → ℕ → FragmentEntry → List ℕ
wire_message ack seq f =
    with_ack ack (make_header seq f.first f.last) ++ (f.payload ++ fragment_canary ∷ [])

unfoldable pub send_fragment : ℕ → FragmentEntry → Channel → SendAction × Channel
unfolding take_ack wire_message
send_fragment now f c =
    let seq = c.send_next in
    let (ack, c') = take_ack c in
    let msg = wire_message ack seq f in
    (
      send msg,
      record c' {
        last_progress_at = if is_empty c.in_flight then now else c.last_progress_at;
        in_flight = c.in_flight ++ record { seq = seq; wire_msg = msg } ∷ [];
        send_next = (seq + 1) % seq_modulus;
      },
    )

-- A pure acknowledgement, once its delay is over.
unfoldable pub send_pure_ack : ℕ → Channel → SendAction × Channel
unfolding take_ack
send_pure_ack now c = elim c.ack_pending [
  | none ↦ (wait, c)
  | some ack_seq ↦
      let due : Bool = elim c.ack_deadline [ none ↦ true | some dl ↦ leb dl now ] in
      if due then (send (set_ack (0 ∷ 0 ∷ []) ack_seq), (take_ack c).1) else (wait, c)
]

unfoldable pub send_next_fragment : ℕ → Channel → SendAction × Channel
unfolding send_fragment send_pure_ack
send_next_fragment now c = elim c.frag_queue [
  | [] ↦ send_pure_ack now c
  | f ∷ fs ↦ send_fragment now f (record c { frag_queue = fs })
]

unfoldable pub next_send_action : ℕ → Channel → SendAction × Channel
unfolding refill send_next_fragment
next_send_action now c =
    let c' = refill c in
    if c.link_dead
    then (dead, c)
    else if can_send c'
    then send_next_fragment now (refill c')
    else send_pure_ack now c'
