-- ===== src/Scenarios/Transfer.antt =====
-- The reliable channel and the chunk size at concrete inputs.
use iroh_ble_transport.Prelude.{
  All, List, [], arith, false, if◌then◌else◌, leb, length, min, none, refl, some, true, ℕ, ◌%◌, ◌*◌,
  ◌+◌, ◌-◌, ◌∷◌, ◌≡◌, ◌≢◌, ◌≤◌,
}
use iroh_ble_transport.Mtu.{resolve_chunk_size}
use iroh_ble_transport.Mtu.Resolve.{
  resolve_chunk_size_bounds, resolve_chunk_size_fallback, resolve_chunk_size_first,
}
use iroh_ble_transport.Reliable.Header.{decode, make_header, set_ack}
use iroh_ble_transport.Reliable.State.{
  can_send, Channel, FragmentEntry, in_flight_count, in_recv_window, is_buffered, new,
}
use iroh_ble_transport.Reliable.Receive.{
  accept_and_deliver, drain_recv_buf, is_acceptable, reassemble, receive_ack, receive_body,
  receive_data, receive_fragment, take_fragment,
}
use iroh_ble_transport.Reliable.Send.{
  next_send_action, refill, send_next_fragment, send_pure_ack, fragments, wire_message,
}
use iroh_ble_transport.Reliable.Loop.{ended, loop_round, planned, after_timeout, plan_wait, start}
use iroh_ble_transport.Reliable.Wire.{
  apply_ack, has_data, receive_fragment-pure_ack, receive_fragment-wire_message,
}
use iroh_ble_transport.Reliable.Fragments.{
  deliver, fragments_fit, reassemble_all, reassemble_all-fragments,
}
use iroh_ble_transport.Reliable.Delivery.{Received, accepted, nothing}
use iroh_ble_transport.Reliable.Arrival.{Arrived, receive_data-Received}
use iroh_ble_transport.Reliable.Stream.{Arrival, IsTimely, arrive, arrive_all, arrive_all_in_order}
use iroh_ble_transport.Reliable.Transfer.{
  Carries, all_fragments, arrive_all-all_fragments, deliver_all,
}
use iroh_ble_transport.Reliable.Window.{Call, SendWindow, perform_all, perform_all-SendWindow}
use iroh_ble_transport.Reliable.Liveness.{
  IsPaced, RoundOk, after_timeout-IsPaced, loop_round-RoundOk,
}
use iroh_ble_transport.L2cap.{out_of_fuel, recv_task, send_task}
use iroh_ble_transport.L2cap.Framing.{received_of, recv_task-ends, recv_task-send_task}

-- A datagram of one fragment for each number.
abbrev one_byte : ℕ → FragmentEntry
one_byte i = record { payload = i ∷ []; first = true; last = true }

one_byte_full : (i : ℕ) → has_data (one_byte i) ≡ true
one_byte_full i = refl

-- The second message overtakes the first, which comes twice.
abbrev overtaken : List Arrival
overtaken =
    record { now = 1; index = 1; ack = none }
    ∷ record { now = 2; index = 0; ack = none }
    ∷ record { now = 3; index = 0; ack = some 3 }
    ∷ record { now = 4; index = 2; ack = none }
    ∷ []

overtaken-IsTimely : IsTimely one_byte overtaken (0, new 0 100)
unfolding arrive new receive_fragment wire_message make_header receive_body decode receive_data
    set_ack receive_ack is_acceptable in_recv_window is_buffered drain_recv_buf accept_and_deliver
    take_fragment in_flight_count reassemble
overtaken-IsTimely = (
  (omega arith, omega arith, omega arith),
  (
    (omega arith, omega arith, omega arith),
    ((omega arith, omega arith, omega arith), ((omega arith, omega arith, omega arith), tt)),
  ),
)

-- Three datagrams are handed over, in order.
overtaken_run :
    (arrive_all one_byte overtaken (0, new 0 100)).1.reassembly.delivered
    ≡ (0 ∷ []) ∷ (1 ∷ []) ∷ (2 ∷ []) ∷ []
unfolding arrive_all arrive new receive_fragment wire_message make_header receive_body decode
    receive_data set_ack receive_ack is_acceptable in_recv_window is_buffered drain_recv_buf
    accept_and_deliver take_fragment in_flight_count reassemble
overtaken_run = refl

abbrev three_sent : List (List ℕ)
three_sent = (0 ∷ []) ∷ (1 ∷ []) ∷ (2 ∷ []) ∷ []

three_sent-Carries : Carries one_byte 0 (all_fragments 100 three_sent)
unfolding all_fragments
three_sent-Carries = (refl, (refl, (refl, tt)))

overtaken_count :
    (arrive_all one_byte overtaken (0, new 0 100)).0 ≡ length (all_fragments 100 three_sent)
unfolding arrive_all arrive new receive_fragment wire_message make_header receive_body decode
    receive_data set_ack receive_ack is_acceptable in_recv_window is_buffered drain_recv_buf
    accept_and_deliver take_fragment in_flight_count reassemble all_fragments
overtaken_count = refl

arrive_all-all_fragments_example :
    (arrive_all one_byte overtaken (0, new 0 100)).1.reassembly
    ≡ record { bytes = []; overflow = false; delivered = deliver_all three_sent [] }
arrive_all-all_fragments_example =
    arrive_all-all_fragments one_byte one_byte_full 100 three_sent overtaken 0 (omega arith)
      three_sent-Carries overtaken-IsTimely overtaken_count

arrive_all_in_order_example :
    let (n, c) = arrive_all one_byte overtaken (0, new 0 100) in
    (c.reassembly ≡ accepted one_byte n) × (c.recv_next ≡ n % 16)
arrive_all_in_order_example =
    arrive_all_in_order one_byte one_byte_full overtaken 0 100 overtaken-IsTimely

abbrev fresh : Channel
fresh = new 0 100

fresh-Received : Received one_byte 0 fresh
unfolding new accepted
fresh-Received = record { next = refl; taken = refl; held = tt }

receive_data-Received_example :
    Arrived one_byte 0 2 fresh (receive_data 5 (2 % 16) (one_byte 2) fresh)
receive_data-Received_example =
    receive_data-Received one_byte 5 0 2 fresh (omega arith) (omega arith) fresh-Received

abbrev calls : List Call
calls =
    Call.enqueue (1 ∷ 2 ∷ 3 ∷ [])
    ∷ Call.act 10
    ∷ Call.wait_at 10 start
    ∷ Call.receive 20 (wire_message (some 0) 0 (one_byte 0))
    ∷ Call.act 50
    ∷ []

perform_all-SendWindow_example : SendWindow (perform_all calls (new 0 100))
perform_all-SendWindow_example = perform_all-SendWindow calls 0 100

reassemble_all-fragments_example :
    reassemble_all (fragments 5 (1 ∷ 2 ∷ 3 ∷ 4 ∷ [])) nothing
    ≡ record { bytes = []; overflow = false; delivered = deliver (1 ∷ 2 ∷ 3 ∷ 4 ∷ []) [] }
reassemble_all-fragments_example =
    reassemble_all-fragments 5 (1 ∷ 2 ∷ 3 ∷ 4 ∷ []) nothing (omega arith)

fragments_fit_example :
    All
      (λ (f : FragmentEntry). length (wire_message (some 3) 7 f) ≤ 5)
      (fragments 5 (1 ∷ 2 ∷ 3 ∷ 4 ∷ []))
fragments_fit_example = fragments_fit 5 7 (some 3) (1 ∷ 2 ∷ 3 ∷ 4 ∷ []) (omega arith)

receive_fragment-wire_message_example :
    receive_fragment 1 (wire_message (some 3) 2 (one_byte 2)) fresh
    ≡ receive_data 1 2 (one_byte 2) (apply_ack 1 (some 3) fresh)
receive_fragment-wire_message_example =
    receive_fragment-wire_message 1 2 (some 3) (one_byte 2) fresh (omega arith) (omega arith) refl

receive_fragment-pure_ack_example :
    receive_fragment 1 (set_ack (0 ∷ 0 ∷ []) 9) fresh ≡ receive_ack 1 9 fresh
receive_fragment-pure_ack_example = receive_fragment-pure_ack 1 9 fresh (omega arith)

-- One fragment is in flight, and nothing has moved since 0.
abbrev waiting : Channel
waiting = record fresh { in_flight = record { seq = 0; wire_msg = 17 ∷ 0 ∷ 9 ∷ 0 ∷ [] } ∷ [] }

-- Another task takes a datagram for sending between the two looks of the round.
abbrev queued : Channel → Channel
queued c = record c { send_queue = (5 ∷ []) ∷ [] }

loop_round-RoundOk_example :
    RoundOk 7000 waiting
      (queued (next_send_action 6990 waiting).1)
      (loop_round 6990 7000 queued waiting start)
loop_round-RoundOk_example = loop_round-RoundOk 6990 7000 queued waiting start

waiting_gives_up : (loop_round 6990 7000 queued waiting start).0 ≡ ended
unfolding loop_round next_send_action refill can_send in_flight_count send_next_fragment
    send_pure_ack planned plan_wait new
waiting_gives_up = refl

after_timeout-IsPaced_example : IsPaced (after_timeout 400 300 waiting start).2
unfolding start
after_timeout-IsPaced_example =
    after_timeout-IsPaced 400 300 waiting start (omega arith, omega arith)

resolve_chunk_size_bounds_example :
    (size : ℕ) × (resolve_chunk_size (λ t. 23) 0 ≡ some size) × (21 ≤ size) × (size ≤ 509)
resolve_chunk_size_bounds_example = resolve_chunk_size_bounds (λ t. 23) 0

-- The size is negotiated at 100 ms.
abbrev late_mtu : ℕ → ℕ
late_mtu t = if leb 100 t then 247 else 23

resolve_chunk_size_first_example :
    resolve_chunk_size late_mtu 0 ≡ some (min (late_mtu (0 + 50 * 2) - 3) 509)
resolve_chunk_size_first_example =
    resolve_chunk_size_first late_mtu 0 2 (omega arith) (λ j h. ground arith) (omega arith)

resolve_chunk_size_fallback_example : resolve_chunk_size (λ t. 20) 0 ≡ some 509
resolve_chunk_size_fallback_example = resolve_chunk_size_fallback (λ t. 20) 0 (λ j h. omega arith)

recv_task-send_task_example :
    recv_task (send_task ((1 ∷ 2 ∷ []) ∷ [] ∷ (3 ∷ []) ∷ []))
    ≡ received_of ((1 ∷ 2 ∷ []) ∷ [] ∷ (3 ∷ []) ∷ [])
recv_task-send_task_example =
    recv_task-send_task ((1 ∷ 2 ∷ []) ∷ [] ∷ (3 ∷ []) ∷ [])
      (omega arith, (omega arith, (omega arith, tt)))

-- The second frame is cut off.
recv_task-ends_example : (recv_task (1 ∷ 0 ∷ 9 ∷ 2 ∷ 0 ∷ 9 ∷ [])).ending ≢ out_of_fuel
recv_task-ends_example = recv_task-ends (1 ∷ 0 ∷ 9 ∷ 2 ∷ 0 ∷ 9 ∷ [])
