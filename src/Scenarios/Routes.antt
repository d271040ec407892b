-- ===== src/Scenarios/Routes.antt =====
-- The routing table, the connections and the front end at concrete inputs.
use iroh_ble_transport.Prelude.{
  List, [], arith, find_key, find_value, get, inl, inr, insert, none, refl, remove, retain, some, ℕ,
  ◌++◌, ◌↔◌, ◌∷◌, ◌≡◌,
}
use iroh_ble_transport.Peer.{DeviceId, central, prefix_from_endpoint, send_datagram}
use iroh_ble_transport.Routing.Address.{CustomAddrs, token_custom_addr}
use iroh_ble_transport.Routing.Table.{
  Direction, Pipe, Routing, StableConnId, high, low, new, next_stable_id, prune_pipe_tombstones,
  prune_tombstones,
}
use iroh_ble_transport.Routing.Hints.{wake_endpoint_waiters}
use iroh_ble_transport.Routing.Pools.{pending_pipe_for, routable_pipe_for}
use iroh_ble_transport.Routing.Reservations.{Target, reservation_target}
use iroh_ble_transport.Routing.Promotion.{accepted, compute, contenders}
use iroh_ble_transport.Routing.History.{Op, run_ops}
use iroh_ble_transport.Routing.Promoted.{promote_each}
use iroh_ble_transport.Routing.Convergence.{Joins, Link, ends_agree}
use iroh_ble_transport.Routing.Promises.{ReservationsOk}
use iroh_ble_transport.Routing.Kept.{run_ops-ReservationsOk, run_ops-TombstonesOk}
use iroh_ble_transport.Routing.Refinement.{
  Demand, Holds, book, consume, granted, mint, reservation_target_iff, reserve, serve_all,
  serve_all-refines, serve_all_book, taken,
}
use iroh_ble_transport.Routing.Tombstones.{TombstonesOk}
use iroh_ble_transport.Conns.Handle.{another, custom}
use iroh_ble_transport.Conns.Index.{Conns, ble_evicted, ble_pipe_closed, close_pipe, insert_conn}
use iroh_ble_transport.Conns.Race.{arrive, insert_conn-after-close_pipe, leave, visits}
use iroh_ble_transport.Conns.Reached.{Told, close_pipe-insert_conn}
use iroh_ble_transport.Driver.Pipes.{execute_start_data_pipe}
use iroh_ble_transport.Front.Resolver.{poll_next}
use iroh_ble_transport.Front.Sender.{Transmit, accepted, full, poll_send}
use iroh_ble_transport.Front.Hook.{after_handshake, let_in, token_of}
use iroh_ble_transport.Front.Verdict.{Settled, after_handshake-Settled}
use iroh_ble_transport.Front.Address.{address_survives_dial}

-- An address is the number of a transport and some bytes.
plain_addrs : CustomAddrs
plain_addrs = record {
  CustomAddr = ℕ × List ℕ;
  from_parts = λ i bs. (i, bs);
  transport_id = λ (a : ℕ × List ℕ). a.0;
  bytes = λ (a : ℕ × List ℕ). a.1;
  transport_id-from_parts = λ i bs. refl;
  bytes-from_parts = λ i bs. refl;
}

-- Seven ids have been minted, and the scan has seen the prefix of endpoint 5 on device 9.
abbrev scanned : Routing
scanned = record {
  next_id = 7;
  pipes = [];
  pipe_tombstones = [];
  scan_hint = (0, 9) ∷ [];
  pending = [];
  routable = [];
  reservations = [];
  reserved_stable_ids = [];
  endpoint_wakers = [];
}

address_survives_dial_example :
    let addr = token_custom_addr plain_addrs 8 in
    let polled = poll_next 1 21 5 none scanned in
    let opened = execute_start_data_pipe 3 9 central (some 5) polled.routing in
    let transmit : Transmit = record { contents = 1 ∷ 2 ∷ []; waker = 22 } in
    (polled.item ≡ some 8)
    × ((poll_send plain_addrs 2 (λ d. 4) (accepted, full) addr transmit 0 polled.routing).command
        ≡ some (send_datagram 9 (some 5) 4 (1 ∷ 2 ∷ []) 22))
    × (opened.stable_id ≡ 8)
    × ((poll_send plain_addrs 4 (λ d. 4) (accepted, full) addr transmit 0 opened.routing).command
        ≡ some (send_datagram 9 none 4 (1 ∷ 2 ∷ []) 22))
    × ((poll_next 5 23 5 polled.last_emitted opened.routing).item ≡ none)
unfolding get pending_pipe_for find_value prefix_from_endpoint
address_survives_dial_example =
    address_survives_dial plain_addrs 5 9 1 2 3 4 5 21 23 0 (λ d. 4) full
      (record { contents = 1 ∷ 2 ∷ []; waker = 22 }) central scanned (omega arith)
      (refl, refl, refl) refl refl

abbrev pipe_of : StableConnId → DeviceId → Direction → Pipe
pipe_of i d dir = record { id = i; device_id = d; direction = dir; created_at = 0 }

-- Endpoints 3 and 9 have dialled each other at once: pipes 1 and 2 at the one end are 11 and 12 at
-- the other.
abbrev at_low : Routing
at_low = record scanned {
  pipes = (1, pipe_of 1 9 Direction.outbound) ∷ (2, pipe_of 2 9 Direction.inbound) ∷ [];
}

abbrev at_high : Routing
at_high = record scanned {
  pipes = (11, pipe_of 11 3 Direction.inbound) ∷ (12, pipe_of 12 3 Direction.outbound) ∷ [];
}

abbrev low_link : Link
low_link = record { here = 1; there = 11 }

abbrev high_link : Link
high_link = record { here = 2; there = 12 }

high_link-Joins : Joins 3 9 high at_low.pipes at_high.pipes high_link
unfolding get compute
high_link-Joins =
    (pipe_of 2 9 Direction.inbound, pipe_of 12 3 Direction.outbound, refl, refl, refl, refl)

low_link-Joins : Joins 3 9 low at_low.pipes at_high.pipes low_link
unfolding get compute
low_link-Joins =
    (pipe_of 1 9 Direction.outbound, pipe_of 11 3 Direction.inbound, refl, refl, refl, refl)

ends_agree_example :
    (routable_pipe_for 9 (promote_each 50 3 9 (1 ∷ 2 ∷ []) at_low) ≡ some 2)
    × (routable_pipe_for 3 (promote_each 60 9 3 (12 ∷ 11 ∷ []) at_high) ≡ some 12)
ends_agree_example =
    ends_agree 3 9 (ground arith) at_low at_high high_link 50 60 (low_link ∷ high_link ∷ [])
      (high_link ∷ low_link ∷ []) high_link-Joins (inr low_link-Joins, (inl refl, tt))
      (inl refl, (inr low_link-Joins, tt)) refl refl

-- A history that mints, promises, opens, closes and transmits.
abbrev table_history : List Op
table_history =
    Op.reserve_outbound 1 5
    ∷ Op.register_pipe 2 9 Direction.inbound
    ∷ Op.consume_for_endpoint 5
    ∷ Op.register_pipe_with_id 3 1 9 Direction.outbound
    ∷ Op.evict_pipe 4 1
    ∷ Op.note_tombstoned_transmit 5 1
    ∷ Op.reserve_outbound 6 5
    ∷ []

run_ops-ReservationsOk_example : ReservationsOk (run_ops table_history new)
run_ops-ReservationsOk_example = run_ops-ReservationsOk table_history (omega arith)

run_ops-TombstonesOk_example : TombstonesOk (run_ops table_history new).pipe_tombstones
run_ops-TombstonesOk_example = run_ops-TombstonesOk table_history (omega arith)

abbrev demands : List Demand
demands = reserve 1 5 ∷ mint 2 9 Direction.inbound ∷ reserve 3 6 ∷ consume 0 ∷ consume 0 ∷ []

-- Endpoints 5 and 6 have one prefix, and are promised one id.
serve_all-refines_example : serve_all demands scanned ≡ serve_all_book demands (book scanned)
serve_all-refines_example = serve_all-refines demands scanned (omega arith)

demands_granted :
    serve_all demands scanned
    ≡ granted 8
      ∷ granted 9
      ∷ granted 8
      ∷ taken (some (record { stable_id = 8; endpoint_id = 5; reserved_at = 1 }))
      ∷ taken none
      ∷ []
unfolding serve_all next_stable_id prune_pipe_tombstones prune_tombstones get insert remove retain
    prefix_from_endpoint
demands_granted = refl

abbrev promised_five : Target
promised_five = record { endpoint_id = 5; prefix = 0 }

reservation_target_iff_example :
    (reservation_target 1 (run_ops table_history new) ≡ some promised_five)
    ↔ Holds 1 promised_five (book (run_ops table_history new))
reservation_target_iff_example = reservation_target_iff 1 promised_five table_history (omega arith)

-- A table with two connections on pipe 4.
abbrev two_riding : Conns
two_riding = record {
  next_id = 2;
  buckets = record { endpoint_id = 5; stable_id = 4; watches = (1, 41) ∷ (2, 42) ∷ [] } ∷ [];
  closed = (3, record { code = 1; reason = ble_evicted; closed_at = 0; seq = 0 }) ∷ [];
  next_close_seq = 1;
}

insert_conn-after-close_pipe_example :
    let before =
      visits
        (arrive 150 6 8 44 ∷ leave 5 4 1 ∷ [])
        (close_pipe 100 4 1 ble_pipe_closed two_riding).0 in
    let done = insert_conn 200 5 4 43 before in
    (done.conns.buckets ≡ before.buckets)
    × (done.attempts ≡ record { conn = 43; pipe = 4; code = 1; reason = ble_pipe_closed } ∷ [])
insert_conn-after-close_pipe_example =
    insert_conn-after-close_pipe 100 200 5 4 43 1 ble_pipe_closed
      (arrive 150 6 8 44 ∷ leave 5 4 1 ∷ []) two_riding
      (((tt, tt), ((omega arith), tt), omega arith)) (omega arith, (tt, tt)) (omega arith)

-- In between another connection comes to the pipe, and an older one's watcher reports.
close_pipe-insert_conn_example :
    let done = insert_conn 100 5 4 43 two_riding in
    let before = visits (arrive 150 5 4 44 ∷ leave 5 4 1 ∷ []) done.conns in
    Told 43 4 (done.attempts ++ (close_pipe 200 4 1 ble_pipe_closed before).1)
close_pipe-insert_conn_example =
    close_pipe-insert_conn 100 200 5 4 43 1 ble_pipe_closed (arrive 150 5 4 44 ∷ leave 5 4 1 ∷ [])
      two_riding (omega arith) (tt, ((λ same_e same_p. omega arith), tt))

-- The high side's pipe replaces the one of the low side that was the route.
abbrev low_routed : Routing
low_routed = record at_low {
  routable = (9, record { pipe = 1; endpoint_id = 9; dialer = low; verified_at = 30 }) ∷ [];
}

after_handshake-Settled_example : Settled 2 9 low_routed two_riding (
    after_handshake plain_addrs 70 3 9 45
      (another ∷ custom (token_custom_addr plain_addrs 2) ∷ [])
      low_routed
      two_riding)
unfolding token_of token_custom_addr plain_addrs
after_handshake-Settled_example =
    after_handshake-Settled plain_addrs 70 3 9 45 2
      (another ∷ custom (token_custom_addr plain_addrs 2) ∷ []) low_routed two_riding refl

handshake_outcomes :
    (after_handshake plain_addrs 70 3 9 45
      (custom (token_custom_addr plain_addrs 2) ∷ [])
      low_routed
      two_riding).outcome
    ≡ let_in
unfolding after_handshake token_custom_addr plain_addrs get compute contenders insert remove
    find_key wake_endpoint_waiters
handshake_outcomes = refl
