-- ===== src/Routing/Kept.antt =====
-- The agreement of the reservations and their index, and the number of tombstones, along every history
-- of the table.
use iroh_ble_transport.Prelude.{
  List, Option-cases, [], arith, find_key, get, inl, inr, length, refl, subst, sym, ℕ, ◌+◌, ◌-◌,
  ◌<◌, ◌==◌, ◌^◌, ◌∷◌, ◌≡◌, ◌≤◌,
}
use iroh_ble_transport.Peer.{DeviceId, EndpointId, KeyPrefix, prefix_from_endpoint}
use iroh_ble_transport.Routing.Table.{Routing, StableConnId, new}
use iroh_ble_transport.Routing.History.{Op, perform_op, run_ops}
use iroh_ble_transport.Routing.Promises.{NoWrap, ReservationsOk, new-ReservationsOk}
use iroh_ble_transport.Routing.Tombstones.{TombstonesOk, TombstonesOk-prune, TombstonesOk-remove}
use iroh_ble_transport.Routing.Ledger.{Ledger, ledger, note_scan_hint-ledger, promote-ledger}
use iroh_ble_transport.Routing.Table
use iroh_ble_transport.Routing.Reservations
use iroh_ble_transport.Routing.Bookkeeping.{
  LedgerOk, register_pipe-LedgerOk, reserve_outbound-LedgerOk,
  consume_reservation_for_prefix-LedgerOk, consume_reservation_for_device-LedgerOk,
  evict_pipe-LedgerOk, note_tombstoned_transmit-LedgerOk, evict_routable-ledger,
  evict_routable_if_pipe-ledger, evict_pipe_state-ledger, register_pending-ledger,
}

reserve_outbound-next_id :
    (now : ℕ) (e : EndpointId) (r : Routing)
    → (Reservations.reserve_outbound now e r).0.next_id ≤ r.next_id + 1
unfolding Reservations.reserve_outbound Table.next_stable_id Table.prune_pipe_tombstones
reserve_outbound-next_id now e r =
    elim (Option-cases (get (prefix_from_endpoint e) r.reservations)) [
      | inr (x, g) ↦ rw (g, Reservations.reserve_outbound) (omega arith)
      | inl g ↦ rw (g, Reservations.reserve_outbound) (omega arith)
    ]

consume_reservation_for_prefix-next_id :
    (p : KeyPrefix) (r : Routing)
    → (Reservations.consume_reservation_for_prefix p r).0.next_id ≡ r.next_id
unfolding Reservations.consume_reservation_for_prefix
consume_reservation_for_prefix-next_id p r = elim (Option-cases (get p r.reservations)) [
  | inl g ↦ rw (g, Reservations.consume_reservation_for_prefix) refl
  | inr (x, g) ↦ rw (g, Reservations.consume_reservation_for_prefix) refl
]

consume_reservation_for_device-next_id :
    (d : DeviceId) (r : Routing)
    → (Reservations.consume_reservation_for_device d r).0.next_id ≡ r.next_id
unfolding Reservations.consume_reservation_for_device
consume_reservation_for_device-next_id d r =
    elim (Option-cases (find_key (λ x. x == d) r.scan_hint)) [
      | inl g ↦ rw (g, Reservations.consume_reservation_for_device) refl
      | inr (p, g) ↦
          rw (g, Reservations.consume_reservation_for_device)
            (consume_reservation_for_prefix-next_id p r)
    ]

-- One method mints one id at most.
abbrev pub After : ℕ → Ledger → Type 0
After n l = LedgerOk l × (l.minted ≤ n + 1)

pub perform_op-LedgerOk :
    (o : Op) (r : Routing)
    → NoWrap r
    → LedgerOk (ledger r)
    → After r.next_id (ledger (perform_op o r))
unfolding perform_op
perform_op-LedgerOk (Op.register_pipe now d dir) r small h =
    (register_pipe-LedgerOk now d dir r small h, omega arith)
perform_op-LedgerOk (Op.evict_pipe now id) r small h =
    let (kept, same) = evict_pipe-LedgerOk now id r h in (kept, omega (arith, same))
perform_op-LedgerOk (Op.register_pipe_with_id now id d dir) r small h =
    let pruned = TombstonesOk-prune now r.pipe_tombstones h.1 in
    (
      (h.0, TombstonesOk-remove id (Table.prune_tombstones now r.pipe_tombstones) pruned),
      omega arith,
    )
perform_op-LedgerOk (Op.note_tombstoned_transmit now id) r small h =
    let (kept, same) = note_tombstoned_transmit-LedgerOk now id r h in (kept, omega (arith, same))
perform_op-LedgerOk (Op.register_endpoint_waker e w) r small h = (h, omega arith)
perform_op-LedgerOk (Op.note_scan_hint p d) r small h =
    subst (After r.next_id) (sym (note_scan_hint-ledger p d r)) (h, omega arith)
perform_op-LedgerOk (Op.forget_scan_hint p) r small h = (h, omega arith)
perform_op-LedgerOk (Op.register_pending now id target) r small h =
    subst (After r.next_id) (sym (register_pending-ledger now id target r)) (h, omega arith)
perform_op-LedgerOk (Op.evict_pending id) r small h = (h, omega arith)
perform_op-LedgerOk (Op.insert_routable now e id dialer) r small h = (h, omega arith)
perform_op-LedgerOk (Op.evict_routable e) r small h =
    subst (After r.next_id) (sym (evict_routable-ledger e r)) (h, omega arith)
perform_op-LedgerOk (Op.evict_routable_if_pipe e id) r small h =
    subst (After r.next_id) (sym (evict_routable_if_pipe-ledger e id r)) (h, omega arith)
perform_op-LedgerOk (Op.evict_pipe_state id) r small h =
    subst (After r.next_id) (sym (evict_pipe_state-ledger id r)) (h, omega arith)
perform_op-LedgerOk (Op.reserve_outbound now e) r small h =
    (reserve_outbound-LedgerOk now e r small h, reserve_outbound-next_id now e r)
perform_op-LedgerOk (Op.consume_for_prefix p) r small h = (
  consume_reservation_for_prefix-LedgerOk p r h,
  omega (arith, consume_reservation_for_prefix-next_id p r),
)
perform_op-LedgerOk (Op.consume_for_endpoint e) r small h =
    let p = prefix_from_endpoint e in
    (
      consume_reservation_for_prefix-LedgerOk p r h,
      omega (arith, consume_reservation_for_prefix-next_id p r),
    )
perform_op-LedgerOk (Op.consume_for_device d) r small h = (
  consume_reservation_for_device-LedgerOk d r h,
  omega (arith, consume_reservation_for_device-next_id d r),
)
perform_op-LedgerOk (Op.promote now id self remote) r small h =
    subst (After r.next_id) (sym (promote-ledger now id self remote r)) (h, omega arith)

run_ops-LedgerOk :
    (os : List Op) (r : Routing)
    → r.next_id + length os < 2 ^ 64
    → LedgerOk (ledger r)
    → LedgerOk (ledger (run_ops os r))
unfolding run_ops
run_ops-LedgerOk [] r small h = h
run_ops-LedgerOk (o ∷ os) r small h =
    let (kept, grows) = perform_op-LedgerOk o r (omega (arith, small)) h in
    run_ops-LedgerOk os (perform_op o r) (omega (arith, small, grows)) kept

new-LedgerOk : LedgerOk (ledger new)
unfolding new
new-LedgerOk = (new-ReservationsOk, (tt, omega arith))

-- After any number of calls below 2^64 - 1 from the empty table, the reservations and the index of
-- their ids agree: each is under its endpoint's prefix and its id leads back to it, and each id of
-- the index is the one that its prefix was promised.
pub run_ops-ReservationsOk :
    (os : List Op) → length os < 2 ^ 64 - 1 → ReservationsOk (run_ops os new)
unfolding new
run_ops-ReservationsOk os small = (run_ops-LedgerOk os new (omega (arith, small)) new-LedgerOk).0

-- After any number of calls below 2^64 - 1 from the empty table, no two tombstones are under one id
-- and there are 129 of them at most, one more than the limit of a prune.
pub run_ops-TombstonesOk :
    (os : List Op) → length os < 2 ^ 64 - 1 → TombstonesOk (run_ops os new).pipe_tombstones
unfolding new
run_ops-TombstonesOk os small = (run_ops-LedgerOk os new (omega (arith, small)) new-LedgerOk).1
