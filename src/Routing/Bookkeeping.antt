-- ===== src/Routing/Bookkeeping.antt =====
-- The methods of routing.rs, and the ledger of reservations and tombstones.
use iroh_ble_transport.Prelude.{
  Bool-cases, Option, Option-cases, arith, find_key, get, inl, inr, none, refl, remove, some, ℕ,
  ◌%◌, ◌+◌, ◌==◌, ◌^◌, ◌∙◌, ◌≡◌,
}
use iroh_ble_transport.Peer.{DeviceId, EndpointId, KeyPrefix, prefix_from_endpoint}
use iroh_ble_transport.Routing.Table.{
  Direction, Routing, StableConnId, evict_pipe, next_stable_id, note_tombstoned_transmit,
  prune_pipe_tombstones, prune_tombstones, register_pipe, tombstone_of,
}
use iroh_ble_transport.Routing.Hints.{wake_endpoint_waiters}
use iroh_ble_transport.Routing.Pools.{
  drop_routable, evict_pipe_state, evict_routable, evict_routable_if_pipe, register_pending,
  remove_opt, rides, target_of, wake_some,
}
use iroh_ble_transport.Routing.Reservations.{
  consume_reservation_for_device, consume_reservation_for_prefix, reserve_outbound,
}
use iroh_ble_transport.Routing.Tombstones.{
  TombstonesOk, TombstonesOk-insert, TombstonesOk-prune, TombstonesOk-remove,
}
use iroh_ble_transport.Routing.Promises.{NoWrap, Paired, Paired-insert, Paired-mono, Paired-remove}
use iroh_ble_transport.Routing.Ledger.{Ledger, ledger}

abbrev pub LedgerOk : Ledger → Type 0
LedgerOk l = Paired l.minted l.reservations l.index × TombstonesOk l.tombstones

pub register_pipe-LedgerOk :
    (now : ℕ) (d : DeviceId) (dir : Direction) (r : Routing)
    → NoWrap r
    → LedgerOk (ledger r)
    → LedgerOk (ledger (register_pipe now d dir r).0)
unfolding register_pipe next_stable_id prune_pipe_tombstones
register_pipe-LedgerOk now d dir r small h = (
  Paired-mono r.next_id r.reservations r.reserved_stable_ids h.0 ((r.next_id + 1) % 2 ^ 64)
      (omega (arith, small)),
  TombstonesOk-prune now r.pipe_tombstones h.1,
)

pub reserve_outbound-LedgerOk :
    (now : ℕ) (e : EndpointId) (r : Routing)
    → NoWrap r
    → LedgerOk (ledger r)
    → LedgerOk (ledger (reserve_outbound now e r).0)
unfolding reserve_outbound next_stable_id prune_pipe_tombstones
reserve_outbound-LedgerOk now e r small h =
    let p = prefix_from_endpoint e in
    let pruned = TombstonesOk-prune now r.pipe_tombstones h.1 in
    let id : (r.next_id + 1) % 2 ^ 64 ≡ r.next_id + 1 = omega (arith, small) in
    elim (Option-cases (get p r.reservations)) [
      | inr (x, g) ↦ rw (g, reserve_outbound) (h.0, pruned)
      | inl g ↦
          rw (g, reserve_outbound, id)
            (
              Paired-insert r.next_id r.reservations r.reserved_stable_ids h.0
                  (record { stable_id = r.next_id + 1; endpoint_id = e; reserved_at = now }) refl g,
              pruned,
            )
    ]

pub consume_reservation_for_prefix-LedgerOk :
    (p : KeyPrefix) (r : Routing)
    → LedgerOk (ledger r)
    → LedgerOk (ledger (consume_reservation_for_prefix p r).0)
unfolding consume_reservation_for_prefix
consume_reservation_for_prefix-LedgerOk p r h = elim (Option-cases (get p r.reservations)) [
  | inl g ↦ rw (g, consume_reservation_for_prefix) h
  | inr (x, g) ↦
      rw (g, consume_reservation_for_prefix)
        (
          Paired-remove r.next_id r.reservations r.reserved_stable_ids h.0 p x g,
          TombstonesOk-remove x.stable_id r.pipe_tombstones h.1,
        )
]

pub consume_reservation_for_device-LedgerOk :
    (d : DeviceId) (r : Routing)
    → LedgerOk (ledger r)
    → LedgerOk (ledger (consume_reservation_for_device d r).0)
unfolding consume_reservation_for_device
consume_reservation_for_device-LedgerOk d r h =
    elim (Option-cases (find_key (λ x. x == d) r.scan_hint)) [
      | inl g ↦ rw (g, consume_reservation_for_device) h
      | inr (p, g) ↦
          rw (g, consume_reservation_for_device) (consume_reservation_for_prefix-LedgerOk p r h)
    ]

pub evict_pipe-LedgerOk :
    (now : ℕ) (id : StableConnId) (r : Routing)
    → LedgerOk (ledger r)
    → LedgerOk (ledger (evict_pipe now id r)) × ((evict_pipe now id r).next_id ≡ r.next_id)
unfolding evict_pipe
evict_pipe-LedgerOk now id r h = elim (Option-cases (get id r.pipes)) [
  | inl g ↦ rw (g, evict_pipe) (h, refl)
  | inr (x, g) ↦
      rw (g, evict_pipe)
        ((h.0, TombstonesOk-insert now id (tombstone_of now x) r.pipe_tombstones h.1), refl)
]

pub note_tombstoned_transmit-LedgerOk :
    (now : ℕ) (id : StableConnId) (r : Routing)
    → LedgerOk (ledger r)
    → LedgerOk (ledger (note_tombstoned_transmit now id r).0)
      × ((note_tombstoned_transmit now id r).0.next_id ≡ r.next_id)
unfolding note_tombstoned_transmit prune_pipe_tombstones
note_tombstoned_transmit-LedgerOk now id r h =
    elim (Option-cases (get id (prune_tombstones now r.pipe_tombstones))) [
      | inl g ↦
          rw (g, note_tombstoned_transmit)
            ((h.0, TombstonesOk-prune now r.pipe_tombstones h.1), refl)
      | inr (x, g) ↦
          let t = record x { dropped_transmits = (x.dropped_transmits + 1) % 2 ^ 64 } in
          rw (g, note_tombstoned_transmit)
            ((h.0, TombstonesOk-insert now id t r.pipe_tombstones h.1), refl)
    ]

pub evict_routable-ledger :
    (e : EndpointId) (r : Routing) → ledger (evict_routable e r).routing ≡ ledger r
unfolding evict_routable drop_routable wake_endpoint_waiters
evict_routable-ledger e r = elim (Option-cases (get e r.routable)) [
  | inl g ↦ rw (g, evict_routable) refl
  | inr (x, g) ↦ rw (g, evict_routable) refl
]

pub evict_routable_if_pipe-ledger :
    (e : EndpointId) (id : StableConnId) (r : Routing)
    → ledger (evict_routable_if_pipe e id r).routing ≡ ledger r
unfolding evict_routable_if_pipe drop_routable wake_endpoint_waiters
evict_routable_if_pipe-ledger e id r = elim (Option-cases (get e r.routable)) [
  | inl g ↦ rw (g, evict_routable_if_pipe) refl
  | inr (x, g) ↦ elim (Bool-cases (x.pipe == id)) [
    | inl t ↦ rw (g, evict_routable_if_pipe, t) refl
    | inr f ↦ rw (g, evict_routable_if_pipe, f) refl
  ]
]

pub wake_some-ledger : (e : Option EndpointId) (r : Routing) → ledger (wake_some e r).0 ≡ ledger r
unfolding wake_some wake_endpoint_waiters
wake_some-ledger none r = refl
wake_some-ledger (some e) r = refl

pub evict_pipe_state-ledger :
    (id : StableConnId) (r : Routing) → ledger (evict_pipe_state id r).routing ≡ ledger r
unfolding evict_pipe_state
evict_pipe_state-ledger id r =
    let endpoint = find_key (rides id) r.routable in
    let target = target_of (get id r.pending) in
    let r' = record r {
      pending = remove id r.pending;
      routable = remove_opt endpoint r.routable;
    } in
    wake_some-ledger endpoint (wake_some target r').0 ∙ wake_some-ledger target r'

pub register_pending-ledger :
    (now : ℕ) (id : StableConnId) (target : Option EndpointId) (r : Routing)
    → ledger (register_pending now id target r).0 ≡ ledger r
unfolding register_pending wake_endpoint_waiters
register_pending-ledger now id none r = refl
register_pending-ledger now id (some e) r = refl
