-- ===== src/Routing/Ledger.antt =====
-- The part of the table that the reservations and the tombstones are about, and what each method leaves of it.
use iroh_ble_transport.Prelude.{
  Bool-cases, List, Map, Option-cases, [], find_key, get, inl, inr, insert, refl, remove, ℕ, ◌==◌,
  ◌∷◌, ◌≡◌,
}
use iroh_ble_transport.Peer.{DeviceId, EndpointId, KeyPrefix}
use iroh_ble_transport.Routing.Table.{PipeTombstone, Reservation, Routing, StableConnId}
use iroh_ble_transport.Routing.Hints.{
  bound_device, note_scan_hint, waited_for, wake_all, wake_endpoint_waiters,
  wake_endpoint_waiters_for_prefix, write_hint,
}
use iroh_ble_transport.Routing.Pools.{remove_opt, rides}
use iroh_ble_transport.Routing.Promotion.{
  Contender, compute, contenders, decide, evict_contenders, install, promote, promote_over,
  promote_pipe,
}
use iroh_ble_transport.Routing.Promoted.{Decision-cases}

pub record Ledger : Type 0 where
  pub minted : ℕ
  pub reservations : Map Reservation
  pub index : Map KeyPrefix
  pub tombstones : Map PipeTombstone

abbrev pub ledger : Routing → Ledger
ledger r = record {
  minted = r.next_id;
  reservations = r.reservations;
  index = r.reserved_stable_ids;
  tombstones = r.pipe_tombstones;
}

wake_all-ledger : (es : List EndpointId) (r : Routing) → ledger (wake_all es r).0 ≡ ledger r
unfolding wake_all wake_endpoint_waiters
wake_all-ledger [] r = refl
wake_all-ledger (e ∷ es) r = wake_all-ledger es (wake_endpoint_waiters e r).0

pub write_hint-ledger :
    (p : KeyPrefix) (d : DeviceId) (r : Routing) → ledger (write_hint p d r).routing ≡ ledger r
unfolding write_hint wake_endpoint_waiters_for_prefix
write_hint-ledger p d r =
    let r' = record r { scan_hint = insert p d r.scan_hint } in
    let woken = wake_all-ledger (waited_for p r'.endpoint_wakers) r' in
    elim (Option-cases (get p r.scan_hint)) [
      | inl e ↦ rw (e, write_hint) woken
      | inr (prev, e) ↦ elim (Bool-cases (prev == d)) [
        | inl t ↦ rw (e, write_hint, t) refl
        | inr f ↦ rw (e, write_hint, f) woken
      ]
    ]

pub note_scan_hint-ledger :
    (p : KeyPrefix) (d : DeviceId) (r : Routing) → ledger (note_scan_hint p d r).routing ≡ ledger r
unfolding note_scan_hint
note_scan_hint-ledger p d r = elim (Option-cases (bound_device p r)) [
  | inl e ↦ rw (e, note_scan_hint) (write_hint-ledger p d r)
  | inr (bound, e) ↦ elim (Bool-cases (bound == d)) [
    | inl t ↦ rw (e, note_scan_hint, t) (write_hint-ledger p d r)
    | inr f ↦ rw (e, note_scan_hint, f) refl
  ]
]

evict_contenders-ledger :
    (cs : List Contender) (r : Routing) → ledger (evict_contenders cs r) ≡ ledger r
unfolding evict_contenders
evict_contenders-ledger [] r = refl
evict_contenders-ledger (c ∷ cs) r = evict_contenders-ledger cs (record r {
  pending = remove c.pipe r.pending;
  routable = remove_opt (find_key (rides c.pipe) r.routable) r.routable;
})

pub promote-ledger :
    (now : ℕ) (p : StableConnId) (self remote : EndpointId) (r : Routing)
    → ledger (promote now p self remote r).routing ≡ ledger r
unfolding promote promote_pipe promote_over install wake_endpoint_waiters
promote-ledger now p self remote r = elim (Option-cases (get p r.pipes)) [
  | inl e ↦ rw (e, promote) refl
  | inr (pipe, e) ↦
      let d = compute self remote pipe.direction in
      let cs = contenders p self remote r in
      let over = evict_contenders-ledger cs r in
      elim (Decision-cases (decide d cs)) [
        | inl a ↦ rw (e, promote, promote_pipe, a) over
        | inr (inl a) ↦ rw (e, promote, promote_pipe, a) over
        | inr (inr a) ↦ rw (e, promote, promote_pipe, a) refl
      ]
]
