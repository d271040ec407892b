-- ===== src/Registry/Sweeps.antt =====
-- The loops of registry.rs over the whole map, and lifecycle identities.
use iroh_ble_transport.Prelude.{
  retain, retain-AllPairs, AllPairs, Bool, Map, [], arith, if_both, inl, inr, ℕ, ◌<◌, ◌∙◌, ◌∷◌, ◌≢◌,
  ◌≤◌,
}
use iroh_ble_transport.Peer.{PeerEntry}
use iroh_ble_transport.Registry.Step.{Step}
use iroh_ble_transport.Registry.State.{sweep}
use iroh_ble_transport.Registry.Contract.{Keeps}
use iroh_ble_transport.Registry.Identity.{
  Distinct, EntryOk, IdsOk, Unlike, Unlike-fresh, entries_mono,
}

module _ (f : ℕ → PeerEntry → Step) (keeps : (n : ℕ) (e : PeerEntry) → Keeps n e (f n e)) where
  pub sweep_grows : (n : ℕ) (m : Map PeerEntry) → n ≤ (sweep f n m).next
  unfolding sweep
  sweep_grows n [] = omega arith
  sweep_grows n ((d, e) ∷ m) = omega (arith, (keeps n e).grows, sweep_grows (f n e).next m)

  -- An identity below the supply that no entry has is in no entry afterwards.
  pub Unlike-sweep :
      (i n : ℕ) (m : Map PeerEntry) → i < n → Unlike i m → Unlike i (sweep f n m).peers
  unfolding sweep
  Unlike-sweep i n [] h u = tt
  Unlike-sweep i n ((d, e) ∷ m) h u =
      let k = keeps n e in
      (omega (arith, k.identity, u.0), Unlike-sweep i (f n e).next m (omega (arith, k.grows)) u.1)

  sweep_entries :
      (n : ℕ) (m : Map PeerEntry)
      → AllPairs (EntryOk n) m
      → AllPairs (EntryOk (sweep f n m).next) (sweep f n m).peers
  unfolding sweep
  sweep_entries n [] a = tt
  sweep_entries n ((d, e) ∷ m) a =
      let k = keeps n e in
      let later = sweep_grows (f n e).next m in
      (
        (
          omega (arith, k.identity, k.grows, a.0.0),
          k.generation a.0.1,
          k.attempts a.0.2,
          k.device ∙ a.0.3,
        ),
        sweep_entries (f n e).next m (entries_mono n (f n e).next m k.grows a.1),
      )

  sweep-Distinct :
      (n : ℕ) (m : Map PeerEntry)
      → AllPairs (EntryOk n) m
      → Distinct m
      → Distinct (sweep f n m).peers
  unfolding sweep
  sweep-Distinct n [] a u = tt
  sweep-Distinct n ((d, e) ∷ m) a u =
      let k = keeps n e in
      (
        Unlike-sweep (f n e).entry.lifecycle_id (f n e).next m
            (omega (arith, k.identity, k.grows, a.0.0))
            (elim k.identity [ inl p ↦ rw p u.0 | inr p ↦ Unlike-fresh n _ m p.0 a.1 ]),
        sweep-Distinct (f n e).next m (entries_mono n (f n e).next m k.grows a.1) u.1,
      )

  pub sweep-IdsOk :
      (n : ℕ) (m : Map PeerEntry) → IdsOk n m → IdsOk (sweep f n m).next (sweep f n m).peers
  sweep-IdsOk n m v = (sweep_entries n m v.0, sweep-Distinct n m v.0 v.1)

pub retain-Distinct :
    (p : PeerEntry → Bool) (m : Map PeerEntry) → Distinct m → Distinct (retain p m)
unfolding retain
retain-Distinct p [] u = tt
retain-Distinct p ((d, e) ∷ m) u =
    if_both Distinct (p e)
      (retain-AllPairs (λ d' e'. e'.lifecycle_id ≢ e.lifecycle_id) p m u.0, retain-Distinct p m u.1)
      (retain-Distinct p m u.1)
