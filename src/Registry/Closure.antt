-- ===== src/Registry/Closure.antt =====
-- A property of the supply of identities and of the map, and the building blocks of the handlers of
-- registry.rs: the induction over the handlers, done once.
use iroh_ble_transport.Prelude.{
  retain, Bool, List, Map, Option-cases, [], get, if_both, inl, inr, insert, none, some, suc, ℕ,
  ◌∷◌, ◌≡◌,
}
use iroh_ble_transport.Peer.{DeviceId, PeerEntry}
use iroh_ble_transport.Registry.Step.{Step}
use iroh_ble_transport.Registry.Entry.{new_entry}
use iroh_ble_transport.Registry.State.{
  Outcome, Registry, for_each, prune_verified_prefixes, sweep, sweep_all, with_entry,
  with_new_entry,
}
use iroh_ble_transport.Registry.Connecting.{pruned_if}
use iroh_ble_transport.Registry.Contract.{Keeps, Starts, new_entry-Starts}

pub record Closed (P : ℕ → Map PeerEntry → Type 0) : Type 0 where
  -- One entry makes a step.
  pub step :
      (n : ℕ) (m : Map PeerEntry) (d : DeviceId) (e : PeerEntry) (s : Step)
      → get d m ≡ some e
      → Keeps n e s
      → P n m
      → P s.next (insert d s.entry m)
  -- A new entry appears.
  pub start :
      (n : ℕ) (m : Map PeerEntry) (d : DeviceId) (s : Step)
      → get d m ≡ none
      → Starts n d s
      → P n m
      → P s.next (insert d s.entry m)
  -- All entries make a step.
  pub all :
      (f : ℕ → PeerEntry → Step)
      → ((n : ℕ) (e : PeerEntry) → Keeps n e (f n e))
      → (n : ℕ) (m : Map PeerEntry) → P n m
      → P (sweep f n m).next (sweep f n m).peers
  -- Entries are dropped.
  pub drop : (p : PeerEntry → Bool) (n : ℕ) (m : Map PeerEntry) → P n m → P n (retain p m)

abbrev pub Holds : (ℕ → Map PeerEntry → Type 0) → Registry → Type 0
Holds P r = P r.next_lifecycle r.peers

module _ (P : ℕ → Map PeerEntry → Type 0) (closed : Closed P) where
  pub with_entry-Holds :
      (d : DeviceId) (f : ℕ → PeerEntry → Step) (r : Registry)
      → ((n : ℕ) (e : PeerEntry) → Keeps n e (f n e))
      → Holds P r
      → Holds P (with_entry d f r).registry
  unfolding with_entry
  with_entry-Holds d f r k v = elim (Option-cases (get d r.peers)) [
    | inl g ↦ rw (g, with_entry) v
    | inr (e, g) ↦
        rw (g, with_entry)
          (closed.step r.next_lifecycle r.peers d e (f r.next_lifecycle e) g (k r.next_lifecycle e)
            v)
  ]

  pub with_new_entry-Holds :
      (d : DeviceId) (f : ℕ → PeerEntry → Step) (r : Registry)
      → ((n : ℕ) (e : PeerEntry) → Keeps n e (f n e))
      → Holds P r
      → Holds P (with_new_entry d f r).registry
  unfolding with_new_entry
  with_new_entry-Holds d f r k v =
      let n = r.next_lifecycle in
      elim (Option-cases (get d r.peers)) [
        | inl g ↦
            let s = f (suc n) (new_entry n d) in
            rw (g, with_new_entry)
              (closed.start n r.peers d s g (new_entry-Starts n d s (k (suc n) (new_entry n d))) v)
        | inr (e, g) ↦ rw (g, with_new_entry) (closed.step n r.peers d e (f n e) g (k n e) v)
      ]

  pub for_each-Holds :
      (ds : List DeviceId) (f : ℕ → PeerEntry → Step) (r : Registry)
      → ((n : ℕ) (e : PeerEntry) → Keeps n e (f n e))
      → Holds P r
      → Holds P (for_each ds f r).registry
  unfolding for_each
  for_each-Holds [] f r k v = v
  for_each-Holds (d ∷ ds) f r k v =
      for_each-Holds ds f (with_entry d f r).registry k (with_entry-Holds d f r k v)

  pub sweep_all-Holds :
      (f : ℕ → PeerEntry → Step) (r : Registry)
      → ((n : ℕ) (e : PeerEntry) → Keeps n e (f n e))
      → Holds P r
      → Holds P (sweep_all f r).registry
  unfolding sweep_all
  sweep_all-Holds f r k v = closed.all f k r.next_lifecycle r.peers v

  pub pruned_if-Holds :
      (dies : PeerEntry → Bool) (d : DeviceId) (r : Registry) (o : Outcome)
      → Holds P o.registry
      → Holds P (pruned_if dies d r o).registry
  unfolding prune_verified_prefixes
  pruned_if-Holds dies d r o v = elim (Option-cases (get d r.peers)) [
    | inl g ↦ rw (g, pruned_if) v
    | inr (e, g) ↦ rw (g, pruned_if) (if_both (λ (o' : Outcome). Holds P o'.registry) (dies e) v v)
  ]
