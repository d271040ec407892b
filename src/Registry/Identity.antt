-- ===== src/Registry/Identity.antt =====
-- Lifecycle identities in the whole registry of registry.rs.
use iroh_ble_transport.Prelude.{
  AllPairs, Bool-cases, Map, [], arith, get, get-AllPairs, inl, inr, insert, insert-AllPairs, none,
  some, subst, ℕ, ◌<◌, ◌==◌, ◌∙◌, ◌∷◌, ◌≡◌, ◌≢◌, ◌≤◌, ◌⊎◌,
}
use iroh_ble_transport.Peer.{DeviceId, PeerEntry}
use iroh_ble_transport.Registry.Step.{Step}
use iroh_ble_transport.Registry.Contract.{AttemptOk, HasGen, Keeps, Starts}

-- No entry has this lifecycle identity.
abbrev pub Unlike : ℕ → Map PeerEntry → Type 0
Unlike i = AllPairs (λ d e. e.lifecycle_id ≢ i)

abbrev pub Distinct : Map PeerEntry → Type 0
Distinct [] = Unit
Distinct ((d, e) ∷ m) = Unlike e.lifecycle_id m × Distinct m

abbrev pub EntryOk : ℕ → DeviceId → PeerEntry → Type 0
EntryOk n d e =
    (e.lifecycle_id < n) × HasGen e.tx_gen e.phase × AttemptOk e.phase × (e.device_id ≡ d)

-- Every entry has an identity below the supply, and no other entry has it; a connected peer's
-- generation is the one its phase records; a dial's number is below the bound on attempts; an entry
-- is filed under its own device.
abbrev pub IdsOk : ℕ → Map PeerEntry → Type 0
IdsOk n m = AllPairs (EntryOk n) m × Distinct m

pub entries_mono :
    (n n' : ℕ) (m : Map PeerEntry) → n ≤ n' → AllPairs (EntryOk n) m → AllPairs (EntryOk n') m
entries_mono n n' [] h a = tt
entries_mono n n' ((d, e) ∷ m) h a =
    ((omega (arith, a.0.0), a.0.1, a.0.2, a.0.3), entries_mono n n' m h a.1)

pub Unlike-insert :
    (i d : ℕ) (e : PeerEntry) (m : Map PeerEntry)
    → e.lifecycle_id ≢ i
    → Unlike i m
    → Unlike i (insert d e m)
Unlike-insert i d e m h u = insert-AllPairs (λ d e. e.lifecycle_id ≢ i) d e m h u

pub Unlike-fresh : (n i : ℕ) (m : Map PeerEntry) → n ≤ i → AllPairs (EntryOk n) m → Unlike i m
Unlike-fresh n i [] h a = tt
Unlike-fresh n i ((d, e) ∷ m) h a = (omega (arith, a.0.0), Unlike-fresh n i m h a.1)

-- Replacing an entry keeps the identities distinct if the new one is the old one's or is fresh.
pub Distinct-insert :
    (n d : ℕ) (e e' : PeerEntry) (m : Map PeerEntry)
    → get d m ≡ some e
    → (e'.lifecycle_id ≡ e.lifecycle_id) ⊎ (n ≤ e'.lifecycle_id)
    → AllPairs (EntryOk n) m
    → Distinct m
    → Distinct (insert d e' m)
unfolding get insert
Distinct-insert n d e e' [] g h a u = absurd (cc)
Distinct-insert n d e e' ((j, w) ∷ m) g h a u = elim (Bool-cases (j == d)) [
  | inl t ↦
      let here : some w ≡ some e = rw t at g in
      rw t (
        elim h [
          | inl p ↦
              let p' : w.lifecycle_id ≡ e'.lifecycle_id = ground arith in
              subst (λ i. Unlike i m) p' u.0
          | inr q ↦ Unlike-fresh n e'.lifecycle_id m q a.1
        ],
        u.1,
      )
  | inr t ↦
      let there : get d m ≡ some e = rw t at g in
      let apart : e.lifecycle_id ≢ w.lifecycle_id =
        get-AllPairs (λ d e. e.lifecycle_id ≢ w.lifecycle_id) d m u.0 there in
      rw t (
        Unlike-insert w.lifecycle_id d e' m (ground arith) u.0,
        Distinct-insert n d e e' m there h a.1 u.1,
      )
]

-- A fresh entry for a device that is not known yet.
Distinct-insert_new :
    (n d : ℕ) (e' : PeerEntry) (m : Map PeerEntry)
    → get d m ≡ none
    → n ≤ e'.lifecycle_id
    → AllPairs (EntryOk n) m
    → Distinct m
    → Distinct (insert d e' m)
unfolding get insert
Distinct-insert_new n d e' [] g h a u = (tt, tt)
Distinct-insert_new n d e' ((j, w) ∷ m) g h a u = elim (Bool-cases (j == d)) [
  | inl t ↦ let here : some w ≡ none = rw t at g in absurd (cc)
  | inr t ↦
      let there : get d m ≡ none = rw t at g in
      rw t (
        Unlike-insert w.lifecycle_id d e' m (omega (arith, a.0.0)) u.0,
        Distinct-insert_new n d e' m there h a.1 u.1,
      )
]

-- A transition of one entry, as the contract describes it.
pub step-IdsOk :
    (n : ℕ) (m : Map PeerEntry) (d : DeviceId) (e : PeerEntry) (s : Step)
    → get d m ≡ some e
    → Keeps n e s
    → IdsOk n m
    → IdsOk s.next (insert d s.entry m)
step-IdsOk n m d e s g k v =
    let ok = get-AllPairs (EntryOk n) d m v.0 g in
    (
      insert-AllPairs (EntryOk s.next) d s.entry m
          (kept (ok.0) k, k.generation ok.1, k.attempts ok.2, k.device ∙ ok.3)
          (entries_mono n s.next m k.grows v.0),
      Distinct-insert n d e s.entry m g (source k) v.0 v.1,
    )
  where
    kept : e.lifecycle_id < n → Keeps n e s → s.entry.lifecycle_id < s.next
    kept h k = omega (arith, k.grows, k.identity)

    source : Keeps n e s → (s.entry.lifecycle_id ≡ e.lifecycle_id) ⊎ (n ≤ s.entry.lifecycle_id)
    source k = elim k.identity [ inl p ↦ inl p | inr p ↦ inr p.0 ]

-- A new entry, with an identity from the supply.
pub start-IdsOk :
    (n : ℕ) (m : Map PeerEntry) (d : DeviceId) (s : Step)
    → get d m ≡ none
    → Starts n d s
    → IdsOk n m
    → IdsOk s.next (insert d s.entry m)
start-IdsOk n m d s g h v = (
  insert-AllPairs (EntryOk s.next) d s.entry m (h.1, h.2, h.3, h.4)
      (entries_mono n s.next m (omega arith) v.0),
  Distinct-insert_new n d s.entry m g h.0 v.0 v.1,
)
