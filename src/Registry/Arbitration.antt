-- ===== src/Registry/Arbitration.antt =====
-- About `handle_verified_endpoint` of registry.rs and the connections with one prefix.
use iroh_ble_transport.Prelude.{
  All, Bool, Bool-cases, List, Map, Option, Option-cases, [], arith, false, get, get-insert, inl,
  inr, leb, length, none, refl, some, true, ℕ, ◌==◌, ◌∙◌, ◌∷◌, ◌≡◌, ◌≢◌, ◌⊎◌,
}
use iroh_ble_transport.Peer.{
  DeviceId, DisconnectReason, EndpointId, KeyPrefix, PeerEntry, prefix_from_endpoint,
}
use iroh_ble_transport.Registry.Step.{Env, Step}
use iroh_ble_transport.Registry.Entry.{drain_to_draining}
use iroh_ble_transport.Registry.State.{Registry, for_each, policy_cases, select, with_entry}
use iroh_ble_transport.Registry.Connecting.{begin_upgrade, connected_count}
use iroh_ble_transport.Registry.Verified.{
  cancel_dials, dedup, handle_verified_endpoint, is_candidate, note_verified, others, to_upgrade,
  upgrade_winner, winner_of,
}

-- Entries that a loop makes fail a test: whoever passes it afterwards was not in the loop.
module _ (p : PeerEntry → Bool) (f : ℕ → PeerEntry → Step)
    (fails : (n : ℕ) (e : PeerEntry) → p (f n e).entry ≡ false) where
  with_entry_spares :
      (d j : ℕ) (e : PeerEntry) (r : Registry)
      → get d (with_entry j f r).registry.peers ≡ some e
      → p e ≡ true
      → (j ≢ d) × (get d r.peers ≡ some e)
  unfolding with_entry
  with_entry_spares d j e r g h = elim (Option-cases (get j r.peers)) [
    | inl q ↦ ground (arith)
    | inr (w, q) ↦
        let x = get-insert j d (f r.next_lifecycle w).entry r.peers in
        let y = fails r.next_lifecycle w in ground (arith)
  ]

  for_each_spares :
      (ds : List DeviceId) (d : ℕ) (e : PeerEntry) (r : Registry)
      → get d (for_each ds f r).registry.peers ≡ some e
      → p e ≡ true
      → All (λ j. j ≢ d) ds × (get d r.peers ≡ some e)
  unfolding for_each
  for_each_spares [] d e r g h = (tt, g)
  for_each_spares (j ∷ ds) d e r g h =
      let later = for_each_spares ds d e (with_entry j f r).registry g h in
      let now = with_entry_spares d j e r later.1 h in ((now.0, later.0), now.1)

-- A loop leaves the entries of other devices alone.
with_entry_other :
    (d j : ℕ) (f : ℕ → PeerEntry → Step) (r : Registry)
    → j ≢ d
    → get d (with_entry j f r).registry.peers ≡ get d r.peers
unfolding with_entry
with_entry_other d j f r h = elim (Option-cases (get j r.peers)) [
  | inl q ↦ ground arith
  | inr (w, q) ↦ let x = get-insert j d (f r.next_lifecycle w).entry r.peers in ground arith
]

pub for_each_other :
    (ds : List DeviceId) (d : ℕ) (f : ℕ → PeerEntry → Step) (r : Registry)
    → All (λ j. j ≢ d) ds
    → get d (for_each ds f r).registry.peers ≡ get d r.peers
unfolding for_each
for_each_other [] d f r h = refl
for_each_other (j ∷ ds) d f r h =
    for_each_other ds d f (with_entry j f r).registry h.1 ∙ with_entry_other d j f r h.0

-- The device of an entry that passes is selected.
pub select-has :
    (p : PeerEntry → Bool) (d : ℕ) (e : PeerEntry) (m : Map PeerEntry)
    → get d m ≡ some e
    → p e ≡ true
    → All (λ j. j ≢ d) (select p m)
    → ⊥
unfolding get select
select-has p d e [] g h a = absurd (cc)
select-has p d e ((j, w) ∷ m) g h a = ground (arith, select-has p d e m)

others-rest :
    (w : Option DeviceId) (d : ℕ) (ds : List DeviceId)
    → All (λ j. j ≢ d) (others w ds)
    → (w ≡ some d) ⊎ All (λ j. j ≢ d) ds
unfolding others
others-rest w d [] a = inr tt
others-rest none d (j ∷ ds) a = ground (arith, others-rest none d ds)
others-rest (some w) d (j ∷ ds) a = ground (arith, others-rest (some w) d ds)

pub others-spares : (w : ℕ) (ds : List DeviceId) → All (λ j. j ≢ w) (others (some w) ds)
unfolding others
others-spares w [] = tt
others-spares w (j ∷ ds) = ground (arith, others-spares w ds)

drained_fails :
    (env : Env) (prefix : KeyPrefix) (reason : DisconnectReason) (n : ℕ) (e : PeerEntry)
    → is_candidate prefix (drain_to_draining env reason n e).entry ≡ false
unfolding drain_to_draining
drained_fails env prefix reason n e = ground arith

only : (d x : ℕ) → (All (λ j. j ≢ d) (x ∷ []) → ⊥) → x ≡ d
only d x a = elim (Bool-cases (x == d)) [
  | inl p ↦ ground arith
  | inr p ↦ absurd (a (ground arith, tt))
]

-- Of less than two devices any two are the same.
lone :
    (d d' : ℕ) (ds : List ℕ)
    → leb 2 (length ds) ≡ false
    → (All (λ j. j ≢ d) ds → ⊥)
    → (All (λ j. j ≢ d') ds → ⊥)
    → d ≡ d'
lone d d' [] h a b = absurd (a tt)
lone d d' (x ∷ []) h a b = let p = only d x a in let q = only d' x b in ground arith
lone d d' (x ∷ y ∷ ds) h a b = absurd (ground arith)

abbrev pub candidates_in : KeyPrefix → Registry → List DeviceId
candidates_in prefix r = select (is_candidate prefix) r.peers

abbrev pub winner_in : Env → KeyPrefix → EndpointId → Registry → Option DeviceId
winner_in env prefix endpoint r =
    winner_of env.now r.my_endpoint endpoint r.peers (candidates_in prefix r)

pub dedup-one :
    (env : Env) (prefix : KeyPrefix) (endpoint : EndpointId) (r : Registry) (d d' : DeviceId)
    (e e' : PeerEntry)
    → get d (dedup env prefix endpoint r).registry.peers ≡ some e
    → is_candidate prefix e ≡ true
    → get d' (dedup env prefix endpoint r).registry.peers ≡ some e'
    → is_candidate prefix e' ≡ true
    → d ≡ d'
unfolding dedup
dedup-one env prefix endpoint r d d' e e' g h g' h' =
    elim (Bool-cases (leb 2 (length (candidates_in prefix r)))) [
      | inl t ↦
          let p = survives d e (rw t at g) h in
          let p' = survives d' e' (rw t at g') h' in ground (arith)
      | inr t ↦
          lone d d' (candidates_in prefix r) t
            (select-has (is_candidate prefix) d e r.peers (rw t at g) h)
            (select-has (is_candidate prefix) d' e' r.peers (rw t at g') h')
    ]
  where
    survives :
        (d : DeviceId) (e : PeerEntry)
        → get d
            (for_each
              (others (winner_in env prefix endpoint r) (candidates_in prefix r))
              (drain_to_draining env DisconnectReason.dedup_loser)
              r).registry.peers
          ≡ some e
        → is_candidate prefix e ≡ true
        → (winner_in env prefix endpoint r) ≡ some d
    survives d e g h =
        let k =
          for_each_spares (is_candidate prefix) _
            (drained_fails env prefix DisconnectReason.dedup_loser)
            (others (winner_in env prefix endpoint r) (candidates_in prefix r)) d e r g h in
        elim (others-rest (winner_in env prefix endpoint r) d (candidates_in prefix r) k.0) [
          | inl w ↦ w
          | inr a ↦ absurd (select-has (is_candidate prefix) d e r.peers k.1 h a)
        ]

abbrev Passes : (PeerEntry → Bool) → DeviceId → Registry → Type 0
Passes p d r = (e : PeerEntry) × (get d r.peers ≡ some e) × (p e ≡ true)

-- A loop that leaves a test's verdict on an entry alone: whoever passes it afterwards did before.
module _ (p : PeerEntry → Bool) (f : ℕ → PeerEntry → Step)
    (same : (n : ℕ) (e : PeerEntry) → p (f n e).entry ≡ p e) where
  with_entry-Passes :
      (d j : ℕ) (r : Registry) → Passes p d (with_entry j f r).registry → Passes p d r
  unfolding with_entry
  with_entry-Passes d j r (e, g, h) = elim (Option-cases (get j r.peers)) [
    | inl q ↦ (e, ground arith, h)
    | inr (w, q) ↦
        let x = get-insert j d (f r.next_lifecycle w).entry r.peers in
        let y = same r.next_lifecycle w in
        elim (Bool-cases (j == d)) [
          | inl t ↦ (w, ground arith, ground arith)
          | inr t ↦ (e, ground arith, h)
        ]
  ]

  for_each-Passes :
      (ds : List DeviceId) (d : ℕ) (r : Registry)
      → Passes p d (for_each ds f r).registry
      → Passes p d r
  unfolding for_each
  for_each-Passes [] d r h = h
  for_each-Passes (j ∷ ds) d r h =
      with_entry-Passes d j r (for_each-Passes ds d (with_entry j f r).registry h)

upgrade_same :
    (prefix : KeyPrefix) (n : ℕ) (e : PeerEntry)
    → is_candidate prefix (begin_upgrade n e).entry ≡ is_candidate prefix e
unfolding begin_upgrade
upgrade_same prefix n e = ground arith

upgrade_winner-Passes :
    (prefix : KeyPrefix) (endpoint : EndpointId) (d : DeviceId) (r : Registry)
    → Passes (is_candidate prefix) d (upgrade_winner prefix endpoint r).registry
    → Passes (is_candidate prefix) d r
unfolding upgrade_winner
upgrade_winner-Passes prefix endpoint d r h = elim (policy_cases r.l2cap_policy) [
  | inl q ↦ rw (q, upgrade_winner) at h
  | inr q ↦
      for_each-Passes (is_candidate prefix) begin_upgrade (upgrade_same prefix)
        (select (to_upgrade (connected_count prefix r.peers) prefix r.my_endpoint endpoint) r.peers)
        d r (rw (q, upgrade_winner) at h)
]

-- Two peers that are connected with the prefix of an endpoint, after the command that has verified
-- the endpoint, are one and the same.
pub handle_verified_endpoint-one :
    (env : Env) (endpoint : EndpointId) (exact : Option DeviceId) (r : Registry) (d d' : DeviceId)
    (e e' : PeerEntry)
    → get d (handle_verified_endpoint env endpoint exact r).registry.peers ≡ some e
    → is_candidate (prefix_from_endpoint endpoint) e ≡ true
    → get d' (handle_verified_endpoint env endpoint exact r).registry.peers ≡ some e'
    → is_candidate (prefix_from_endpoint endpoint) e' ≡ true
    → d ≡ d'
unfolding handle_verified_endpoint
handle_verified_endpoint-one env endpoint exact r d d' e e' g h g' h' =
    let prefix = prefix_from_endpoint endpoint in
    let a = (cancel_dials env prefix (note_verified env endpoint exact r)).registry in
    let b = (dedup env prefix endpoint a).registry in
    let x = upgrade_winner-Passes prefix endpoint d b (e, g, h) in
    let y = upgrade_winner-Passes prefix endpoint d' b (e', g', h') in
    dedup-one env prefix endpoint a d d' x.0 y.0 x.1 x.2 y.1 y.2
