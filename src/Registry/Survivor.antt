-- ===== src/Registry/Survivor.antt =====
-- About the connection that the arbitration of registry.rs keeps.
use iroh_ble_transport.Prelude.{
  KeysOk, KeysOk-insert, KeysOk-retain, All, All-mono, AllPairs, Bool, Bool-cases, List, Map,
  Option-cases, [], arith, get, get-AllPairs, if_both, inl, inr, leb, length, refl, some, subst,
  true, ℕ, ◌∷◌, ◌≡◌, ◌≢◌,
}
use iroh_ble_transport.Peer.{DeviceId, DisconnectReason, EndpointId, KeyPrefix, PeerEntry}
use iroh_ble_transport.Dedup.{should_win}
use iroh_ble_transport.Registry.Step.{Env, Step}
use iroh_ble_transport.Registry.Entry.{drain_to_draining}
use iroh_ble_transport.Registry.State.{L2capPolicy, Registry, new, select, sweep}
use iroh_ble_transport.Registry.Verified.{
  dedup, find_winner, is_candidate, later_of, latest, others, winner_of,
}
use iroh_ble_transport.Registry.Handle.{InboxItem, run}
use iroh_ble_transport.Registry.Closure.{Closed}
use iroh_ble_transport.Registry.Commands.{run-Holds}
use iroh_ble_transport.Registry.Arbitration.{candidates_in, for_each_other, others-spares}

keys-sweep :
    (k : ℕ) (f : ℕ → PeerEntry → Step) (n : ℕ) (m : Map PeerEntry)
    → AllPairs (λ j w. j ≢ k) m
    → AllPairs (λ j w. j ≢ k) (sweep f n m).peers
unfolding sweep
keys-sweep k f n [] a = tt
keys-sweep k f n ((d, e) ∷ m) a = (a.0, keys-sweep k f (f n e).next m a.1)

KeysOk-sweep :
    (f : ℕ → PeerEntry → Step) (n : ℕ) (m : Map PeerEntry) → KeysOk m → KeysOk (sweep f n m).peers
unfolding sweep
KeysOk-sweep f n [] v = tt
KeysOk-sweep f n ((d, e) ∷ m) v =
    (keys-sweep d f (f n e).next m v.0, KeysOk-sweep f (f n e).next m v.1)

KeysOk-Closed : Closed (λ n m. KeysOk m)
KeysOk-Closed = record {
  step = λ n m d e s g k v. KeysOk-insert d s.entry m v;
  start = λ n m d s g h v. KeysOk-insert d s.entry m v;
  all = λ f k n m v. KeysOk-sweep f n m v;
  drop = λ p n m v. KeysOk-retain p m v;
}

-- The list that stands for the map has one entry at most for a device.
pub run-KeysOk :
    (policy : L2capPolicy) (me : EndpointId) (h : List InboxItem)
    → KeysOk (run h (new policy me)).peers
unfolding new
run-KeysOk policy me h = run-Holds (λ n m. KeysOk m) KeysOk-Closed h (new policy me) tt

-- A device whose entry passes the test.
abbrev pub Found : (PeerEntry → Bool) → Map PeerEntry → DeviceId → Type 0
Found p m d = (e : PeerEntry) × (get d m ≡ some e) × (p e ≡ true)

Found-tail :
    (p : PeerEntry → Bool) (j : DeviceId) (w : PeerEntry) (m : Map PeerEntry) (d : DeviceId)
    → AllPairs (λ i w. i ≢ j) m
    → Found p m d
    → Found p ((j, w) ∷ m) d
unfolding get
Found-tail p j w m d a (e, g, h) =
    let q = get-AllPairs (λ i w. i ≢ j) d m a g in (e, ground arith, h)

select-Found : (p : PeerEntry → Bool) (m : Map PeerEntry) → KeysOk m → All (Found p m) (select p m)
unfolding select get
select-Found p [] v = tt
select-Found p ((j, w) ∷ m) v =
    let rest =
      All-mono (Found p m) (Found p ((j, w) ∷ m)) (λ d f. Found-tail p j w m d v.0 f) (select p m)
        (select-Found p m v.1) in
    elim (Bool-cases (p w)) [
      | inl t ↦ rw (t, select) ((w, ground arith, t), rest)
      | inr t ↦ rw (t, select) rest
    ]

find_winner-All :
    (Q : DeviceId → Type 0) (my peer : EndpointId) (m : Map PeerEntry) (ds : List DeviceId)
    (w : DeviceId)
    → All Q ds
    → find_winner my peer m ds ≡ some w
    → Q w
unfolding find_winner
find_winner-All Q my peer m [] w a h = absurd (cc)
find_winner-All Q my peer m (d ∷ ds) w a h = elim (Option-cases (get d m)) [
  | inl g ↦ find_winner-All Q my peer m ds w a.1 (rw (g, find_winner) at h)
  | inr (e, g) ↦ elim (Bool-cases (should_win e.role my peer)) [
    | inl t ↦
        let here : some d ≡ some w = rw (g, t, find_winner) at h in
        let p : d ≡ w = cc in subst Q p a.0
    | inr t ↦ find_winner-All Q my peer m ds w a.1 (rw (g, t, find_winner) at h)
  ]
]

latest-All :
    (Q : DeviceId → Type 0) (now : ℕ) (m : Map PeerEntry) (best : DeviceId) (ds : List DeviceId)
    → Q best
    → All Q ds
    → Q (latest now m best ds)
unfolding latest later_of
latest-All Q now m best [] q a = q
latest-All Q now m best (d ∷ ds) q a =
    latest-All Q now m (later_of now m best d) ds
      (if_both Q _ q (if_both Q _ a.0 (if_both Q _ a.0 q))) a.1

-- The winner is one of the candidates, and there is one if there is a candidate.
winner_of-All :
    (Q : DeviceId → Type 0) (now : ℕ) (my peer : EndpointId) (m : Map PeerEntry) (d : DeviceId)
    (ds : List DeviceId)
    → All Q (d ∷ ds)
    → (w : DeviceId) × (winner_of now my peer m (d ∷ ds) ≡ some w) × Q w
unfolding winner_of
winner_of-All Q now my peer m d ds a = elim (Option-cases (find_winner my peer m (d ∷ ds))) [
  | inl g ↦ (latest now m d ds, rw (g, winner_of) refl, latest-All Q now m d ds a.0 a.1)
  | inr (w, g) ↦ (w, rw (g, winner_of) refl, find_winner-All Q my peer m (d ∷ ds) w a g)
]

survivor_of :
    (env : Env) (prefix : KeyPrefix) (endpoint : EndpointId) (r : Registry) (ds : List DeviceId)
    → leb 2 (length ds) ≡ true
    → All (Found (is_candidate prefix) r.peers) ds
    → (w : DeviceId) × (winner_of env.now r.my_endpoint endpoint r.peers ds ≡ some w)
      × Found (is_candidate prefix) r.peers w
survivor_of env prefix endpoint r [] t a = absurd (ground arith)
survivor_of env prefix endpoint r (d ∷ ds) t a =
    winner_of-All (Found (is_candidate prefix) r.peers) env.now r.my_endpoint endpoint r.peers d ds
      a

-- Where a peer of the prefix is connected, the arbitration leaves one connected, with its entry
-- untouched; no device may have two entries.
pub dedup_survivor :
    (env : Env) (prefix : KeyPrefix) (endpoint : EndpointId) (r : Registry) (d : DeviceId)
    (e : PeerEntry)
    → KeysOk r.peers
    → get d r.peers ≡ some e
    → is_candidate prefix e ≡ true
    → (w : DeviceId) × (get w (dedup env prefix endpoint r).registry.peers ≡ get w r.peers)
      × Found (is_candidate prefix) r.peers w
unfolding dedup
dedup_survivor env prefix endpoint r d e v g h =
    elim (Bool-cases (leb 2 (length (candidates_in prefix r)))) [
      | inr t ↦ (d, rw t refl, (e, g, h))
      | inl t ↦
          let (w, p, f) =
            survivor_of env prefix endpoint r (candidates_in prefix r) t
              (select-Found (is_candidate prefix) r.peers v) in
          (
            w,
            rw (t, p)
                (for_each_other (others (some w) (candidates_in prefix r)) w
                  (drain_to_draining env DisconnectReason.dedup_loser) r
                  (others-spares w (candidates_in prefix r))),
            f,
          )
    ]
