-- ===== src/Registry/Lifecycles.antt =====
-- Lifecycle identities over whole histories of commands (registry.rs).
use iroh_ble_transport.Prelude.{retain-AllPairs, List, Map, arith, get-AllPairs, ℕ, ◌<◌, ◌≢◌}
use iroh_ble_transport.Peer.{EndpointId, PeerEntry}
use iroh_ble_transport.Registry.State.{L2capPolicy, Registry, new}
use iroh_ble_transport.Registry.Handle.{InboxItem, run}
use iroh_ble_transport.Registry.Identity.{
  EntryOk, IdsOk, Unlike, Unlike-insert, start-IdsOk, step-IdsOk,
}
use iroh_ble_transport.Registry.Sweeps.{Unlike-sweep, retain-Distinct, sweep-IdsOk, sweep_grows}
use iroh_ble_transport.Registry.Closure.{Closed}
use iroh_ble_transport.Registry.Commands.{run-Holds}

IdsOk-Closed : Closed IdsOk
IdsOk-Closed = record {
  step = step-IdsOk;
  start = start-IdsOk;
  all = λ f k n m v. sweep-IdsOk f k n m v;
  drop = λ p n m v. (retain-AllPairs (EntryOk n) p m v.0, retain-Distinct p m v.1);
}

-- Identities are given out in order.
pub Below-Closed : (i : ℕ) → Closed (λ n m. i < n)
Below-Closed i = record {
  step = λ n m d e s g k v. omega (arith, v, k.grows);
  start = λ n m d s g h v. omega (arith, v, h.0, h.1);
  all = λ f k n m v. omega (arith, v, sweep_grows f k n m);
  drop = λ p n m v. v;
}

-- The identity has been given out, and no entry has it.
abbrev Retired : ℕ → ℕ → Map PeerEntry → Type 0
Retired i n m = (i < n) × Unlike i m

Retired-Closed : (i : ℕ) → Closed (Retired i)
Retired-Closed i = record {
  step = λ n m d e s g k v.
      let old = get-AllPairs (λ d e. e.lifecycle_id ≢ i) d m v.1 g in
      (
        omega (arith, v.0, k.grows),
        Unlike-insert i d s.entry m (omega (arith, k.identity, old, v.0)) v.1,
      );
  start = λ n m d s g h v.
      (omega (arith, v.0, h.0, h.1), Unlike-insert i d s.entry m (omega (arith, h.0, v.0)) v.1);
  all = λ f k n m v. (omega (arith, v.0, sweep_grows f k n m), Unlike-sweep f k i n m v.0 v.1);
  drop = λ p n m v. (v.0, retain-AllPairs (λ d e. e.lifecycle_id ≢ i) p m v.1);
}

-- After any commands to a new registry every entry has a lifecycle identity of its own, below the
-- next one to be given out; it is filed under its own device; its connected phase records the
-- current pipe generation; and its number of dials is below the bound on attempts.
pub run-IdsOk :
    (policy : L2capPolicy) (me : EndpointId) (h : List InboxItem)
    → IdsOk (run h (new policy me)).next_lifecycle (run h (new policy me)).peers
unfolding new
run-IdsOk policy me h = run-Holds IdsOk IdsOk-Closed h (new policy me) (tt, tt)

-- A lifecycle identity that was given out and that no entry has is never an entry's again.
pub run-Retired :
    (i : ℕ) (h : List InboxItem) (r : Registry)
    → i < r.next_lifecycle
    → Unlike i r.peers
    → Unlike i (run h r).peers
run-Retired i h r b u = (run-Holds (Retired i) (Retired-Closed i) h r (b, u)).1
