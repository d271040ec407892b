-- ===== src/Registry/Timers.antt =====
-- The registry's times: what a tick leaves behind, and how long a peer waits for the next dial.
use iroh_ble_transport.Prelude.{arith, min, refl, suc, zero, ℕ, ◌*◌, ◌+◌, ◌<◌, ◌^◌, ◌≡◌, ◌≤◌}
use iroh_ble_transport.Peer.{
  KeyPrefix, PeerPhase, dead, draining, pending_dial, reconnecting, restoring,
}
use iroh_ble_transport.Registry.Step.{Step}
use iroh_ble_transport.Registry.Entry.{
  dead_gc_ttl, draining_timeout, pending_dial_deadline, reconnect_backoff, restoring_timeout,
  second,
}
use iroh_ble_transport.Registry.State.{Registry}
use iroh_ble_transport.Registry.Closing.{elapsed}

-- The phase has not outstayed its time at an instant.
abbrev pub IsTimely : ℕ → PeerPhase → Type 0
IsTimely now (pending_dial since deadline prefix) = now < deadline
IsTimely now (reconnecting attempt next_at reason) = now < next_at
IsTimely now (draining since reason) = elapsed now since ≤ draining_timeout
IsTimely now (restoring since) = elapsed now since ≤ restoring_timeout
IsTimely now (dead reason at) = elapsed now at ≤ dead_gc_ttl
IsTimely now _ = Unit

-- The same, but for the dead.
abbrev IsMoving : ℕ → PeerPhase → Type 0
IsMoving now (dead reason at) = Unit
IsMoving now (pending_dial since deadline prefix) = now < deadline
IsMoving now (reconnecting attempt next_at reason) = now < next_at
IsMoving now (draining since reason) = elapsed now since ≤ draining_timeout
IsMoving now (restoring since) = elapsed now since ≤ restoring_timeout
IsMoving now _ = Unit

pow_pos : (m : ℕ) → 1 ≤ 2 ^ m
pow_pos zero = omega arith
pow_pos (suc m) = omega (arith, pow_pos m)

-- The wait before a dial is repeated is between half a second and thirty seconds, and from the
-- sixth repetition on it is thirty seconds.
pub reconnect_backoff_bounds :
    (k : ℕ)
    → (500_000_000 ≤ reconnect_backoff k)
      × (reconnect_backoff k ≤ 30 * second)
      × (6 ≤ k → reconnect_backoff k ≡ 30 * second)
unfolding reconnect_backoff
reconnect_backoff_bounds k =
    let low = pow_pos (min k 6) in
    (omega (arith, low), omega arith, λ h. let p : min k 6 ≡ 6 = omega (arith, h) in rw p refl)

-- A deferred dial is due between 650 and 950 milliseconds from now.
pub pending_dial_deadline_bounds :
    (now : ℕ) (prefix : KeyPrefix)
    → (now + 650_000_000 ≤ pending_dial_deadline now prefix)
      × (pending_dial_deadline now prefix < now + 950_000_000)
unfolding pending_dial_deadline
pending_dial_deadline_bounds now prefix = omega arith
