-- ===== src/Registry/Contract.antt =====
-- A contract of the transitions of an entry in registry.rs: where lifecycle identities come from,
-- and how the pipe generation and a connected phase go together.
use iroh_ble_transport.Prelude.{List, Option, arith, suc, ℕ, ◌<◌, ◌≡◌, ◌≤◌, ◌⊎◌}
use iroh_ble_transport.Peer.{
  DeviceId, DisconnectReason, KeyPrefix, PeerEntry, PeerPhase, connected, connecting, reconnecting,
}
use iroh_ble_transport.Registry.Step.{Env, Step}
use iroh_ble_transport.Registry.Entry.{
  arm_for_dial, begin_connect, drain_to_draining, max_connect_attempts, new_entry,
  restart_peripheral_gatt_pipe, resume_drained_entry,
}

-- The generation in the phase of a connected peer.
abbrev pub HasGen : ℕ → PeerPhase → Type 0
HasGen tx_gen (connected since ch live_gen up) = live_gen ≡ tx_gen
HasGen tx_gen _ = Unit

-- A dial is given up before the bound on attempts is reached.
abbrev pub AttemptOk : PeerPhase → Type 0
AttemptOk (connecting attempt started path) = attempt < max_connect_attempts
AttemptOk (reconnecting attempt next_at reason) = attempt < max_connect_attempts
AttemptOk _ = Unit

pub record Keeps (n : ℕ) (e : PeerEntry) (s : Step) : Type 0 where
  pub grows : n ≤ s.next
  pub identity :
      (s.entry.lifecycle_id ≡ e.lifecycle_id)
      ⊎ ((n ≤ s.entry.lifecycle_id) × (s.entry.lifecycle_id < s.next))
  pub rises : e.tx_gen ≤ s.entry.tx_gen
  pub generation : HasGen e.tx_gen e.phase → HasGen s.entry.tx_gen s.entry.phase
  pub attempts : AttemptOk e.phase → AttemptOk s.entry.phase
  pub device : s.entry.device_id ≡ e.device_id

-- A new entry: its identity comes from the supply.
abbrev pub Starts : ℕ → DeviceId → Step → Type 0
Starts n d s =
    (n ≤ s.entry.lifecycle_id)
    × (s.entry.lifecycle_id < s.next)
    × HasGen s.entry.tx_gen s.entry.phase
    × AttemptOk s.entry.phase
    × (s.entry.device_id ≡ d)

pub new_entry-Starts :
    (n : ℕ) (d : DeviceId) (s : Step) → Keeps (suc n) (new_entry n d) s → Starts n d s
unfolding new_entry
new_entry-Starts n d s k = (
  omega (arith, k.identity),
  omega (arith, k.identity, k.grows),
  k.generation tt,
  k.attempts tt,
  k.device,
)

pub begin_connect-Keeps :
    (env : Env) (attempt n : ℕ) (e : PeerEntry)
    → attempt < max_connect_attempts
    → Keeps n e (begin_connect env attempt n e)
unfolding begin_connect
begin_connect-Keeps env attempt n e h = ground arith

pub arm_for_dial-Keeps :
    (env : Env) (defer : Option KeyPrefix) (n : ℕ) (e : PeerEntry)
    → Keeps n e (arm_for_dial env defer n e)
unfolding arm_for_dial
arm_for_dial-Keeps env defer n e = ground arith

pub drain_to_draining-Keeps :
    (env : Env) (reason : DisconnectReason) (n : ℕ) (e : PeerEntry)
    → Keeps n e (drain_to_draining env reason n e)
unfolding drain_to_draining
drain_to_draining-Keeps env reason n e = ground arith

pub resume_drained_entry-Keeps :
    (env : Env) (n : ℕ) (e : PeerEntry) → Keeps n e (resume_drained_entry env n e)
unfolding resume_drained_entry
resume_drained_entry-Keeps env n e = ground arith

pub restart_peripheral_gatt_pipe-Keeps :
    (env : Env) (bytes : Option (List ℕ)) (char : Option ℕ) (n : ℕ) (e : PeerEntry)
    → Keeps n e (restart_peripheral_gatt_pipe env bytes char n e)
unfolding restart_peripheral_gatt_pipe
restart_peripheral_gatt_pipe-Keeps env bytes char n e = ground arith
