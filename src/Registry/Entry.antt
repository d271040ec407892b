-- ===== src/Registry/Entry.antt =====
-- The helpers of registry.rs that change one entry. Identities are allocated from `next_lifecycle`;
-- the source stops the process when 2^64 of them are used up, so they never wrap.
use iroh_ble_transport.Prelude.{
  ℕ, zero, suc, ◌+◌, ◌-◌, ◌*◌, ◌/◌, ◌%◌, ◌^◌, min, false, Option, none, some, List, [], ◌∷◌, ◌++◌,
  if◌then◌else◌, is_empty,
}
use iroh_ble_transport.Peer.{
  PeerEntry, DisconnectReason, KeyPrefix, DeviceId, new_peer, discovered, pending_dial, connecting,
  connected, draining, peripheral, gatt, start_connect, retire_lifecycle, start_data_pipe,
  put_peer_store, broken_pipe,
}
use iroh_ble_transport.Dedup.{fairness_window, fairness_jitter}
use iroh_ble_transport.Registry.Step.{Env, Effect, act, Step, answer_all, is_connected}

-- Durations are in nanoseconds.
abbrev pub second : ℕ
second = 1_000_000_000

abbrev pub max_connect_attempts : ℕ
max_connect_attempts = 15

abbrev pub draining_timeout : ℕ
draining_timeout = 5 * second

abbrev pub restoring_timeout : ℕ
restoring_timeout = 120 * second

abbrev pub dead_gc_ttl : ℕ
dead_gc_ttl = 60 * second

abbrev pub connected_idle_deadline : ℕ
connected_idle_deadline = 45 * second

-- `Registry::new_entry`.
unfoldable pub new_entry : ℕ → DeviceId → PeerEntry
unfolding new_peer
new_entry next_lifecycle device_id =
    let e = new_peer device_id in record e { lifecycle_id = next_lifecycle }

unfoldable pub reconnect_backoff : ℕ → ℕ
reconnect_backoff attempt = min (500 * 2 ^ min attempt 6) 30_000 * 1_000_000

-- Byte `i` of a prefix.
prefix_byte : KeyPrefix → ℕ → ℕ
prefix_byte prefix i = prefix / 256 ^ (11 - i) % 256

-- The wrapping sum of the first bytes, each shifted to its place in a word of eight.
jitter_seed : KeyPrefix → ℕ → ℕ
jitter_seed prefix zero = 0
jitter_seed prefix (suc i) = (jitter_seed prefix i + prefix_byte prefix i * 256 ^ (i % 8)) % 2 ^ 64

unfoldable pub pending_dial_deadline : ℕ → KeyPrefix → ℕ
unfolding jitter_seed prefix_byte
pending_dial_deadline now prefix =
    now + (fairness_window - fairness_jitter) + jitter_seed prefix 12 % (2 * fairness_jitter)

unfoldable pub abandon_outstanding : ℕ → PeerEntry → Step
abandon_outstanding next e = record {
  next = suc next;
  entry = record e { lifecycle_id = next; upgrade_gen = 0 };
  effects = act (retire_lifecycle e.device_id e.lifecycle_id) ∷ [];
}

unfoldable pub begin_connect : Env → ℕ → ℕ → PeerEntry → Step
unfolding abandon_outstanding
begin_connect env attempt next e =
    let s = abandon_outstanding next e in
    record {
      next = s.next;
      entry = record (s.entry) { phase = connecting attempt env.now gatt };
      effects = s.effects ++ act (start_connect e.device_id attempt s.entry.lifecycle_id) ∷ [];
    }

unfoldable pub arm_for_dial : Env → Option KeyPrefix → ℕ → PeerEntry → Step
unfolding begin_connect
arm_for_dial env defer_prefix next e =
    if is_empty e.pending_sends
    then record { next = next; entry = record e { phase = discovered env.now }; effects = [] }
    else elim defer_prefix [
      | none ↦ begin_connect env 0 next e
      | some prefix ↦ record {
        next = next;
        entry = record e {
          phase = pending_dial env.now (pending_dial_deadline env.now prefix) prefix;
        };
        effects = [];
      }
    ]

unfoldable pub clear_connection_state : ℕ → PeerEntry → Step
unfolding abandon_outstanding
clear_connection_state next e =
    let s = abandon_outstanding next e in
    record {
      next = s.next;
      entry = record (s.entry) {
        consecutive_failures = 0;
        pipe = none;
        l2cap_channel = none;
        l2cap_upgrade_failed = false;
        subscribed_chars = [];
        rx_backlog = [];
        resume_after_drain = false;
        verified_live_suppressed_logged = false;
      };
      effects = s.effects;
    }

unfoldable pub resume_drained_entry : Env → ℕ → PeerEntry → Step
unfolding clear_connection_state arm_for_dial
resume_drained_entry env next e =
    let s = clear_connection_state next e in
    let t = arm_for_dial env none s.next s.entry in
    record { next = t.next; entry = t.entry; effects = s.effects ++ t.effects }

unfoldable pub remember : Env → PeerEntry → List Effect
remember env e =
    if is_connected e.phase
    then elim e.prefix [
      | none ↦ []
      | some prefix ↦ act (put_peer_store prefix e.device_id env.wall) ∷ []
    ]
    else []

unfoldable pub drain_to_draining : Env → DisconnectReason → ℕ → PeerEntry → Step
unfolding abandon_outstanding remember
drain_to_draining env reason next e =
    let s = abandon_outstanding next e in
    record {
      next = s.next;
      entry = record (s.entry) {
        pipe = none;
        resume_after_drain = false;
        l2cap_upgrade_failed = false;
        pending_sends = [];
        phase = draining env.now reason;
      };
      effects = s.effects ++ (answer_all broken_pipe e.pending_sends ++ remember env e);
    }

abbrev pub opt_list {ℓ} : {A : Type ℓ} → Option A → List A
opt_list none = []
opt_list (some a) = a ∷ []

unfoldable pub restart_peripheral_gatt_pipe :
    Env → Option (List ℕ) → Option ℕ → ℕ → PeerEntry → Step
unfolding abandon_outstanding
restart_peripheral_gatt_pipe env first_fragment subscribed_char next e =
    let s = abandon_outstanding next e in
    let tx_gen = suc e.tx_gen in
    record {
      next = s.next;
      entry = record (s.entry) {
        pipe = none;
        role = peripheral;
        subscribed_chars = opt_list subscribed_char;
        tx_gen = tx_gen;
        phase = connected env.now (record { id = tx_gen; path = gatt }) tx_gen false;
        rx_backlog = e.rx_backlog ++ opt_list first_fragment;
      };
      effects =
          s.effects
          ++ act (
              start_data_pipe e.device_id s.entry.lifecycle_id tx_gen peripheral e.target_endpoint
                gatt none)
            ∷ [];
    }
