-- ===== src/Mtu.antt =====
-- The chunk size of a GATT pipe, crates/iroh-ble-transport/src/transport/mtu.rs.
pub mod Resolve
use mathlib.Core.Option
use iroh_ble_transport.Prelude.{
  ℕ, zero, suc, ◌+◌, ◌-◌, ◌/◌, ◌≤◌, ◌<◌, min, ◌≡◌, Bool, List, Option, none, some, [], ◌∷◌, arith,
  leb, if◌then◌else◌,
}

abbrev pub max_chunk_size : ℕ
max_chunk_size = 509

abbrev pub min_sane_mtu : ℕ
min_sane_mtu = 24

abbrev pub default_fallback_mtu : ℕ
default_fallback_mtu = 512

abbrev pub mtu_ready_deadline : ℕ
mtu_ready_deadline = 3000

abbrev pub mtu_poll_interval : ℕ
mtu_poll_interval = 50

abbrev pub att_overhead : ℕ
att_overhead = 3

abbrev pub max_datagram_size : ℕ
max_datagram_size = 1472

-- The polling loop. `read t` is what `iface.mtu` answers at the instant `t`, an answer of the
-- platform; a poll takes no time and a sleep the poll interval. The fuel bounds the rounds, and there
-- is no answer when it runs out.
unfoldable pub poll_mtu : (ℕ → ℕ) → ℕ → ℕ → ℕ → Option ℕ
poll_mtu read deadline zero now = none
poll_mtu read deadline (suc fuel) now =
    let rest = poll_mtu read deadline fuel (now + mtu_poll_interval) in
    if leb min_sane_mtu (read now)
    then some (read now)
    else if leb deadline now
    then some default_fallback_mtu
    else rest

-- Rounds that fit before the deadline, and the one that passes it.
abbrev pub poll_rounds : ℕ
poll_rounds = mtu_ready_deadline / mtu_poll_interval + 1

unfoldable pub resolve_chunk_size : (ℕ → ℕ) → ℕ → Option ℕ
resolve_chunk_size read now =
    Option.map (λ mtu. min (mtu - att_overhead) max_chunk_size)
      (poll_mtu read (now + mtu_ready_deadline) poll_rounds now)
