-- ===== src/Routing/Tombstones.antt =====
-- How many tombstones of pipes there can be: `prune_pipe_tombstones` and what writes a tombstone.
use iroh_ble_transport.Prelude.{
  KeysOk, KeysOk-insert, KeysOk-remove, Map, arith, insert, length, remove, ℕ, ◌+◌, ◌≤◌,
}
use iroh_ble_transport.Aging.Limits.{
  KeysOk-prune_oldest, length-insert_le, length-prune_oldest, length-remove_le,
}
use iroh_ble_transport.Routing.Table.{
  PipeTombstone, is_live_tombstone, max_pipe_tombstones, prune_tombstones,
}

KeysOk-prune_tombstones :
    (now : ℕ) (m : Map PipeTombstone) → KeysOk m → KeysOk (prune_tombstones now m)
unfolding prune_tombstones
KeysOk-prune_tombstones now =
    KeysOk-prune_oldest (is_live_tombstone now) (λ t. t.evicted_at) max_pipe_tombstones

length-prune_tombstones :
    (now : ℕ) (m : Map PipeTombstone)
    → KeysOk m
    → length (prune_tombstones now m) ≤ max_pipe_tombstones
unfolding prune_tombstones
length-prune_tombstones now =
    length-prune_oldest (is_live_tombstone now) (λ t. t.evicted_at) max_pipe_tombstones

-- One more than the limit can stand, since a tombstone is written after the prune.
abbrev pub TombstonesOk : Map PipeTombstone → Type 0
TombstonesOk m = KeysOk m × (length m ≤ max_pipe_tombstones + 1)

pub TombstonesOk-prune :
    (now : ℕ) (m : Map PipeTombstone) → TombstonesOk m → TombstonesOk (prune_tombstones now m)
TombstonesOk-prune now m h =
    let le = length-prune_tombstones now m h.0 in
    (KeysOk-prune_tombstones now m h.0, omega (arith, le))

pub TombstonesOk-remove :
    (k : ℕ) (m : Map PipeTombstone) → TombstonesOk m → TombstonesOk (remove k m)
TombstonesOk-remove k m h =
    let le = length-remove_le k m in (KeysOk-remove k m h.0, omega (arith, le, h.1))

pub TombstonesOk-insert :
    (now k : ℕ) (t : PipeTombstone) (m : Map PipeTombstone)
    → TombstonesOk m
    → TombstonesOk (insert k t (prune_tombstones now m))
TombstonesOk-insert now k t m h =
    let le = length-prune_tombstones now m h.0 in
    let more = length-insert_le k t (prune_tombstones now m) in
    (
      KeysOk-insert k t (prune_tombstones now m) (KeysOk-prune_tombstones now m h.0),
      omega (arith, le, more),
    )
