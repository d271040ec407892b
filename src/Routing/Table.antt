-- ===== src/Routing/Table.antt =====
-- The state of routing.rs, and the operations that open and close a pipe. Instants are nanoseconds,
-- and the present one is an argument. A `HashMap` is an association list in the order of iteration.
use iroh_ble_transport.Prelude.{
  Bool, List, Map, Option, [], get, insert, leb, none, remove, some, ℕ, ◌%◌, ◌+◌, ◌-◌, ◌^◌,
}
use iroh_ble_transport.Aging.{prune_oldest}
use iroh_ble_transport.Peer.{DeviceId, EndpointId, KeyPrefix}

abbrev pub pipe_tombstone_ttl : ℕ
pipe_tombstone_ttl = 30_000_000_000

abbrev pub max_pipe_tombstones : ℕ
max_pipe_tombstones = 128

abbrev pub StableConnId : Type 0
StableConnId = ℕ

pub data Direction : Type 0 where
  outbound inbound : Direction

-- Which end of the pair has dialled.
pub data Dialer : Type 0 where
  low high : Dialer

pub record Pipe : Type 0 where
  pub id : StableConnId
  pub device_id : DeviceId
  pub direction : Direction
  pub created_at : ℕ

pub record Pending : Type 0 where
  pub pipe : StableConnId
  pub target_endpoint : Option EndpointId
  pub created_at : ℕ

pub record Routable : Type 0 where
  pub pipe : StableConnId
  pub endpoint_id : EndpointId
  pub dialer : Dialer
  pub verified_at : ℕ

pub record PipeTombstone : Type 0 where
  pub device_id : DeviceId
  pub direction : Direction
  pub pipe_lifetime : ℕ
  pub evicted_at : ℕ
  pub dropped_transmits : ℕ

pub record Reservation : Type 0 where
  pub stable_id : StableConnId
  pub endpoint_id : EndpointId
  pub reserved_at : ℕ

-- `Routing` with its `RoutingInner`. A waker is a number.
pub record Routing : Type 0 where
  pub next_id : ℕ
  pub pipes : Map Pipe
  pub pipe_tombstones : Map PipeTombstone
  pub scan_hint : Map DeviceId
  pub pending : Map Pending
  pub routable : Map Routable
  pub reservations : Map Reservation
  pub reserved_stable_ids : Map KeyPrefix
  pub endpoint_wakers : Map (List ℕ)

-- What an operation leaves, the wakers that it wakes, and what it answers.
pub record Reply {ℓ} (A : Type ℓ) : Type ℓ where
  pub routing : Routing
  pub woken : List ℕ
  pub answer : A

unfoldable pub new : Routing
new = record {
  next_id = 0;
  pipes = [];
  pipe_tombstones = [];
  scan_hint = [];
  pending = [];
  routable = [];
  reservations = [];
  reserved_stable_ids = [];
  endpoint_wakers = [];
}

-- The next id: `fetch_add` and the guarded increment, both of which wrap.
unfoldable pub next_stable_id : Routing → StableConnId
next_stable_id r = (r.next_id + 1) % 2 ^ 64

abbrev pub is_live_tombstone : ℕ → PipeTombstone → Bool
is_live_tombstone now t = leb (now - t.evicted_at) pipe_tombstone_ttl

unfoldable pub prune_tombstones : ℕ → Map PipeTombstone → Map PipeTombstone
unfolding prune_oldest
prune_tombstones now m =
    prune_oldest (is_live_tombstone now) (λ t. t.evicted_at) max_pipe_tombstones m

unfoldable pub prune_pipe_tombstones : ℕ → Routing → Routing
unfolding prune_tombstones
prune_pipe_tombstones now r = record r { pipe_tombstones = prune_tombstones now r.pipe_tombstones }

unfoldable pub register_pipe : ℕ → DeviceId → Direction → Routing → Routing × StableConnId
unfolding next_stable_id prune_pipe_tombstones
register_pipe now device_id direction r =
    let id = next_stable_id r in
    let r' = prune_pipe_tombstones now r in
    (
      record r' {
        next_id = id;
        pipes =
            insert id
              (record { id = id; device_id = device_id; direction = direction; created_at = now })
              r.pipes;
      },
      id,
    )

abbrev pub tombstone_of : ℕ → Pipe → PipeTombstone
tombstone_of now pipe = record {
  device_id = pipe.device_id;
  direction = pipe.direction;
  pipe_lifetime = now - pipe.created_at;
  evicted_at = now;
  dropped_transmits = 0;
}

unfoldable pub evict_pipe : ℕ → StableConnId → Routing → Routing
unfolding prune_tombstones
evict_pipe now id r = elim (get id r.pipes) [
  | none ↦ r
  | some pipe ↦ record r {
    pipes = remove id r.pipes;
    pipe_tombstones = insert id (tombstone_of now pipe) (prune_tombstones now r.pipe_tombstones);
  }
]

-- With an id that was reserved. (In a debug build the id must not be live.)
unfoldable pub register_pipe_with_id : ℕ → StableConnId → DeviceId → Direction → Routing → Routing
unfolding prune_tombstones
register_pipe_with_id now stable_id device_id direction r = record r {
  pipe_tombstones = remove stable_id (prune_tombstones now r.pipe_tombstones);
  pipes =
      insert stable_id
        (record { id = stable_id; device_id = device_id; direction = direction; created_at = now })
        r.pipes;
}

unfoldable pub device_for_pipe : StableConnId → Routing → Option DeviceId
device_for_pipe stable_id r = elim (get stable_id r.pipes) [
  | none ↦ none
  | some pipe ↦ some pipe.device_id
]

-- A transmit to a pipe that was evicted lately: its tombstone, with the transmit counted.
unfoldable pub note_tombstoned_transmit :
    ℕ → StableConnId → Routing → Routing × Option PipeTombstone
unfolding prune_pipe_tombstones
note_tombstoned_transmit now stable_id r =
    let r' = prune_pipe_tombstones now r in
    elim (get stable_id r'.pipe_tombstones) [
      | none ↦ (r', none)
      | some t ↦
          let t' = record t { dropped_transmits = (t.dropped_transmits + 1) % 2 ^ 64 } in
          (record r' { pipe_tombstones = insert stable_id t' r'.pipe_tombstones }, some t')
    ]
