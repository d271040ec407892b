-- ===== src/Conns/Index.antt =====
-- `ConnectionRegistry` of conns.rs. Instants are nanoseconds, and the present one is an argument.
use iroh_ble_transport.Prelude.{
  Bool, List, Map, [], false, get, if◌then◌else◌, insert, is_empty, leb, map, none, remove, some,
  true, ℕ, ◌%◌, ◌++◌, ◌+◌, ◌-◌, ◌^◌, ◌∷◌,
}
use iroh_ble_transport.Aging.{prune_oldest}
use iroh_ble_transport.Peer.{EndpointId}
use iroh_ble_transport.Conns.Handle.{ConnId}
use iroh_ble_transport.Conns.Buckets.{
  Bucket, add_watch, drop_bucket, riding, set_watches, watches_at,
}
use iroh_ble_transport.Routing.Table.{StableConnId}

abbrev pub ble_close_code_conflict : ℕ
ble_close_code_conflict = 0

abbrev pub ble_close_code_retry : ℕ
ble_close_code_retry = 1

-- The reason that goes with a code, by the name of its constant.
pub data Reason : Type 0 where
  ble_conflict ble_evicted ble_pipe_closed : Reason

abbrev pub closed_pipe_ttl : ℕ
closed_pipe_ttl = 30_000_000_000

abbrev pub max_closed_pipes : ℕ
max_closed_pipes = 128

pub record ClosedPipe : Type 0 where
  pub code : ℕ
  pub reason : Reason
  pub closed_at : ℕ
  pub seq : ℕ

-- `ConnectionRegistry` with its `RegistryInner`.
pub record Conns : Type 0 where
  pub next_id : ℕ
  pub buckets : List Bucket
  pub closed : Map ClosedPipe
  pub next_close_seq : ℕ

-- A call of `close_if_only_path`.
pub record Attempt : Type 0 where
  pub conn : ConnId
  pub pipe : StableConnId
  pub code : ℕ
  pub reason : Reason

unfoldable pub no_conns : Conns
no_conns = record { next_id = 0; buckets = []; closed = []; next_close_seq = 0 }

abbrev pub is_recent : ℕ → ClosedPipe → Bool
is_recent now c = leb (now - c.closed_at) closed_pipe_ttl

unfoldable pub prune_closed : ℕ → Map ClosedPipe → Map ClosedPipe
unfolding prune_oldest
prune_closed now m = prune_oldest (is_recent now) (λ c. c.seq) max_closed_pipes m

-- What the call leaves, what it attempts to close, and the watch id.
pub record Inserted : Type 0 where
  pub conns : Conns
  pub attempts : List Attempt
  pub watch_id : ℕ

-- On a pipe that is remembered as closed the connection is not entered, but closed as the pipe was.
unfoldable pub insert_conn : ℕ → EndpointId → StableConnId → ConnId → Conns → Inserted
unfolding prune_closed add_watch
insert_conn now e p conn c =
    let id = (c.next_id + 1) % 2 ^ 64 in
    let closed = prune_closed now c.closed in
    elim (get p closed) [
      | some x ↦ record {
        conns = record c { next_id = id; closed = closed };
        attempts = record { conn = conn; pipe = p; code = x.code; reason = x.reason } ∷ [];
        watch_id = id;
      }
      | none ↦ record {
        conns = record c {
          next_id = id;
          closed = closed;
          buckets = add_watch e p id conn c.buckets;
        };
        attempts = [];
        watch_id = id;
      }
    ]

unfoldable pub remove_and_is_empty : EndpointId → StableConnId → ℕ → Conns → Conns × Bool
unfolding watches_at set_watches drop_bucket remove
remove_and_is_empty e p watch_id c = elim (watches_at e p c.buckets) [
  | none ↦ (c, true)
  | some ids ↦
      let left = remove watch_id ids in
      if is_empty left
      then (record c { buckets = drop_bucket e p c.buckets }, true)
      else (record c { buckets = set_watches e p left c.buckets }, false)
]

abbrev pub attempts_on : StableConnId → ℕ → Reason → List ConnId → List Attempt
attempts_on p code reason =
    map (λ conn. record { conn = conn; pipe = p; code = code; reason = reason })

-- The pipe is remembered, and each connection on it attempted.
unfoldable pub close_pipe : ℕ → StableConnId → ℕ → Reason → Conns → Conns × List Attempt
unfolding prune_closed riding
close_pipe now p code reason c =
    let x : ClosedPipe = record {
      code = code;
      reason = reason;
      closed_at = now;
      seq = c.next_close_seq;
    } in
    (
      record c {
        next_close_seq = (c.next_close_seq + 1) % 2 ^ 64;
        closed = prune_closed now (insert p x c.closed);
      },
      attempts_on p code reason (riding p c.buckets),
    )

unfoldable pub close_evicted_pipes : ℕ → List StableConnId → Conns → Conns × List Attempt
unfolding close_pipe
close_evicted_pipes now [] c = (c, [])
close_evicted_pipes now (p ∷ ps) c =
    let (c', first) = close_pipe now p ble_close_code_retry ble_evicted c in
    let (c'', later) = close_evicted_pipes now ps c' in (c'', first ++ later)
