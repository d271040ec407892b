-- ===== src/Conns/Buckets.antt =====
-- `WatchedConns` by endpoint and pipe: the `buckets` of conns.rs, as a list in the order of iteration.
use iroh_ble_transport.Prelude.{
  Bool, List, Map, Option, [], if◌then◌else◌, insert, none, some, ℕ, ◌&&◌, ◌++◌, ◌==◌, ◌∷◌,
}
use iroh_ble_transport.Peer.{EndpointId}
use iroh_ble_transport.Conns.Handle.{ConnId}
use iroh_ble_transport.Routing.Table.{StableConnId}

pub record Bucket : Type 0 where
  pub endpoint_id : EndpointId
  pub stable_id : StableConnId
  -- By watch id.
  pub watches : Map ConnId

abbrev pub is_at : EndpointId → StableConnId → Bucket → Bool
is_at e p b = b.endpoint_id == e && b.stable_id == p

unfoldable pub watches_at : EndpointId → StableConnId → List Bucket → Option (Map ConnId)
watches_at e p [] = none
watches_at e p (b ∷ bs) = if is_at e p b then some b.watches else watches_at e p bs

-- `entry(..).or_default().insert(id, handle)`
unfoldable pub add_watch : EndpointId → StableConnId → ℕ → ConnId → List Bucket → List Bucket
unfolding insert
add_watch e p id conn [] = record { endpoint_id = e; stable_id = p; watches = (id, conn) ∷ [] } ∷ []
add_watch e p id conn (b ∷ bs) =
    if is_at e p b
    then record b { watches = insert id conn b.watches } ∷ bs
    else b ∷ add_watch e p id conn bs

unfoldable pub set_watches : EndpointId → StableConnId → Map ConnId → List Bucket → List Bucket
set_watches e p ws [] = []
set_watches e p ws (b ∷ bs) =
    if is_at e p b then record b { watches = ws } ∷ bs else b ∷ set_watches e p ws bs

unfoldable pub drop_bucket : EndpointId → StableConnId → List Bucket → List Bucket
drop_bucket e p [] = []
drop_bucket e p (b ∷ bs) = if is_at e p b then drop_bucket e p bs else b ∷ drop_bucket e p bs

unfoldable pub values {ℓ} : {V : Type ℓ} → Map V → List V
values [] = []
values ((k, v) ∷ m) = v ∷ values m

-- The connections on a pipe, whoever authenticated over it.
unfoldable pub riding : StableConnId → List Bucket → List ConnId
unfolding values
riding p [] = []
riding p (b ∷ bs) =
    let rest = riding p bs in if b.stable_id == p then values b.watches ++ rest else rest
