-- ===== src/Routing/Hints.antt =====
-- Scan hints and parked resolvers: `note_scan_hint` and its look-ups, `register_endpoint_waker` and
-- `wake_endpoint_waiters` of routing.rs.
use iroh_ble_transport.Prelude.{
  List, Map, Option, [], any, find_key, find_value, get, if◌then◌else◌, insert, none, not, remove,
  some, ℕ, ◌++◌, ◌==◌, ◌∷◌,
}
use iroh_ble_transport.Peer.{DeviceId, EndpointId, KeyPrefix, prefix_from_endpoint}
use iroh_ble_transport.Routing.Table.{Reply, Routable, Routing, device_for_pipe}

unfoldable pub opt_waiters : Option (List ℕ) → List ℕ
opt_waiters none = []
opt_waiters (some ws) = ws

unfoldable pub wake_endpoint_waiters : EndpointId → Routing → Routing × List ℕ
unfolding opt_waiters
wake_endpoint_waiters endpoint_id r = (
  record r { endpoint_wakers = remove endpoint_id r.endpoint_wakers },
  opt_waiters (get endpoint_id r.endpoint_wakers),
)

-- Each waker once.
unfoldable pub register_endpoint_waker : EndpointId → ℕ → Routing → Routing
unfolding opt_waiters
register_endpoint_waker endpoint_id waker r =
    let list = opt_waiters (get endpoint_id r.endpoint_wakers) in
    let list' = if any (λ w. w == waker) list then list else list ++ waker ∷ [] in
    record r { endpoint_wakers = insert endpoint_id list' r.endpoint_wakers }

-- The endpoints with the prefix that somebody waits for.
unfoldable pub waited_for : KeyPrefix → Map (List ℕ) → List EndpointId
waited_for prefix [] = []
waited_for prefix ((endpoint_id, ws) ∷ m) =
    let rest = waited_for prefix m in
    if prefix_from_endpoint endpoint_id == prefix then endpoint_id ∷ rest else rest

unfoldable pub wake_all : List EndpointId → Routing → Routing × List ℕ
unfolding wake_endpoint_waiters
wake_all [] r = (r, [])
wake_all (e ∷ es) r =
    let (r', woken) = wake_endpoint_waiters e r in
    let (r'', later) = wake_all es r' in (r'', woken ++ later)

unfoldable pub wake_endpoint_waiters_for_prefix : KeyPrefix → Routing → Routing × List ℕ
unfolding waited_for wake_all
wake_endpoint_waiters_for_prefix prefix r = wake_all (waited_for prefix r.endpoint_wakers) r

pub data ScanHintUpdate : Type 0 where
  new_hint unchanged_hint : ScanHintUpdate
  replaced actively_bound : DeviceId → ScanHintUpdate

-- The device of the pipe that the prefix is routable over.
unfoldable pub bound_device : KeyPrefix → Routing → Option DeviceId
unfolding device_for_pipe
bound_device prefix r =
    elim (find_value (λ (x : Routable). prefix_from_endpoint x.endpoint_id == prefix) r.routable) [
      | none ↦ none
      | some x ↦ device_for_pipe x.pipe r
    ]

-- The hint is written, and whoever waits for the prefix is woken if it is news.
unfoldable pub write_hint : KeyPrefix → DeviceId → Routing → Reply ScanHintUpdate
unfolding wake_endpoint_waiters_for_prefix
write_hint prefix device r =
    let r' = record r { scan_hint = insert prefix device r.scan_hint } in
    let (r'', woken) = wake_endpoint_waiters_for_prefix prefix r' in
    elim (get prefix r.scan_hint) [
      | none ↦ record { routing = r''; woken = woken; answer = new_hint }
      | some prev ↦
          if prev == device
          then record { routing = r'; woken = []; answer = unchanged_hint }
          else record { routing = r''; woken = woken; answer = replaced prev }
    ]

unfoldable pub note_scan_hint : KeyPrefix → DeviceId → Routing → Reply ScanHintUpdate
unfolding bound_device write_hint
note_scan_hint prefix device r = elim (bound_device prefix r) [
  | none ↦ write_hint prefix device r
  | some bound ↦
      if not (bound == device)
      then record { routing = r; woken = []; answer = actively_bound bound }
      else write_hint prefix device r
]

unfoldable pub forget_scan_hint : KeyPrefix → Routing → Routing
forget_scan_hint prefix r = record r { scan_hint = remove prefix r.scan_hint }

unfoldable pub scan_hint_for_prefix : KeyPrefix → Routing → Option DeviceId
scan_hint_for_prefix prefix r = get prefix r.scan_hint

unfoldable pub prefix_for_device : DeviceId → Routing → Option KeyPrefix
prefix_for_device device r = find_key (λ d. d == device) r.scan_hint

-- The routable pipe's device, or the hinted one.
unfoldable pub device_for_endpoint : EndpointId → Routing → Option DeviceId
unfolding device_for_pipe
device_for_endpoint endpoint_id r =
    let hinted = get (prefix_from_endpoint endpoint_id) r.scan_hint in
    elim (get endpoint_id r.routable) [
      | none ↦ hinted
      | some x ↦ elim (device_for_pipe x.pipe r) [ none ↦ hinted | some d ↦ some d ]
    ]
