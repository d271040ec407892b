-- ===== src/Registry/State.antt =====
-- The registry's own state, and how a handler reaches an entry of the map. A `HashMap` is an
-- association list; its order stands for the order in which the source happens to iterate.
use iroh_ble_transport.Prelude.{
  retain, refl, ◌⊎◌, inl, inr, ℕ, suc, ◌≡◌, Bool, true, false, not, ◌&&◌, none, some, List, [], ◌∷◌,
  ◌++◌, Map, get, insert, opt_eq, if◌then◌else◌,
}
use iroh_ble_transport.Peer.{PeerEntry, DeviceId, EndpointId, prefix_from_endpoint}
use iroh_ble_transport.Registry.Step.{Effect, Step, is_dead}
use iroh_ble_transport.Registry.Entry.{new_entry}

pub data L2capPolicy : Type 0 where
  disabled prefer_l2cap : L2capPolicy

pub policy_cases : (p : L2capPolicy) → (p ≡ disabled) ⊎ (p ≡ prefer_l2cap)
policy_cases disabled = inl refl
policy_cases prefer_l2cap = inr refl

pub data BleAdapterState : Type 0 where
  powered_on powered_off : BleAdapterState

pub record Registry : Type 0 where
  pub peers : Map PeerEntry
  pub next_lifecycle : ℕ
  pub l2cap_policy : L2capPolicy
  pub verified_prefixes : Map EndpointId
  pub my_endpoint : EndpointId
  pub adapter_state : BleAdapterState

-- `my_prefix` of the source is a function of `my_endpoint`.
unfoldable pub my_prefix : Registry → ℕ
unfolding prefix_from_endpoint
my_prefix r = prefix_from_endpoint r.my_endpoint

unfoldable pub new : L2capPolicy → EndpointId → Registry
new policy my_endpoint = record {
  peers = [];
  next_lifecycle = 1;
  l2cap_policy = policy;
  verified_prefixes = [];
  my_endpoint = my_endpoint;
  adapter_state = powered_on;
}

-- The builder's; the watch itself is an output of the loop.
unfoldable pub with_adapter_state_tx : BleAdapterState → Registry → Registry
with_adapter_state_tx current r = record r { adapter_state = current }

pub record Outcome : Type 0 where
  pub registry : Registry
  pub effects : List Effect

abbrev pub unchanged : Registry → Outcome
unchanged r = record { registry = r; effects = [] }

abbrev pub store : DeviceId → Step → Registry → Outcome
store device_id s r = record {
  registry = record r { peers = insert device_id s.entry r.peers; next_lifecycle = s.next };
  effects = s.effects;
}

-- `get_mut`, returning where the peer is not known.
unfoldable pub with_entry : DeviceId → (ℕ → PeerEntry → Step) → Registry → Outcome
with_entry device_id f r = elim (get device_id r.peers) [
  | none ↦ unchanged r
  | some e ↦ store device_id (f r.next_lifecycle e) r
]

-- `entry().or_insert_with(new_entry)`.
unfoldable pub with_new_entry : DeviceId → (ℕ → PeerEntry → Step) → Registry → Outcome
unfolding new_entry
with_new_entry device_id f r = elim (get device_id r.peers) [
  | none ↦ store device_id (f (suc r.next_lifecycle) (new_entry r.next_lifecycle device_id)) r
  | some e ↦ store device_id (f r.next_lifecycle e) r
]

-- A loop over some devices, `get_mut` in each round.
unfoldable pub for_each : List DeviceId → (ℕ → PeerEntry → Step) → Registry → Outcome
for_each [] f r = unchanged r
for_each (d ∷ ds) f r =
    let o = with_entry d f r in
    let rest = for_each ds f o.registry in
    record { registry = rest.registry; effects = o.effects ++ rest.effects }

pub record Sweep : Type 0 where
  pub next : ℕ
  pub peers : Map PeerEntry
  pub effects : List Effect

-- A loop over `values_mut`.
unfoldable pub sweep : (ℕ → PeerEntry → Step) → ℕ → Map PeerEntry → Sweep
sweep f next [] = record { next = next; peers = []; effects = [] }
sweep f next ((d, e) ∷ m) =
    let s = f next e in
    let rest = sweep f s.next m in
    record {
      next = rest.next;
      peers = (d, s.entry) ∷ rest.peers;
      effects = s.effects ++ rest.effects;
    }

unfoldable pub sweep_all : (ℕ → PeerEntry → Step) → Registry → Outcome
unfolding sweep
sweep_all f r =
    let s = sweep f r.next_lifecycle r.peers in
    record { registry = record r { peers = s.peers; next_lifecycle = s.next }; effects = s.effects }

-- The devices whose entry passes a test, in the map's order.
unfoldable pub select : (PeerEntry → Bool) → Map PeerEntry → List DeviceId
select p [] = []
select p ((d, e) ∷ m) = if p e then d ∷ select p m else select p m

unfoldable pub any_entry : (PeerEntry → Bool) → Map PeerEntry → Bool
any_entry p [] = false
any_entry p ((d, e) ∷ m) = if p e then true else any_entry p m

-- A peer of that endpoint that is not dead keeps its prefix verified.
abbrev pub vouches : EndpointId → PeerEntry → Bool
vouches endpoint e = opt_eq e.verified_endpoint (some endpoint) && not (is_dead e.phase)

unfoldable pub prune_verified_prefixes : Registry → Registry
unfolding retain any_entry
prune_verified_prefixes r = record r {
  verified_prefixes = retain (λ v. any_entry (vouches v) r.peers) r.verified_prefixes;
}

abbrev pub pruned : Outcome → Outcome
pruned o = record { registry = prune_verified_prefixes o.registry; effects = o.effects }
