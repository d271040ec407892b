-- ===== src/Registry/Verified.antt =====
-- Identity of a peer: `handle_verified_endpoint`, `handle_advertised` and
-- `handle_peripheral_client_subscribed` of registry.rs.
use iroh_ble_transport.Prelude.{
  ℕ, Bool, true, false, not, ◌&&◌, ◌||◌, Option, none, some, List, [], ◌∷◌, ◌++◌, ltb, leb, ◌==◌,
  opt_eq, if◌then◌else◌, is_empty, is_some, any, length, Map, get, insert,
}
use iroh_ble_transport.Peer.{
  PeerEntry, PeerPhase, DisconnectReason, DeadReason, EndpointId, KeyPrefix, DeviceId,
  prefix_from_endpoint, unknown, discovered, pending_dial, connecting, handshaking, connected,
  reconnecting, dead, ConnectPath, gatt, l2cap,
}
use iroh_ble_transport.Dedup.{is_central, should_win}
use iroh_ble_transport.Registry.Step.{Env, Step, is_connected}
use iroh_ble_transport.Registry.Entry.{
  begin_connect, arm_for_dial, clear_connection_state, drain_to_draining,
  restart_peripheral_gatt_pipe,
}
use iroh_ble_transport.Registry.State.{
  Registry, Outcome, prefer_l2cap, disabled, unchanged, with_entry, with_new_entry, for_each,
  select, any_entry, my_prefix, sweep_all,
}
use iroh_ble_transport.Registry.Connecting.{
  stay, should_emit_l2cap_upgrade, connected_count, begin_upgrade,
}

abbrev pub has_prefix : KeyPrefix → PeerEntry → Bool
has_prefix prefix e = opt_eq e.prefix (some prefix)

-- A connected peer of that prefix.
abbrev pub is_candidate : KeyPrefix → PeerEntry → Bool
is_candidate prefix e = has_prefix prefix e && is_connected e.phase

unfoldable pub verify : ℕ → EndpointId → PeerEntry → PeerEntry
verify now endpoint e = record e { verified_endpoint = some endpoint; verified_at = some now }

-- The device that the handshake came in on, if it is known.
unfoldable pub stamp_exact :
    ℕ → KeyPrefix → EndpointId → Option DeviceId → Map PeerEntry → Map PeerEntry
unfolding verify
stamp_exact now prefix endpoint none m = m
stamp_exact now prefix endpoint (some d) m = elim (get d m) [
  | none ↦ m
  | some e ↦ insert d (record (verify now endpoint e) { prefix = some prefix }) m
]

-- Every entry with the prefix.
unfoldable pub stamp : ℕ → KeyPrefix → EndpointId → ℕ → PeerEntry → Step
unfolding verify
stamp now prefix endpoint next e =
    stay next (if has_prefix prefix e then verify now endpoint e else e)

abbrev pub waits_for : KeyPrefix → PeerPhase → Bool
waits_for prefix (pending_dial since deadline p) = p == prefix
waits_for prefix other = false

-- The first candidate with the role that survives.
unfoldable pub find_winner :
    EndpointId → EndpointId → Map PeerEntry → List DeviceId → Option DeviceId
find_winner my peer m [] = none
find_winner my peer m (d ∷ ds) = elim (get d m) [
  | none ↦ find_winner my peer m ds
  | some e ↦ if should_win e.role my peer then some d else find_winner my peer m ds
]

abbrev pub connected_since : ℕ → PeerPhase → ℕ
connected_since now (connected since ch gen up) = since
connected_since now other = now

abbrev pub since_of : ℕ → Map PeerEntry → DeviceId → ℕ
since_of now m d = elim (get d m) [ none ↦ now | some e ↦ connected_since now e.phase ]

-- `max_by_key` over (since, device id): the later one of two, and of equals the larger id.
unfoldable pub later_of : ℕ → Map PeerEntry → DeviceId → DeviceId → DeviceId
later_of now m a b =
    if ltb (since_of now m b) (since_of now m a)
    then a
    else if ltb (since_of now m a) (since_of now m b)
    then b
    else if leb a b
    then b
    else a

unfoldable pub latest : ℕ → Map PeerEntry → DeviceId → List DeviceId → DeviceId
unfolding later_of
latest now m best [] = best
latest now m best (d ∷ ds) = latest now m (later_of now m best d) ds

-- The candidate that is kept.
unfoldable pub winner_of :
    ℕ → EndpointId → EndpointId → Map PeerEntry → List DeviceId → Option DeviceId
unfolding find_winner latest
winner_of now my peer m [] = none
winner_of now my peer m (d ∷ ds) = elim (find_winner my peer m (d ∷ ds)) [
  | none ↦ some (latest now m d ds)
  | some w ↦ some w
]

unfoldable pub others : Option DeviceId → List DeviceId → List DeviceId
others w [] = []
others w (d ∷ ds) = if opt_eq (some d) w then others w ds else d ∷ others w ds

-- With two candidates or more all but the winner are drained.
unfoldable pub dedup : Env → KeyPrefix → EndpointId → Registry → Outcome
unfolding winner_of others select for_each drain_to_draining
dedup env prefix endpoint r =
    let candidates = select (is_candidate prefix) r.peers in
    if leb 2 (length candidates)
    then for_each (others (winner_of env.now r.my_endpoint endpoint r.peers candidates) candidates)
        (drain_to_draining env DisconnectReason.dedup_loser) r
    else unchanged r

abbrev is_gatt : ConnectPath → Bool
is_gatt gatt = true
is_gatt l2cap = false

-- A GATT connection that no upgrade is under way for.
abbrev is_plain_gatt : PeerPhase → Bool
is_plain_gatt (connected since ch gen up) = not up && is_gatt ch.path
is_plain_gatt other = false

abbrev pub to_upgrade : ℕ → KeyPrefix → EndpointId → EndpointId → PeerEntry → Bool
to_upgrade connected_for_prefix prefix my peer e =
    has_prefix prefix e
    && (not e.l2cap_upgrade_failed
        && (should_emit_l2cap_upgrade connected_for_prefix e.role my peer && is_plain_gatt e.phase))

unfoldable pub upgrade_winner : KeyPrefix → EndpointId → Registry → Outcome
unfolding connected_count select for_each begin_upgrade
upgrade_winner prefix endpoint r =
    let n = connected_count prefix r.peers in
    let chosen = select (to_upgrade n prefix r.my_endpoint endpoint) r.peers in
    elim r.l2cap_policy [ disabled ↦ unchanged r | prefer_l2cap ↦ for_each chosen begin_upgrade r ]

-- What the command records before it arbitrates.
unfoldable pub note_verified : Env → EndpointId → Option DeviceId → Registry → Registry
unfolding stamp_exact stamp sweep_all
note_verified env endpoint exact r =
    let prefix = prefix_from_endpoint endpoint in
    let o = sweep_all (stamp env.now prefix endpoint) (record r {
      verified_prefixes = insert prefix endpoint r.verified_prefixes;
      peers = stamp_exact env.now prefix endpoint exact r.peers;
    }) in
    o.registry

unfoldable pub cancel_dials : Env → KeyPrefix → Registry → Outcome
unfolding select for_each drain_to_draining
cancel_dials env prefix r =
    for_each (select (λ e. waits_for prefix e.phase) r.peers)
      (drain_to_draining env DisconnectReason.dedup_loser) r

unfoldable pub handle_verified_endpoint : Env → EndpointId → Option DeviceId → Registry → Outcome
unfolding note_verified cancel_dials dedup upgrade_winner
handle_verified_endpoint env endpoint exact r =
    let prefix = prefix_from_endpoint endpoint in
    let a = cancel_dials env prefix (note_verified env endpoint exact r) in
    let b = dedup env prefix endpoint a.registry in
    let c = upgrade_winner prefix endpoint b.registry in
    record { registry = c.registry; effects = a.effects ++ (b.effects ++ c.effects) }

abbrev pub is_verified_for : KeyPrefix → PeerEntry → Bool
is_verified_for prefix e = elim e.verified_endpoint [
  | none ↦ false
  | some endpoint ↦ prefix_from_endpoint endpoint == prefix
]

-- What an advertisement does to a peer that no live connection makes redundant.
advertise_in : PeerPhase → Env → Option KeyPrefix → ℕ → PeerEntry → Step
unfolding arm_for_dial begin_connect clear_connection_state
advertise_in unknown env defer next e = arm_for_dial env defer next e
advertise_in (discovered since) env defer next e =
    if is_empty e.pending_sends then stay next e else arm_for_dial env defer next e
advertise_in (dead DeadReason.max_retries at) env defer next e =
    let s = clear_connection_state next e in
    let t = arm_for_dial env defer s.next s.entry in record t { effects = s.effects ++ t.effects }
advertise_in (dead DeadReason.drained at) env defer next e =
    let s = clear_connection_state next e in
    let t = arm_for_dial env defer s.next s.entry in record t { effects = s.effects ++ t.effects }
advertise_in (reconnecting attempt next_at reason) env defer next e =
    if leb next_at env.now then begin_connect env attempt next e else stay next e
advertise_in other env defer next e = stay next e

unfoldable pub advertise : Env → KeyPrefix → Bool → ℕ → PeerEntry → Step
unfolding advertise_in
advertise env prefix should_defer next e =
    advertise_in e.phase env (if should_defer then some prefix else none) next (record e {
      last_adv = some env.now;
      prefix = some prefix;
      verified_live_suppressed_logged = false;
    })

abbrev comes_back : PeerPhase → Bool
comes_back (dead DeadReason.max_retries at) = true
comes_back (dead DeadReason.drained at) = true
comes_back other = false

-- A peer that comes back from the dead brings its verified identity with it.
abbrev pub restore_verified : KeyPrefix → Option PeerEntry → Registry → Registry
restore_verified prefix none r = r
restore_verified prefix (some e) r = elim e.verified_endpoint [
  | none ↦ r
  | some endpoint ↦
      if comes_back e.phase && (prefix_from_endpoint endpoint == prefix)
      then record r { verified_prefixes = insert prefix endpoint r.verified_prefixes }
      else r
]

abbrev pub suppress : Env → KeyPrefix → ℕ → PeerEntry → Step
suppress env prefix next e = stay next (record e {
  last_adv = some env.now;
  prefix = some prefix;
  verified_live_suppressed_logged = true;
})

unfoldable pub handle_advertised : Env → KeyPrefix → DeviceId → Registry → Outcome
unfolding advertise with_entry with_new_entry any_entry my_prefix
handle_advertised env prefix device_id r =
    let verified_before = any_entry (is_verified_for prefix) r.peers in
    let has_verified_live =
      any_entry (λ e. is_verified_for prefix e && is_connected e.phase) r.peers in
    let already_verified_peer = verified_before || is_some (get prefix r.verified_prefixes) in
    let should_defer = ltb (my_prefix r) prefix && not already_verified_peer in
    let o = with_new_entry device_id (advertise env prefix should_defer) r in
    if has_verified_live
    then with_entry device_id (suppress env prefix) r
    else record o { registry = restore_verified prefix (get device_id r.peers) o.registry }

unfoldable pub set_insert : ℕ → List ℕ → List ℕ
set_insert x xs = if any (λ y. y == x) xs then xs else x ∷ xs

abbrev is_mid_dial : PeerPhase → Bool
is_mid_dial (connecting attempt started path) = true
is_mid_dial (handshaking since ch) = true
is_mid_dial other = false

abbrev is_gatt_connection : PeerPhase → Bool
is_gatt_connection (connected since ch gen up) = is_gatt ch.path
is_gatt_connection other = false

abbrev note_prefix : Option KeyPrefix → PeerEntry → PeerEntry
note_prefix none e = e
note_prefix (some p) e = record e { prefix = some p }

abbrev note_identity : ℕ → Option EndpointId → PeerEntry → PeerEntry
note_identity now none e = e
note_identity now (some endpoint) e = elim e.verified_endpoint [
  | none ↦ record e { verified_endpoint = some endpoint; verified_at = some now }
  | some old ↦ e
]

unfoldable pub subscribe : Env → ℕ → Option KeyPrefix → Option EndpointId → ℕ → PeerEntry → Step
unfolding restart_peripheral_gatt_pipe set_insert
subscribe env char_uuid prefix verified next e =
    let noted = note_identity env.now verified (note_prefix prefix e) in
    let e' = record noted { subscribed_chars = set_insert char_uuid e.subscribed_chars } in
    if (is_gatt_connection e.phase && not (is_central e.role)) || is_mid_dial e.phase
    then stay next e'
    else restart_peripheral_gatt_pipe env none (some char_uuid) next e'

unfoldable pub handle_peripheral_client_subscribed :
    Env → DeviceId → ℕ → Option KeyPrefix → Registry → Outcome
unfolding subscribe with_new_entry
handle_peripheral_client_subscribed env client_id char_uuid prefix r =
    let verified : Option EndpointId = elim prefix [
      | none ↦ none
      | some p ↦ get p r.verified_prefixes
    ] in
    with_new_entry client_id (subscribe env char_uuid prefix verified) r
