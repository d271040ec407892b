-- ===== src/Front/Hook.antt =====
-- `BleDedupHook::after_handshake` of hook.rs, with the watcher that it spawns, and `handle_hook_event`
-- of transport.rs. The addresses of a connection's open paths are iroh's answer, an argument.
use iroh_ble_transport.Prelude.{
  Bool, List, Option, [], if◌then◌else◌, leb, length, map, none, some, take, ℕ, ◌++◌, ◌==◌, ◌∷◌,
}
use iroh_ble_transport.Peer.{
  DeviceId, EndpointId, PeerCommand, link_dead, local_close, stalled, verified_endpoint,
}
use iroh_ble_transport.Routing.Address.{
  CustomAddrs, ble_transport_id, parse_token_addr, refused, token,
}
use iroh_ble_transport.Routing.Table.{Reply, Routing, StableConnId, device_for_pipe}
use iroh_ble_transport.Routing.Pools.{evict_pipe_state, evict_routable_if_pipe}
use iroh_ble_transport.Routing.Promotion.{PromoteOutcome, accepted, promote, rejected}
use iroh_ble_transport.Conns.Handle.{ConnId, TransportAddr, another, custom}
use iroh_ble_transport.Conns.Index.{
  Attempt, Conns, Reason, ble_close_code_conflict, ble_conflict, close_evicted_pipes, insert_conn,
  remove_and_is_empty,
}

pub data HookEvent : Type 0 where
  endpoint_verified : EndpointId → Option ℕ → List DeviceId → HookEvent
  connection_closed : EndpointId → StableConnId → HookEvent

-- `AfterHandshakeOutcome`: its `Accept` and its `Reject`.
pub data HandshakeOutcome : Type 0 where
  let_in : HandshakeOutcome
  turn_away : (error_code : ℕ) → Reason → HandshakeOutcome

pub record Handshake : Type 0 where
  pub routing : Routing
  pub conns : Conns
  pub woken : List ℕ
  pub attempts : List Attempt
  pub events : List HookEvent
  pub outcome : HandshakeOutcome
  -- The pipe and the watch id that the watcher hands back.
  pub watch : Option (StableConnId × ℕ)

-- The devices of those pipes that still have one.
unfoldable pub devices_of : List StableConnId → Routing → List DeviceId
unfolding device_for_pipe
devices_of [] r = []
devices_of (id ∷ ids) r =
    let rest = devices_of ids r in elim (device_for_pipe id r) [ none ↦ rest | some d ↦ d ∷ rest ]

-- What follows the promotion.
unfoldable pub after_promotion :
    ℕ → StableConnId → EndpointId → ConnId → Conns → Reply PromoteOutcome → Handshake
unfolding devices_of close_evicted_pipes insert_conn
after_promotion now id remote conn c reply = elim reply.answer [
  | rejected ↦ record {
    routing = reply.routing;
    conns = c;
    woken = reply.woken;
    attempts = [];
    events = endpoint_verified remote (some id) [] ∷ [];
    outcome = turn_away ble_close_code_conflict ble_conflict;
    watch = none;
  }
  | accepted evicted ↦
      let (c', closed) = close_evicted_pipes now evicted c in
      let entered = insert_conn now remote id conn c' in
      record {
        routing = reply.routing;
        conns = entered.conns;
        woken = reply.woken;
        attempts = closed ++ entered.attempts;
        events = endpoint_verified remote (some id) (devices_of evicted reply.routing) ∷ [];
        outcome = let_in;
        watch = some (id, entered.watch_id);
      }
]

-- The watcher, when the connection has closed.
unfoldable pub watcher : EndpointId → StableConnId → ℕ → Conns → Conns × List HookEvent
unfolding remove_and_is_empty
watcher remote id watch_id c =
    let (c', last_one) = remove_and_is_empty remote id watch_id c in
    (c', if last_one then connection_closed remote id ∷ [] else [])

-- What is sent while the inbox takes so many more commands and then is closed.
unfoldable pub send_while : ℕ → List PeerCommand → List PeerCommand × Bool
send_while room cmds = (take room cmds, leb (length cmds) room)

abbrev pub stall_all : List DeviceId → List PeerCommand
stall_all = map (λ d. stalled d link_dead)

-- The routing table after a close that was reported, and the device to drain.
unfoldable pub release : EndpointId → StableConnId → Routing → Reply (Option DeviceId)
unfolding evict_routable_if_pipe device_for_pipe evict_pipe_state
release e id r =
    let out = evict_routable_if_pipe e id r in
    elim out.answer [
      | none ↦ record { routing = out.routing; woken = out.woken; answer = none }
      | some x ↦
          let state = evict_pipe_state id out.routing in
          record {
            routing = state.routing;
            woken = out.woken ++ state.woken;
            answer = device_for_pipe id out.routing;
          }
    ]

abbrev pub close_command : Option DeviceId → List PeerCommand
close_command none = []
close_command (some d) = stalled d local_close ∷ []

-- The commands, and whether all were sent.
unfoldable pub handle_hook_event : ℕ → HookEvent → Routing → Reply (List PeerCommand × Bool)
unfolding send_while release
handle_hook_event room (endpoint_verified e t devices) r = record {
  routing = r;
  woken = [];
  answer = send_while room (stall_all devices ++ verified_endpoint e t ∷ []);
}
handle_hook_event room (connection_closed e id) r =
    let out = release e id r in
    record {
      routing = out.routing;
      woken = out.woken;
      answer = send_while room (close_command out.answer);
    }

module _ (api : CustomAddrs) where
  -- The first address of this transport that is read as a token.
  unfoldable pub token_of : List (TransportAddr api) → Option ℕ
  unfolding parse_token_addr
  token_of [] = none
  token_of (another ∷ addrs) = token_of addrs
  token_of (custom addr ∷ addrs) =
      let rest = token_of addrs in
      if api.transport_id addr == ble_transport_id
      then elim (parse_token_addr api addr) [ token t ↦ some t | refused e ↦ rest ]
      else rest

  unfoldable pub after_handshake :
      ℕ → EndpointId → EndpointId → ConnId → List (TransportAddr api) → Routing → Conns → Handshake
  unfolding token_of promote after_promotion
  after_handshake now self remote conn addrs r c = elim (token_of addrs) [
    | some id ↦ after_promotion now id remote conn c (promote now id self remote r)
    | none ↦ record {
      routing = r;
      conns = c;
      woken = [];
      attempts = [];
      events = endpoint_verified remote none [] ∷ [];
      outcome = let_in;
      watch = none;
    }
  ]
