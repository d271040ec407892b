-- ===== src/Conns/Handle.antt =====
-- `close_if_only_path` of conns.rs. A connection is a number; the addresses of the paths that are open
-- on it, and whether it still is there, are iroh's answer, a parameter.
use iroh_ble_transport.Prelude.{
  Bool, List, Option, any, false, if◌then◌else◌, none, not, some, true, ℕ, ◌==◌,
}
use iroh_ble_transport.Routing.Address.{
  CustomAddrs, ble_transport_id, parse_token_addr, refused, token,
}
use iroh_ble_transport.Routing.Table.{StableConnId}

abbrev pub ConnId : Type 0
ConnId = ℕ

module _ (api : CustomAddrs) where
  -- A remote address: of a custom transport, or of another kind.
  pub data TransportAddr : Type 0 where
    custom : api.CustomAddr → TransportAddr
    another : TransportAddr

  unfoldable pub is_other_path : StableConnId → TransportAddr → Bool
  is_other_path pipe another = true
  is_other_path pipe (custom addr) =
      if api.transport_id addr == ble_transport_id
      then elim (parse_token_addr api addr) [ token t ↦ not (t == pipe) | refused e ↦ true ]
      else true

  module _ (paths : ConnId → Option (List TransportAddr)) where
    -- Whether the connection is closed: it is there, and no path but the pipe is open on it.
    unfoldable pub close_if_only_path : StableConnId → ConnId → Bool
    unfolding is_other_path
    close_if_only_path pipe conn = elim (paths conn) [
      | none ↦ false
      | some addrs ↦ not (any (is_other_path pipe) addrs)
    ]
