-- ===== src/Dedup.antt =====
-- Which of two connections to one peer is kept, crates/iroh-ble-transport/src/transport/dedup.rs.
-- Both sides decide by the order of the endpoint ids, without talking to one another.
use iroh_ble_transport.Prelude.{
  ℕ, ◌≡◌, ◌≢◌, ◌⊎◌, Bool, true, false, not, ◌&&◌, arith, compare, Ordering,
}
use iroh_ble_transport.Peer.{ConnectRole, central, peripheral, EndpointId}

-- Nanoseconds.
abbrev pub fairness_window : ℕ
fairness_window = 800_000_000

abbrev pub fairness_jitter : ℕ
fairness_jitter = 150_000_000

abbrev pub is_central : ConnectRole → Bool
is_central central = true
is_central peripheral = false

unfoldable pub should_win : ConnectRole → EndpointId → EndpointId → Bool
should_win role my_endpoint peer_endpoint = elim (compare my_endpoint peer_endpoint) [
  | Ordering.lt ↦ not (is_central role)
  | Ordering.eq ↦ is_central role
  | Ordering.gt ↦ is_central role
]

unfoldable pub should_dial_l2cap : ConnectRole → EndpointId → EndpointId → Bool
unfolding should_win
should_dial_l2cap role my_endpoint peer_endpoint =
    is_central role && should_win role my_endpoint peer_endpoint

-- The role of the other end of a connection.
abbrev pub opposite : ConnectRole → ConnectRole
opposite central = peripheral
opposite peripheral = central

-- The two ends of a connection between different endpoints reach the same verdict on it, and of two
-- connections dialled in opposite directions exactly one is kept.
pub should_win_agree :
    (role : ConnectRole) (a b : EndpointId)
    → a ≢ b
    → (should_win role a b ≡ should_win (opposite role) b a)
      × (should_win role a b ≡ not (should_win (opposite role) a b))
unfolding should_win
should_win_agree role a b h = ground arith

-- Of the two ends of the connection that is kept exactly one dials the L2CAP channel, and no end of
-- the other connection does.
pub should_dial_l2cap_one :
    (role : ConnectRole) (a b : EndpointId)
    → a ≢ b
    → ((should_win role a b ≡ true)
        × (should_dial_l2cap role a b ≡ not (should_dial_l2cap (opposite role) b a)))
      ⊎ ((should_win role a b ≡ false)
          × (should_dial_l2cap role a b ≡ false)
          × (should_dial_l2cap (opposite role) b a ≡ false))
unfolding should_dial_l2cap
should_dial_l2cap_one role a b h = ground arith
