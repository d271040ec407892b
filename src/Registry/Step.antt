-- ===== src/Registry/Step.antt =====
-- What a transition of one peer's entry is made of (registry.rs hands `&mut next_lifecycle`,
-- `&mut entry` and `&mut actions` on; here they are returned).
use iroh_ble_transport.Prelude.{ℕ, Option, none, some, List, map, Bool, true, false}
use iroh_ble_transport.Peer.{
  PeerEntry, PeerAction, PendingSend, PeerPhase, SendResult, ack_send, connected, ChannelHandle,
  handshaking, dead, connecting,
}

-- What `try_send` on a `tokio` channel answers.
pub data TrySend : Type 0 where
  sent full closed : TrySend

-- What a command reads from outside: the two clocks, the liveness clock of each pipe, and the
-- answer to each `try_send`, counted from the start of the command. A channel's capacity and its
-- receiver belong to other tasks, so any answers are possible.
pub record Env : Type 0 where
  pub now : ℕ
  pub wall : ℕ
  pub last_rx : ℕ → ℕ
  pub try_send : ℕ → TrySend

-- An action for the driver, or a message that a `try_send` has handed to a pipe.
pub data Effect : Type 0 where
  act : PeerAction → Effect
  outbound : ℕ → PendingSend → Effect
  inbound : ℕ → List ℕ → Effect

pub record Step : Type 0 where
  pub next : ℕ
  pub entry : PeerEntry
  pub effects : List Effect

-- The answer to each of the sends.
abbrev pub answer_all : SendResult → List PendingSend → List Effect
answer_all result = map λ (s : PendingSend). act (ack_send s.tx_gen s.waker result)

abbrev pub is_connected : PeerPhase → Bool
is_connected (connected since ch gen up) = true
is_connected _ = false

abbrev pub is_connecting : PeerPhase → Bool
is_connecting (connecting attempt started path) = true
is_connecting _ = false

abbrev pub is_dead : PeerPhase → Bool
is_dead (dead reason at) = true
is_dead _ = false

-- The channel of a `Connected` or `Handshaking` peer.
abbrev pub live_channel : PeerPhase → Option ChannelHandle
live_channel (connected since ch gen up) = some ch
live_channel (handshaking since ch) = some ch
live_channel _ = none
