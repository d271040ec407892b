-- ===== src/Registry/Sending.antt =====
-- Datagrams on their way out: `handle_send_datagram` and `handle_data_pipe_ready` of registry.rs.
use iroh_ble_transport.Prelude.{
  ℕ, suc, Bool, true, false, Option, none, some, List, [], ◌∷◌, ◌++◌, ◌==◌, if◌then◌else◌,
}
use iroh_ble_transport.Peer.{
  PeerEntry, PeerPhase, PendingSend, PipeHandles, EndpointId, SendResult, ok, would_block, ack_send,
  connected, discovered, draining, dead,
}
use iroh_ble_transport.Registry.Step.{Env, Effect, act, outbound, inbound, Step, sent, full, closed}
use iroh_ble_transport.Registry.Entry.{begin_connect}

pub data SendDecision : Type 0 where
  enqueue reject buffer start_and_enqueue : SendDecision

unfoldable pub send_decision : PeerPhase → Bool → ℕ → SendDecision
send_decision (connected since ch live_gen up) resume tx_gen =
    if tx_gen == live_gen then enqueue else reject
send_decision (discovered since) resume tx_gen = start_and_enqueue
send_decision (draining since reason) resume tx_gen = if resume then buffer else reject
send_decision (dead reason at) resume tx_gen = reject
send_decision _ resume tx_gen = buffer

-- What a run of `try_send` leaves: the sends not accepted, the number of tries, and whether the
-- channel was found closed.
pub record Flush {ℓ} (A : Type ℓ) : Type ℓ where
  pub left : List A
  pub tries : ℕ
  pub broken : Bool
  pub effects : List Effect

-- Oldest first, until the pipe refuses; what it refuses goes back to the front.
unfoldable pub flush_sends : Env → ℕ → ℕ → List PendingSend → Flush PendingSend
flush_sends env i tx [] = record { left = []; tries = i; broken = false; effects = [] }
flush_sends env i tx (s ∷ ss) =
    let rest = flush_sends env (suc i) tx ss in
    elim (env.try_send i) [
      | sent ↦ record rest { effects = outbound tx s ∷ rest.effects }
      | full ↦ record { left = s ∷ ss; tries = suc i; broken = false; effects = [] }
      | closed ↦ record { left = s ∷ ss; tries = suc i; broken = true; effects = [] }
    ]

-- The fragments that came before the pipe; one that is refused is dropped.
unfoldable pub flush_backlog : Env → ℕ → ℕ → List (List ℕ) → Flush (List ℕ)
flush_backlog env i tx [] = record { left = []; tries = i; broken = false; effects = [] }
flush_backlog env i tx (b ∷ bs) =
    let rest = flush_backlog env (suc i) tx bs in
    elim (env.try_send i) [
      | sent ↦ record rest { effects = inbound tx b ∷ rest.effects }
      | full ↦ record { left = bs; tries = suc i; broken = false; effects = [] }
      | closed ↦ record { left = bs; tries = suc i; broken = true; effects = [] }
    ]

abbrev answer : PendingSend → SendResult → Effect
answer s result = act (ack_send s.tx_gen s.waker result)

-- The last step of `Enqueue`: the new datagram, after the buffered ones.
unfoldable pub send_now : Env → ℕ → PendingSend → ℕ → PeerEntry → Step
send_now env i s next e = elim e.pipe [
  | none ↦ record {
    next = next;
    entry = record e { pending_sends = e.pending_sends ++ s ∷ [] };
    effects = [];
  }
  | some pipe ↦ elim (env.try_send i) [
    | sent ↦ record {
      next = next;
      entry = e;
      effects = outbound pipe.outbound_tx s ∷ answer s ok ∷ [];
    }
    | full ↦ record { next = next; entry = e; effects = answer s would_block ∷ [] }
    | closed ↦ record {
      next = next;
      entry = record e { pipe = none; pending_sends = e.pending_sends ++ s ∷ [] };
      effects = answer s ok ∷ [];
    }
  ]
]

unfoldable pub enqueue_send : Env → PendingSend → ℕ → PeerEntry → Step
unfolding flush_sends send_now
enqueue_send env s next e = elim e.pipe [
  | none ↦ send_now env 0 s next e
  | some pipe ↦
      let f = flush_sends env 0 pipe.outbound_tx e.pending_sends in
      let t =
        send_now env f.tries s next
          (record e { pending_sends = f.left; pipe = if f.broken then none else some pipe }) in
      record { next = t.next; entry = t.entry; effects = f.effects ++ t.effects }
]

abbrev aim : Option EndpointId → PeerEntry → PeerEntry
aim none e = e
aim (some target) e = record e { target_endpoint = some target }

unfoldable pub decided : Env → SendDecision → Option EndpointId → PendingSend → ℕ → PeerEntry → Step
unfolding enqueue_send begin_connect
decided env enqueue target s next e = enqueue_send env s next e
decided env reject target s next e = record {
  next = next;
  entry = e;
  effects = answer s would_block ∷ [];
}
decided env buffer target s next e =
    let e' = aim target e in
    record {
      next = next;
      entry = record e' { pending_sends = e.pending_sends ++ s ∷ [] };
      effects = answer s ok ∷ [];
    }
decided env start_and_enqueue target s next e =
    let e' = aim target e in
    begin_connect env 0 next (record e' { pending_sends = e.pending_sends ++ s ∷ [] })

unfoldable pub handle_send_datagram : Env → Option EndpointId → PendingSend → ℕ → PeerEntry → Step
unfolding decided send_decision
handle_send_datagram env target s next e =
    decided env (send_decision e.phase e.resume_after_drain s.tx_gen) target s next e

unfoldable pub handle_data_pipe_ready : Env → ℕ → PipeHandles → ℕ → PeerEntry → Step
unfolding flush_sends flush_backlog
handle_data_pipe_ready env tx_gen pipe next e =
    let b = flush_backlog env 0 pipe.inbound_tx e.rx_backlog in
    let f = flush_sends env b.tries pipe.outbound_tx e.pending_sends in
    if e.tx_gen == tx_gen
    then record {
      next = next;
      entry = record e {
        rx_backlog = b.left;
        pending_sends = f.left;
        pipe = some pipe;
        target_endpoint = none;
      };
      effects = b.effects ++ f.effects;
    }
    else record { next = next; entry = e; effects = [] }
