-- ===== src/Pipe/Supervisor.antt =====
-- The select loop of a pipe: `run_data_pipe`, `forward_outbound` and `forward_inbound_gatt` of pipe.rs. A
-- worker is there or is not; what it does with a datagram is modelled by the reliable channel and the
-- L2CAP framing.
use iroh_ble_transport.Prelude.{Bool, List, [], false, if◌then◌else◌, not, true, ℕ, ◌&&◌, ◌++◌, ◌∷◌}
use iroh_ble_transport.Peer.{PendingSend}

-- Which paths have a worker.
pub record WorkerSet : Type 0 where
  pub gatt : Bool
  pub l2cap : Bool

unfoldable pub is_gone : WorkerSet → Bool
is_gone w = not w.gatt && not w.l2cap

-- What `send_timeout` and `try_send` answer.
pub data SendTimeout : Type 0 where
  in_time timed_out hung_up : SendTimeout

pub data TryForward : Type 0 where
  passed is_full is_closed : TryForward

pub data PipeEffect : Type 0 where
  to_l2cap to_gatt wake : PendingSend → PipeEffect
  fragment_to_gatt : List ℕ → PipeEffect
  teardown_l2cap report_handover_timeout : PipeEffect
  spawn_l2cap : (channel : ℕ) → PipeEffect

-- The datagram on the GATT path, which does not block.
unfoldable pub forward_gatt : PendingSend → TryForward → WorkerSet → WorkerSet × List PipeEffect
forward_gatt send answer w =
    if w.gatt
    then elim answer [
      | passed ↦ (w, to_gatt send ∷ [])
      | is_closed ↦ (record w { gatt = false }, wake send ∷ [])
      | is_full ↦ (w, wake send ∷ [])
    ]
    else (w, wake send ∷ [])

-- The L2CAP path goes, and the datagram falls through to the other one.
unfoldable pub fall_back :
    PendingSend → TryForward → List PipeEffect → WorkerSet → WorkerSet × List PipeEffect
unfolding forward_gatt
fall_back send answer effects w =
    let (w', more) = forward_gatt send answer (record w { l2cap = false }) in (w', effects ++ more)

unfoldable pub forward_outbound :
    PendingSend → SendTimeout → TryForward → WorkerSet → WorkerSet × List PipeEffect
unfolding forward_gatt fall_back
forward_outbound send l2cap_answer gatt_answer w =
    if w.l2cap
    then elim l2cap_answer [
      | in_time ↦ (w, to_l2cap send ∷ [])
      | timed_out ↦ fall_back send gatt_answer (teardown_l2cap ∷ report_handover_timeout ∷ []) w
      | hung_up ↦ fall_back send gatt_answer (teardown_l2cap ∷ []) w
    ]
    else forward_gatt send gatt_answer w

unfoldable pub forward_inbound_gatt : List ℕ → TryForward → WorkerSet → WorkerSet × List PipeEffect
forward_inbound_gatt bytes answer w =
    if w.gatt
    then elim answer [
      | passed ↦ (w, fragment_to_gatt bytes ∷ [])
      | is_closed ↦ (record w { gatt = false }, [])
      | is_full ↦ (w, [])
    ]
    else (w, [])

unfoldable pub add_l2cap : ℕ → WorkerSet → WorkerSet × List PipeEffect
add_l2cap channel w =
    if w.l2cap then (w, []) else (record w { l2cap = true }, spawn_l2cap channel ∷ [])

-- What the select loop receives, with the answers of the channels that it passes it to.
pub data PipeEvent : Type 0 where
  outbound : PendingSend → SendTimeout → TryForward → PipeEvent
  inbound : List ℕ → TryForward → PipeEvent
  l2cap_added : (channel : ℕ) → PipeEvent
  adds_closed outbound_closed inbound_closed : PipeEvent

-- The worker set after an event, what was done, and whether the loop goes on.
unfoldable pub pipe_step : PipeEvent → WorkerSet → WorkerSet × List PipeEffect × Bool
unfolding forward_outbound forward_inbound_gatt add_l2cap is_gone
pipe_step (outbound send l2cap_answer gatt_answer) w =
    let (w', effects) = forward_outbound send l2cap_answer gatt_answer w in
    (w', effects, not (is_gone w'))
pipe_step (inbound bytes answer) w =
    let (w', effects) = forward_inbound_gatt bytes answer w in (w', effects, true)
pipe_step (l2cap_added channel) w = let (w', effects) = add_l2cap channel w in (w', effects, true)
pipe_step adds_closed w = (w, [], true)
pipe_step outbound_closed w = (w, [], false)
pipe_step inbound_closed w = (w, [], false)

-- What was done, and the events that are left when the loop has ended.
unfoldable pub supervise : List PipeEvent → WorkerSet → List PipeEffect × List PipeEvent
unfolding pipe_step
supervise [] w = ([], [])
supervise (e ∷ es) w =
    let (w', effects, goes_on) = pipe_step e w in
    let (later, left) = supervise es w' in
    if goes_on then (effects ++ later, left) else (effects, es)
