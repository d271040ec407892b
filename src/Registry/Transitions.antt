-- ===== src/Registry/Transitions.antt =====
-- The contract at each handler's transition of an entry (registry.rs).
use iroh_ble_transport.Prelude.{Bool, List, Option, [], arith, some, ℕ}
use iroh_ble_transport.Peer.{
  ChannelHandle, DeviceId, DisconnectCause, EndpointId, FragmentSource, KeyPrefix, PeerEntry,
  PendingSend, PipeHandles, StallCause,
}
use iroh_ble_transport.Registry.Step.{Env}
use iroh_ble_transport.Registry.State.{Registry}
use iroh_ble_transport.Registry.Sending.{enqueue_send, handle_data_pipe_ready, handle_send_datagram}
use iroh_ble_transport.Registry.Inbound.{
  channel_for_known, channel_for_new, fragment_for_known, fragment_for_new,
}
use iroh_ble_transport.Registry.Connecting.{
  begin_upgrade, disconnect, establish, fail, refuse_version, succeed,
}
use iroh_ble_transport.Registry.Upgrades.{complete_upgrade, give_upgrade_up, hand_back}
use iroh_ble_transport.Registry.Closing.{
  forget_entry, power_down, power_up, shut_entry, stall, tick_entry, unsubscribe,
}
use iroh_ble_transport.Registry.Verified.{advertise, stamp, subscribe, suppress, verify}
use iroh_ble_transport.Registry.Contract.{Keeps, Starts}

pub enqueue_send-Keeps :
    (env : Env) (s : PendingSend) (n : ℕ) (e : PeerEntry) → Keeps n e (enqueue_send env s n e)
unfolding enqueue_send
enqueue_send-Keeps env s n e = ground arith

pub handle_send_datagram-Keeps :
    (env : Env) (target : Option EndpointId) (s : PendingSend) (n : ℕ) (e : PeerEntry)
    → Keeps n e (handle_send_datagram env target s n e)
unfolding handle_send_datagram
handle_send_datagram-Keeps env target s n e = ground arith

pub handle_data_pipe_ready-Keeps :
    (env : Env) (gen : ℕ) (pipe : PipeHandles) (n : ℕ) (e : PeerEntry)
    → Keeps n e (handle_data_pipe_ready env gen pipe n e)
unfolding handle_data_pipe_ready
handle_data_pipe_ready-Keeps env gen pipe n e = ground arith

pub fragment_for_known-Keeps :
    (env : Env) (source : FragmentSource) (bytes : List ℕ) (n : ℕ) (e : PeerEntry)
    → Keeps n e (fragment_for_known env source bytes n e)
unfolding fragment_for_known
fragment_for_known-Keeps env source bytes n e = ground arith

pub channel_for_known-Keeps :
    (env : Env) (ch n : ℕ) (e : PeerEntry) → Keeps n e (channel_for_known env ch n e)
unfolding channel_for_known
channel_for_known-Keeps env ch n e = ground arith

pub begin_upgrade-Keeps : (n : ℕ) (e : PeerEntry) → Keeps n e (begin_upgrade n e)
unfolding begin_upgrade
begin_upgrade-Keeps n e = ground arith

pub establish-Keeps :
    (env : Env) (ch : ChannelHandle) (upgrade : Bool) (n : ℕ) (e : PeerEntry)
    → Keeps n e (establish env ch upgrade n e)
unfolding establish
establish-Keeps env ch upgrade n e = ground arith

pub succeed-Keeps :
    (env : Env) (life : ℕ) (ch : ChannelHandle) (r : Registry) (n : ℕ) (e : PeerEntry)
    → Keeps n e (succeed env life ch r n e)
unfolding succeed
succeed-Keeps env life ch r n e = ground arith

pub fail-Keeps :
    (env : Env) (life : ℕ) (error : List ℕ) (n : ℕ) (e : PeerEntry)
    → Keeps n e (fail env life error n e)
unfolding fail
fail-Keeps env life error n e = ground arith

pub refuse_version-Keeps :
    (env : Env) (life got want n : ℕ) (e : PeerEntry)
    → Keeps n e (refuse_version env life got want n e)
unfolding refuse_version
refuse_version-Keeps env life got want n e = ground arith

pub disconnect-Keeps :
    (env : Env) (cause : DisconnectCause) (n : ℕ) (e : PeerEntry)
    → Keeps n e (disconnect env cause n e)
unfolding disconnect
disconnect-Keeps env cause n e = ground arith

pub complete_upgrade-Keeps :
    (env : Env) (life up ch n : ℕ) (e : PeerEntry) → Keeps n e (complete_upgrade env life up ch n e)
unfolding complete_upgrade
complete_upgrade-Keeps env life up ch n e = ground arith

pub give_upgrade_up-Keeps :
    (env : Env) (life up : ℕ) (error : List ℕ) (n : ℕ) (e : PeerEntry)
    → Keeps n e (give_upgrade_up env life up error n e)
unfolding give_upgrade_up
give_upgrade_up-Keeps env life up error n e = ground arith

pub hand_back-Keeps : (n : ℕ) (e : PeerEntry) → Keeps n e (hand_back n e)
unfolding hand_back
hand_back-Keeps n e = ground arith

pub forget_entry-Keeps : (env : Env) (n : ℕ) (e : PeerEntry) → Keeps n e (forget_entry env n e)
unfolding forget_entry
forget_entry-Keeps env n e = ground arith

pub stall-Keeps :
    (env : Env) (cause : StallCause) (n : ℕ) (e : PeerEntry) → Keeps n e (stall env cause n e)
unfolding stall
stall-Keeps env cause n e = ground arith

pub shut_entry-Keeps : (n : ℕ) (e : PeerEntry) → Keeps n e (shut_entry n e)
unfolding shut_entry
shut_entry-Keeps n e = ground arith

pub power_down-Keeps : (env : Env) (n : ℕ) (e : PeerEntry) → Keeps n e (power_down env n e)
unfolding power_down
power_down-Keeps env n e = ground arith

pub power_up-Keeps : (env : Env) (n : ℕ) (e : PeerEntry) → Keeps n e (power_up env n e)
unfolding power_up
power_up-Keeps env n e = ground arith

pub tick_entry-Keeps : (env : Env) (n : ℕ) (e : PeerEntry) → Keeps n e (tick_entry env n e)
unfolding tick_entry
tick_entry-Keeps env n e = ground arith

pub unsubscribe-Keeps :
    (env : Env) (char n : ℕ) (e : PeerEntry) → Keeps n e (unsubscribe env char n e)
unfolding unsubscribe
unsubscribe-Keeps env char n e = ground arith

pub advertise-Keeps :
    (env : Env) (prefix : KeyPrefix) (defer : Bool) (n : ℕ) (e : PeerEntry)
    → Keeps n e (advertise env prefix defer n e)
unfolding advertise
advertise-Keeps env prefix defer n e = ground arith

pub suppress-Keeps :
    (env : Env) (prefix : KeyPrefix) (n : ℕ) (e : PeerEntry) → Keeps n e (suppress env prefix n e)
suppress-Keeps env prefix n e = ground arith

pub subscribe-Keeps :
    (env : Env) (char : ℕ) (prefix : Option KeyPrefix) (known : Option EndpointId) (n : ℕ)
    (e : PeerEntry)
    → Keeps n e (subscribe env char prefix known n e)
unfolding subscribe
subscribe-Keeps env char prefix known n e = ground arith

pub stamp-Keeps :
    (now : ℕ) (prefix : KeyPrefix) (endpoint : EndpointId) (n : ℕ) (e : PeerEntry)
    → Keeps n e (stamp now prefix endpoint n e)
unfolding stamp verify
stamp-Keeps now prefix endpoint n e = ground arith

pub stamp_exact-Keeps :
    (now n : ℕ) (prefix : KeyPrefix) (endpoint : EndpointId) (e : PeerEntry)
    → Keeps n e (record {
      next = n;
      entry = record (verify now endpoint e) { prefix = some prefix };
      effects = [];
    })
unfolding verify
stamp_exact-Keeps now n prefix endpoint e = ground arith

pub fragment_for_new-Starts :
    (env : Env) (bytes : List ℕ) (d : DeviceId) (n : ℕ)
    → Starts n d (fragment_for_new env bytes d n)
unfolding fragment_for_new
fragment_for_new-Starts env bytes d n = ground arith

pub channel_for_new-Starts :
    (env : Env) (ch : ℕ) (d : DeviceId) (n : ℕ) → Starts n d (channel_for_new env ch d n)
unfolding channel_for_new
channel_for_new-Starts env ch d n = ground arith
