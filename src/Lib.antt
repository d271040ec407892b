-- ===== src/Lib.antt =====
-- iroh-ble-transport carries the datagrams of iroh over Bluetooth Low Energy. The paths below are
-- relative to crates/iroh-ble-transport/src/transport.
--
-- A registry (registry.rs) keeps one state machine for each peer device. Commands come to it in one
-- inbox, from the platform's events, from a clock, from iroh's senders and from the driver's
-- reports on the work it was given; it answers with actions for the driver. Once a peer is
-- connected a pipe carries its datagrams, over GATT with a reliable channel (reliable.rs: fragments
-- with numbers modulo 16, cumulative acknowledgements, a window of six) or over L2CAP. dedup.rs
-- decides which of two connections to the same endpoint is kept, mtu.rs how long a fragment may be.
--
-- Mtu models mtu.rs; the platform's answers are a function of time. Its loop runs on fuel: 61
-- polls, 50 ms apart, pass the deadline of 3 s.
--
-- Reliable models reliable.rs. Header has the two header bytes, State the `ChannelState` and its
-- methods, Receive `receive_fragment` and what it calls, Send `fragment_into` and
-- `next_send_action`, Loop a round of `run_send_loop`. Each method is a function from a channel
-- to a channel, with the current time as an argument. The proofs are in Wire (what is built is
-- what is read), Fragments (cutting and reassembling), Delivery, Arrival and Stream (order of
-- delivery), Transfer (from datagrams to datagrams), Window (the sender's window) and Liveness
-- (the end of the loop). The drain of the receive buffer runs on fuel, one round for each buffered
-- fragment, which is as many as can be taken out. The link itself, the tasks and the lock are not
-- modelled: a history of calls at given times stands for them.
--
-- L2cap models l2cap.rs on streams that are given as lists of bytes: the framing, and the loops of
-- the two tasks. The receive task's fuel is the number of bytes and one, and every frame takes two.
--
-- Peer has the types of peer.rs, Dedup the rule of dedup.rs.
--
-- Registry models registry.rs. Step has what a transition of an entry yields, Entry the helpers
-- that change an entry, State the registry and its access to the map. Sending, Inbound, Connecting,
-- Upgrades, Closing and Verified have the handlers, and Handle has `Registry::handle` and the loop
-- `Registry::run`. What a command reads from outside (the clocks, the answers of `try_send`, the
-- routing table's answer on a token) is part of it, so a theorem on histories holds for all
-- answers. The actions come out as a list, which the driver executes. Counters of 64 bits in an
-- entry do not wrap within the life of a process and are plain numbers. The proofs: Contract and
-- Transitions (what each transition of an entry keeps), Identity and Sweeps (identities in the
-- map), Closure and Commands (what all transitions keep is kept by every command), Lifecycles and
-- Stale (identities and late reports), Arbitration and Survivor (deduplication), Sends (order of
-- datagrams), Ticks (what a tick does by phase) and Timers.
--
-- Aging models what routing.rs and conns.rs have in common, a map whose old entries are pruned.
--
-- Routing models routing.rs. Table, Hints, Pools, Reservations and Promotion have the operations of
-- `Routing`, each a function on the whole table, since the code takes one lock for each; what a
-- call wakes and answers is part of its result. Address has the form of an id as an address; iroh's
-- `CustomAddr` is a parameter. History has the calls as data. The proofs: Tokens (addresses),
-- Promoted and Convergence (which pipe is kept), Tombstones, Promises, Ledger, Bookkeeping and Kept
-- (the reservations and the tombstones along every history) and Refinement (the reservations
-- against a specification).
--
-- Conns models conns.rs: Handle has `close_if_only_path`, with the paths that are open on a
-- connection as a parameter, Buckets and Index the table; the proofs are in Race, Watched and
-- Reached.
--
-- Pipe models the supervisor of pipe.rs: Supervisor has its select loop and the fallback from one
-- path to the other, and Outcomes what becomes of a datagram.
--
-- Driver models two parts of driver.rs. Pipes has the tables around a data pipe, and Lanes the
-- queue of native work of a device, whose task takes a round at a time: taking a job and its end
-- are two rounds. Fleet has the lanes of all devices. The proofs are in Serial, Parallel and
-- Retired.
--
-- Front models what iroh calls. Resolver and Sender are from transport.rs, Hook is hook.rs with
-- `handle_hook_event`. Dial, Open and Address follow one address from the resolver through the
-- sender and the driver, and Verdict has what a handshake leaves.
--
-- The peer store, the workers that a pipe's supervisor starts, the other arms of the driver and the
-- calls of the platform, the event pumps, and of the front end the builder and `poll_recv` are not
-- modelled; nor are logging, metrics beyond their being emitted, and the snapshot. They are I/O, or
-- tasks around what is modelled. That the actions of the registry reach the driver is not composed
-- with it: the registry's actions and the driver's arms are modelled apart.
mod Prelude
pub mod Mtu
pub mod Reliable
pub mod Peer
pub mod Dedup
pub mod L2cap
pub mod Aging
pub mod Routing
pub mod Conns
pub mod Pipe
pub mod Driver
pub mod Front
pub mod Registry
mod Scenarios
