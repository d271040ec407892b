-- ===== src/L2cap.antt =====
-- The framing of datagrams on an L2CAP stream, crates/iroh-ble-transport/src/transport/l2cap.rs: two
-- bytes of length, the low one first, and the payload. A stream that is read to its end is the list
-- of its bytes; the writer and the inbox of received packets take what they are given.
use iroh_ble_transport.Prelude.{
  drop, List, Option, [], if◌then◌else◌, is_empty, length, ltb, none, some, suc, take, zero, ℕ, ◌%◌,
  ◌*◌, ◌++◌, ◌+◌, ◌/◌, ◌∷◌,
}
use iroh_ble_transport.Mtu.{max_datagram_size}
pub mod Framing

unfoldable pub write_framed_datagram : List ℕ → Option (List ℕ)
write_framed_datagram payload =
    if ltb max_datagram_size (length payload)
    then none
    else some (length payload % 256 ∷ length payload / 256 % 256 ∷ payload)

pub data ReadFrame : Type 0 where
  -- The stream ends before a frame.
  eof : ReadFrame
  -- A datagram, and the bytes after it.
  frame : List ℕ → List ℕ → ReadFrame
  -- The stream ends within a frame (`UnexpectedEof`).
  cut_off : ReadFrame
  -- The frame is too long (`InvalidData`).
  too_long : ReadFrame

unfoldable pub read_framed_datagram : List ℕ → ReadFrame
read_framed_datagram [] = eof
read_framed_datagram (lo ∷ []) = cut_off
read_framed_datagram (lo ∷ hi ∷ bytes) =
    let len = lo + 256 * hi in
    if ltb max_datagram_size len
    then too_long
    else if ltb (length bytes) len
    then cut_off
    else frame (take len bytes) (drop len bytes)

-- The send task: a datagram that is refused ends it.
unfoldable pub send_task : List (List ℕ) → List ℕ
unfolding write_framed_datagram
send_task [] = []
send_task (d ∷ ds) =
    let later = send_task ds in
    elim (write_framed_datagram d) [ none ↦ [] | some bytes ↦ bytes ++ later ]

pub data Ending : Type 0 where
  at_end failed out_of_fuel : Ending

pub record Reception : Type 0 where
  pub packets : List (List ℕ)
  pub empty_frames : ℕ
  pub ending : Ending

abbrev over : Ending → Reception
over e = record { packets = []; empty_frames = 0; ending = e }

abbrev pub take_in : List ℕ → Reception → Reception
take_in d r =
    if is_empty d
    then record r { empty_frames = suc r.empty_frames }
    else record r { packets = d ∷ r.packets }

unfoldable pub recv_loop : ℕ → List ℕ → Reception
unfolding read_framed_datagram
recv_loop zero bytes = over out_of_fuel
recv_loop (suc fuel) bytes = elim (read_framed_datagram bytes) [
  | eof ↦ over at_end
  | frame d rest ↦ take_in d (recv_loop fuel rest)
  | cut_off ↦ over failed
  | too_long ↦ over failed
]

-- The receive task; each round takes two bytes at least.
unfoldable pub recv_task : List ℕ → Reception
unfolding recv_loop
recv_task bytes = recv_loop (suc (length bytes)) bytes
