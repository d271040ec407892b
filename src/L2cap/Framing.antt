-- ===== src/L2cap/Framing.antt =====
-- About the send task and the receive task of l2cap.rs on one stream of bytes.
use iroh_ble_transport.Prelude.{
  drop, All, List, [], ap, arith, false, length, length-append, length-drop, ltb, refl, some, suc,
  take, zero, ℕ, ◌%◌, ◌*◌, ◌++◌, ◌+◌, ◌/◌, ◌<◌, ◌∙◌, ◌∷◌, ◌≡◌, ◌≢◌, ◌≤◌,
}
use iroh_ble_transport.Mtu.{max_datagram_size}
use iroh_ble_transport.L2cap.{
  Reception, at_end, frame, out_of_fuel, read_framed_datagram, recv_loop, recv_task, send_task,
  take_in, write_framed_datagram,
}

abbrev frame_of : List ℕ → List ℕ
frame_of d = length d % 256 ∷ length d / 256 % 256 ∷ d

write_frame_of :
    (d : List ℕ) → length d ≤ max_datagram_size → write_framed_datagram d ≡ some (frame_of d)
unfolding write_framed_datagram
write_frame_of d h = ground arith

take-append : (xs ys : List ℕ) → take (length xs) (xs ++ ys) ≡ xs
take-append [] ys = refl
take-append (x ∷ xs) ys = ap (λ zs. x ∷ zs) (take-append xs ys)

drop-append : (xs ys : List ℕ) → drop (length xs) (xs ++ ys) ≡ ys
drop-append [] ys = refl
drop-append (x ∷ xs) ys = drop-append xs ys

read_frame_of :
    (d rest : List ℕ)
    → length d ≤ max_datagram_size
    → read_framed_datagram (frame_of d ++ rest) ≡ frame d rest
unfolding read_framed_datagram
read_frame_of d rest h =
    let e : length d % 256 + 256 * (length d / 256 % 256) ≡ length d = omega arith in
    let short : ltb max_datagram_size (length d) ≡ false = ground arith in
    let l = length-append d rest in
    let whole : ltb (length (d ++ rest)) (length d) ≡ false = ground arith in
    rw (e, short, whole, take-append d rest, drop-append d rest) refl

-- The datagrams with something in them, and the number of the others.
abbrev pub nonempty : List (List ℕ) → List (List ℕ)
nonempty [] = []
nonempty ([] ∷ ds) = nonempty ds
nonempty ((x ∷ xs) ∷ ds) = (x ∷ xs) ∷ nonempty ds

abbrev pub count_empty : List (List ℕ) → ℕ
count_empty [] = 0
count_empty ([] ∷ ds) = suc (count_empty ds)
count_empty ((x ∷ xs) ∷ ds) = count_empty ds

abbrev pub received_of : List (List ℕ) → Reception
received_of ds = record { packets = nonempty ds; empty_frames = count_empty ds; ending = at_end }

take_in-received_of :
    (d : List ℕ) (ds : List (List ℕ)) → take_in d (received_of ds) ≡ received_of (d ∷ ds)
take_in-received_of [] ds = refl
take_in-received_of (x ∷ d) ds = refl

recv_loop-send_task :
    (fuel : ℕ) (ds : List (List ℕ))
    → length (send_task ds) < fuel
    → All (λ (d : List ℕ). length d ≤ max_datagram_size) ds
    → recv_loop fuel (send_task ds) ≡ received_of ds
unfolding recv_loop send_task
recv_loop-send_task zero ds h a = absurd (omega arith)
recv_loop-send_task (suc fuel) [] h a = refl
recv_loop-send_task (suc fuel) (d ∷ ds) h a =
    let w : send_task (d ∷ ds) ≡ frame_of d ++ send_task ds =
      rw (write_frame_of d a.0, send_task) refl in
    let l = length-append (frame_of d) (send_task ds) in
    let k : length (frame_of d ++ send_task ds) < suc fuel = rw w at h in
    rw w (
      rw (read_frame_of d (send_task ds) a.0, recv_loop)
        (ap (take_in d) (recv_loop-send_task fuel ds (omega (arith, k, l)) a.1)
          ∙ take_in-received_of d ds))

-- The receive task that reads what the send task has written for datagrams within the limit hands
-- on those that are not empty, in order, counts the empty ones, and ends at the end of the stream.
pub recv_task-send_task :
    (ds : List (List ℕ))
    → All (λ (d : List ℕ). length d ≤ max_datagram_size) ds
    → recv_task (send_task ds) ≡ received_of ds
unfolding recv_task
recv_task-send_task ds a = recv_loop-send_task (suc (length (send_task ds))) ds (omega arith) a

recv_loop_fuel :
    (fuel : ℕ) (bytes : List ℕ) → length bytes < fuel → (recv_loop fuel bytes).ending ≢ out_of_fuel
unfolding recv_loop read_framed_datagram
recv_loop_fuel zero bytes h = absurd (omega arith)
recv_loop_fuel (suc fuel) [] h = ground arith
recv_loop_fuel (suc fuel) (lo ∷ []) h = ground arith
recv_loop_fuel (suc fuel) (lo ∷ hi ∷ bytes) h =
    let len = lo + 256 * hi in
    let shorter = length-drop len bytes in
    let rest = recv_loop_fuel fuel (drop len bytes) (omega (arith, shorter)) in ground (arith, rest)

-- The rounds given to the receive task are enough: it ends at the end of the stream or with an
-- error, whatever the bytes are.
pub recv_task-ends : (bytes : List ℕ) → (recv_task bytes).ending ≢ out_of_fuel
unfolding recv_task
recv_task-ends bytes = recv_loop_fuel (suc (length bytes)) bytes (omega arith)
