-- ===== src/Routing/Refinement.antt =====
-- What the reservations of routing.rs promise a caller, as a specification with no index and no list:
-- the number of ids that were minted, and for each prefix the reservation that it holds.
use iroh_ble_transport.Prelude.{
  List, Map, arith, length, ◌<◌, ◌≤◌, ◌-◌, Option, Option-cases, [], ap, fun_ext, get, get-insert,
  get-remove, if◌then◌else◌, inl, inr, insert, none, refl, remove, some, subst, ℕ, ◌%◌, ◌+◌, ◌==◌,
  ◌^◌, ◌↔◌, ◌∷◌, ◌≡◌,
}
use iroh_ble_transport.Peer.{DeviceId, EndpointId, KeyPrefix, prefix_from_endpoint}
use iroh_ble_transport.Routing.Table.{
  Direction, Reservation, Routing, StableConnId, new, next_stable_id, prune_pipe_tombstones,
  register_pipe,
}
use iroh_ble_transport.Routing.Reservations.{
  Target, consume_reservation_for_prefix, reservation_target, reserve_outbound,
}
use iroh_ble_transport.Routing.Promises.{NoWrap, ReservationsOk}
use iroh_ble_transport.Routing.History.{Op, run_ops}
use iroh_ble_transport.Routing.Kept.{run_ops-ReservationsOk}

pub record Book : Type 0 where
  pub minted : ℕ
  pub promised : KeyPrefix → Option Reservation

-- The specification that the table stands for.
unfoldable pub book : Routing → Book
book r = record { minted = r.next_id; promised = λ p. get p r.reservations }

pub data Demand : Type 0 where
  mint : ℕ → DeviceId → Direction → Demand
  reserve : ℕ → EndpointId → Demand
  consume : KeyPrefix → Demand

pub data Granted : Type 0 where
  granted : StableConnId → Granted
  taken : Option Reservation → Granted

-- A demand on the table.
unfoldable pub serve : Demand → Routing → Routing × Granted
unfolding register_pipe reserve_outbound consume_reservation_for_prefix
serve (mint now d dir) r = let (r', i) = register_pipe now d dir r in (r', granted i)
serve (reserve now e) r = let (r', i) = reserve_outbound now e r in (r', granted i)
serve (consume p) r = let (r', x) = consume_reservation_for_prefix p r in (r', taken x)

-- Ids are numbers that do not run out.
abbrev pub after : ℕ → ℕ
after n = n + 1

abbrev pub with_promise : KeyPrefix → Option Reservation → Book → Book
with_promise p x b = record b { promised = λ q. if p == q then x else b.promised q }

-- The same demand on the specification.
unfoldable pub serve_book : Demand → Book → Book × Granted
serve_book (mint now d dir) b = (record b { minted = after b.minted }, granted (after b.minted))
serve_book (reserve now e) b = elim (b.promised (prefix_from_endpoint e)) [
  | some x ↦ (b, granted x.stable_id)
  | none ↦
      let i = after b.minted in
      let x : Reservation = record { stable_id = i; endpoint_id = e; reserved_at = now } in
      (with_promise (prefix_from_endpoint e) (some x) (record b { minted = i }), granted i)
]
serve_book (consume p) b = elim (b.promised p) [
  | none ↦ (b, taken none)
  | some x ↦ (with_promise p none b, taken (some x))
]

unfoldable pub serve_all : List Demand → Routing → List Granted
unfolding serve
serve_all [] r = []
serve_all (d ∷ ds) r = let (r', a) = serve d r in a ∷ serve_all ds r'

unfoldable pub serve_all_book : List Demand → Book → List Granted
unfolding serve_book
serve_all_book [] b = []
serve_all_book (d ∷ ds) b = let (b', a) = serve_book d b in a ∷ serve_all_book ds b'

insert-promised :
    (p : KeyPrefix) (x : Reservation) (m : Map Reservation)
    → ◌≡◌ {A = KeyPrefix → Option Reservation}
        (λ q. get q (insert p x m))
        (λ q. if p == q then some x else get q m)
insert-promised p x m = fun_ext (λ q. get-insert p q x m)

remove-promised :
    (p : KeyPrefix) (m : Map Reservation)
    → ◌≡◌ {A = KeyPrefix → Option Reservation}
        (λ q. get q (remove p m))
        (λ q. if p == q then none else get q m)
remove-promised p m = fun_ext (λ q. get-remove p q m)

-- Each demand takes the table to one that stands for the specification's next state, and is granted
-- the same, while the counter is below its last value.
pub serve-refines :
    (d : Demand) (r : Routing)
    → NoWrap r
    → (book (serve d r).0 ≡ (serve_book d (book r)).0) × ((serve d r).1 ≡ (serve_book d (book r)).1)
unfolding serve serve_book book next_stable_id prune_pipe_tombstones
serve-refines (mint now d dir) r small =
    let i : (r.next_id + 1) % 2 ^ 64 ≡ r.next_id + 1 = omega (arith, small) in
    (ap (λ n. record { minted = n; promised = λ p. get p r.reservations }) i, ap granted i)
serve-refines (reserve now e) r small =
    let p = prefix_from_endpoint e in
    let i = r.next_id + 1 in
    let same : (r.next_id + 1) % 2 ^ 64 ≡ i = omega (arith, small) in
    elim (Option-cases (get p r.reservations)) [
      | inr (x, g) ↦ rw (g, serve, reserve_outbound, serve_book) (refl, refl)
      | inl g ↦
          let x : Reservation = record { stable_id = i; endpoint_id = e; reserved_at = now } in
          rw (g, serve, reserve_outbound, serve_book, same)
            (
              ap (λ f. record { minted = i; promised = f }) (insert-promised p x r.reservations),
              refl,
            )
    ]
serve-refines (consume p) r small = elim (Option-cases (get p r.reservations)) [
  | inl g ↦ rw (g, serve, consume_reservation_for_prefix, serve_book) (refl, refl)
  | inr (x, g) ↦
      rw (g, serve, consume_reservation_for_prefix, serve_book)
        (
          ap (λ f. record { minted = r.next_id; promised = f }) (remove-promised p r.reservations),
          refl,
        )
]

serve_book-minted : (d : Demand) (b : Book) → (serve_book d b).0.minted ≤ b.minted + 1
unfolding serve_book
serve_book-minted (mint now d dir) b = omega arith
serve_book-minted (reserve now e) b = elim (Option-cases (b.promised (prefix_from_endpoint e))) [
  | inl g ↦ rw (serve_book, g) (omega arith)
  | inr (x, g) ↦ rw (serve_book, g) (omega arith)
]
serve_book-minted (consume p) b = elim (Option-cases (b.promised p)) [
  | inl g ↦ rw (serve_book, g) (omega arith)
  | inr (x, g) ↦ rw (serve_book, g) (omega arith)
]

-- Whatever the demands and their order, and while the counter of ids cannot reach 2^64, the table
-- grants what the specification grants, whose ids count up and never wrap.
pub serve_all-refines :
    (ds : List Demand) (r : Routing)
    → r.next_id + length ds < 2 ^ 64
    → serve_all ds r ≡ serve_all_book ds (book r)
unfolding serve_all serve_all_book book
serve_all-refines [] r small = refl
serve_all-refines (d ∷ ds) r small =
    let (state, grant) = serve-refines d r (omega (arith, small)) in
    let grows = serve_book-minted d (book r) in
    let minted : (serve d r).0.next_id ≡ (serve_book d (book r)).0.minted =
      ap (λ (b : Book). b.minted) state in
    let later = serve_all-refines ds (serve d r).0 (omega (arith, small, grows, minted)) in
    rw (grant, later, state) refl

abbrev pub Holds : StableConnId → Target → Book → Type 0
Holds i t b =
    (x : Reservation) × (b.promised t.prefix ≡ some x)
    × (x.stable_id ≡ i)
    × (x.endpoint_id ≡ t.endpoint_id)

abbrev pub AnswerHolds : StableConnId → Book → Option Target → Type 0
AnswerHolds i b none = Unit
AnswerHolds i b (some t) = Holds i t b

reservation_target-AnswerHolds :
    (i : StableConnId) (r : Routing)
    → ReservationsOk r
    → AnswerHolds i (book r) (reservation_target i r)
unfolding reservation_target book
reservation_target-AnswerHolds i r (promised, indexed) =
    elim (Option-cases (get i r.reserved_stable_ids)) [
      | inl g ↦ rw (reservation_target, g) tt
      | inr (p, g) ↦
          let (x, found, same) = indexed i p g in
          rw (reservation_target, g, found) (x, found, same, refl)
    ]

reservation_target_iff_agreeing :
    (i : StableConnId) (t : Target) (r : Routing)
    → ReservationsOk r
    → (reservation_target i r ≡ some t) ↔ Holds i t (book r)
unfolding reservation_target book
reservation_target_iff_agreeing i t r agree = (
  (λ h. subst (AnswerHolds i (book r)) h (reservation_target-AnswerHolds i r agree)),
  λ (x, found, same, whose).
      let (_, g, _) = agree.0 t.prefix x found in
      let g' : get i r.reserved_stable_ids ≡ some t.prefix = rw same at g in
      rw (reservation_target, g', found, whose) refl,
)

-- After any number of calls below 2^64 - 1 from the empty table, the look-up by id, through the index,
-- finds exactly the prefix that holds that id, and its endpoint.
pub reservation_target_iff :
    (i : StableConnId) (t : Target) (os : List Op)
    → length os < 2 ^ 64 - 1
    → (reservation_target i (run_ops os new) ≡ some t) ↔ Holds i t (book (run_ops os new))
reservation_target_iff i t os small =
    reservation_target_iff_agreeing i t (run_ops os new) (run_ops-ReservationsOk os small)
