-- ===== src/Routing/Promises.antt =====
-- About the reservations and the index from their ids back to their prefixes: `reservations` and
-- `reserved_stable_ids` of routing.rs.
use iroh_ble_transport.Prelude.{
  Bool-cases, Map, Option-cases, arith, false, get, get-insert, get-insert_ne, get-insert_self,
  get-remove, inl, inr, insert, none, remove, some, ℕ, ◌+◌, ◌<◌, ◌==◌, ◌^◌, ◌∙◌, ◌≡◌, ◌≢◌, ◌≤◌,
}
use iroh_ble_transport.Peer.{KeyPrefix, prefix_from_endpoint}
use iroh_ble_transport.Routing.Table.{Reservation, Routing, StableConnId, new}

abbrev pub NoWrap : Routing → Type 0
NoWrap r = r.next_id + 1 < 2 ^ 64

-- A reservation stands under its endpoint's prefix, its id leads back to that prefix, and has been
-- minted.
abbrev pub Promised : ℕ → Map Reservation → Map KeyPrefix → Type 0
Promised n rs ids =
    (p : KeyPrefix) (x : Reservation)
    → get p rs ≡ some x
    → (prefix_from_endpoint x.endpoint_id ≡ p) × (get x.stable_id ids ≡ some p) × (x.stable_id ≤ n)

-- An id in the index is the one that its prefix was promised.
abbrev pub Indexed : Map Reservation → Map KeyPrefix → Type 0
Indexed rs ids =
    (id : StableConnId) (p : KeyPrefix)
    → get id ids ≡ some p
    → (x : Reservation) × (get p rs ≡ some x) × (x.stable_id ≡ id)

abbrev pub Paired : ℕ → Map Reservation → Map KeyPrefix → Type 0
Paired n rs ids = Promised n rs ids × Indexed rs ids

abbrev pub ReservationsOk : Routing → Type 0
ReservationsOk r = Paired r.next_id r.reservations r.reserved_stable_ids

pub new-ReservationsOk : ReservationsOk new
unfolding new get
new-ReservationsOk = ((λ p x e. absurd (cc)), (λ id p e. absurd (cc)))

-- An id beyond the minted ones is nobody's.
Indexed-fresh :
    (n : ℕ) (rs : Map Reservation) (ids : Map KeyPrefix) → Paired n rs ids → get (n + 1) ids ≡ none
Indexed-fresh n rs ids (promised, indexed) = elim (Option-cases (get (n + 1) ids)) [
  | inl e ↦ e
  | inr (p, e) ↦
      let (x, g, q) = indexed (n + 1) p e in
      let (_, _, le) = promised p x g in absurd (omega (arith, q, le))
]

module _ (n : ℕ) (rs : Map Reservation) (ids : Map KeyPrefix) (paired : Paired n rs ids) where
  Promised-insert :
      (x : Reservation)
      → x.stable_id ≡ n + 1
      → get (prefix_from_endpoint x.endpoint_id) rs ≡ none
      → Promised
          (n + 1)
          (insert (prefix_from_endpoint x.endpoint_id) x rs)
          (insert x.stable_id (prefix_from_endpoint x.endpoint_id) ids)
  Promised-insert x at free p y g =
      let q = prefix_from_endpoint x.endpoint_id in
      elim (Bool-cases (q == p)) [
        | inl t ↦
            let e : some x ≡ some y = rw (get-insert, t) at g in
            let same : x ≡ y = ground arith in
            let here : q ≡ p = ground arith in
            rw (← same) (here, rw (← here) (get-insert_self x.stable_id q ids), omega (arith, at))
        | inr f ↦
            let g' : get p rs ≡ some y = rw (get-insert, f) at g in
            let (a, b, c) = paired.0 p y g' in
            let apart : x.stable_id ≢ y.stable_id = omega (arith, at, c) in
            (a, get-insert_ne x.stable_id y.stable_id q ids apart ∙ b, omega (arith, c))
      ]

  Indexed-insert :
      (x : Reservation)
      → x.stable_id ≡ n + 1
      → get (prefix_from_endpoint x.endpoint_id) rs ≡ none
      → Indexed
          (insert (prefix_from_endpoint x.endpoint_id) x rs)
          (insert x.stable_id (prefix_from_endpoint x.endpoint_id) ids)
  Indexed-insert x at free id p g =
      let q = prefix_from_endpoint x.endpoint_id in
      elim (Bool-cases (x.stable_id == id)) [
        | inl t ↦
            let e : some q ≡ some p = rw (get-insert, t) at g in
            let same : q ≡ p = ground arith in
            (x, rw (← same) (get-insert_self q x rs), ground arith)
        | inr f ↦
            let g' : get id ids ≡ some p = rw (get-insert, f) at g in
            let (y, a, b) = paired.1 id p g' in
            let apart : q ≢ p = λ e. absurd (cc) in (y, get-insert_ne q p x rs apart ∙ a, b)
      ]

  pub Paired-insert :
      (x : Reservation)
      → x.stable_id ≡ n + 1
      → get (prefix_from_endpoint x.endpoint_id) rs ≡ none
      → Paired
          (n + 1)
          (insert (prefix_from_endpoint x.endpoint_id) x rs)
          (insert x.stable_id (prefix_from_endpoint x.endpoint_id) ids)
  Paired-insert x at free = (Promised-insert x at free, Indexed-insert x at free)

  Promised-remove :
      (q : KeyPrefix) (x : Reservation)
      → get q rs ≡ some x
      → Promised n (remove q rs) (remove x.stable_id ids)
  Promised-remove q x found p y g = elim (Bool-cases (q == p)) [
    | inl t ↦ let e : none ≡ some y = rw (get-remove, t) at g in absurd (cc)
    | inr f ↦
        let g' : get p rs ≡ some y = rw (get-remove, f) at g in
        let (a, b, c) = paired.0 p y g' in
        let (_, d, _) = paired.0 q x found in
        let apart : (x.stable_id == y.stable_id) ≡ false = ground arith in
        (a, rw (get-remove, apart) b, c)
  ]

  Indexed-remove :
      (q : KeyPrefix) (x : Reservation)
      → get q rs ≡ some x
      → Indexed (remove q rs) (remove x.stable_id ids)
  Indexed-remove q x found id p g = elim (Bool-cases (x.stable_id == id)) [
    | inl t ↦ let e : none ≡ some p = rw (get-remove, t) at g in absurd (cc)
    | inr f ↦
        let g' : get id ids ≡ some p = rw (get-remove, f) at g in
        let (y, a, b) = paired.1 id p g' in
        let apart : (q == p) ≡ false = ground arith in (y, rw (get-remove, apart) a, b)
  ]

  pub Paired-remove :
      (q : KeyPrefix) (x : Reservation)
      → get q rs ≡ some x
      → Paired n (remove q rs) (remove x.stable_id ids)
  Paired-remove q x found = (Promised-remove q x found, Indexed-remove q x found)

  pub Paired-mono : (n' : ℕ) → n ≤ n' → Paired n' rs ids
  Paired-mono n' le =
      ((λ p x e. let (a, b, c) = paired.0 p x e in (a, b, omega (arith, c, le))), paired.1)
