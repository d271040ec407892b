-- ===== src/Conns/Watched.antt =====
-- About the time between a watch's entry and the report of its watcher: `insert` and
-- `remove_and_is_empty` of conns.rs.
use iroh_ble_transport.Prelude.{
  All, Bool-cases, List, Map, Option-cases, [], arith, get, get-insert, get-remove, inl, inr,
  insert, is_empty, length, refl, remove, some, subst, true, ℕ, ◌%◌, ◌+◌, ◌<◌, ◌≤◌, ◌^◌, ◌∙◌, ◌∷◌,
  ◌≡◌, ◌≢◌,
}
use iroh_ble_transport.Peer.{EndpointId}
use iroh_ble_transport.Conns.Handle.{ConnId}
use iroh_ble_transport.Conns.Buckets.{
  Bucket, add_watch, drop_bucket, is_at, set_watches, watches_at,
}
use iroh_ble_transport.Conns.Index.{Conns, insert_conn, prune_closed, remove_and_is_empty}
use iroh_ble_transport.Conns.Race.{Visit, arrive, leave, visit, visits}
use iroh_ble_transport.Routing.Table.{StableConnId}

get_here :
    (j id : ℕ) (w conn : ConnId) (m : Map ConnId)
    → j ≢ id
    → get id m ≡ some conn
    → get id (insert j w m) ≡ some conn
get_here j id w conn m apart g = get-insert j id w m ∙ ground (arith)

get_left :
    (j id : ℕ) (conn : ConnId) (m : Map ConnId)
    → j ≢ id
    → get id m ≡ some conn
    → get id (remove j m) ≡ some conn
get_left j id conn m apart g = get-remove j id m ∙ ground (arith)

empty_none :
    (id : ℕ) (conn : ConnId) (m : Map ConnId) → is_empty m ≡ true → get id m ≡ some conn → ⊥
unfolding get
empty_none id conn [] h g = absurd (cc)
empty_none id conn ((j, w) ∷ m) h g = absurd (cc)

insert_conn-next_id :
    (now : ℕ) (e : EndpointId) (p : StableConnId) (conn : ConnId) (c : Conns)
    → (insert_conn now e p conn c).conns.next_id ≡ (c.next_id + 1) % 2 ^ 64
unfolding insert_conn
insert_conn-next_id now e p conn c = elim (Option-cases (get p (prune_closed now c.closed))) [
  | inl g ↦ rw (g, insert_conn) refl
  | inr (x, g) ↦ rw (g, insert_conn) refl
]

remove_and_is_empty-next_id :
    (e : EndpointId) (p : StableConnId) (w : ℕ) (c : Conns)
    → (remove_and_is_empty e p w c).0.next_id ≡ c.next_id
unfolding remove_and_is_empty
remove_and_is_empty-next_id e p w c = elim (Option-cases (watches_at e p c.buckets)) [
  | inl g ↦ rw (g, remove_and_is_empty) refl
  | inr (ids, g) ↦ elim (Bool-cases (is_empty (remove w ids))) [
    | inl t ↦ rw (g, remove_and_is_empty, t) refl
    | inr f ↦ rw (g, remove_and_is_empty, f) refl
  ]
]

module _ (e : EndpointId) (p : StableConnId) (id : ℕ) (conn : ConnId) where
  -- The connection is in the bucket of its endpoint and pipe, under its watch id.
  abbrev pub Watching : List Bucket → Type 0
  Watching bs = (ws : Map ConnId) × (watches_at e p bs ≡ some ws) × (get id ws ≡ some conn)

  pub add_watch-Watching_new : (bs : List Bucket) → Watching (add_watch e p id conn bs)
  unfolding add_watch watches_at get
  add_watch-Watching_new [] = ((id, conn) ∷ [], ground arith, ground arith)
  add_watch-Watching_new (b ∷ bs) = elim (Bool-cases (is_at e p b)) [
    | inl t ↦
        rw (t, add_watch, watches_at, t)
          (insert id conn b.watches, refl, get-insert id id conn b.watches ∙ ground (arith))
    | inr f ↦ rw (f, add_watch, watches_at, f) (add_watch-Watching_new bs)
  ]

  module _ (e' : EndpointId) (p' : StableConnId) (w : ℕ) where
    add_watch-Watching :
        (other : ConnId) (bs : List Bucket)
        → w ≢ id
        → Watching bs
        → Watching (add_watch e' p' w other bs)
    unfolding add_watch watches_at
    add_watch-Watching other [] apart (ws, found, there) = absurd (cc)
    add_watch-Watching other (b ∷ bs) apart (ws, found, there) = elim (Bool-cases (is_at e p b)) [
      | inl t ↦
          let here : some b.watches ≡ some ws = rw (t, watches_at) at found in
          let same : b.watches ≡ ws = cc in
          let g : get id b.watches ≡ some conn = rw same there in
          elim (Bool-cases (is_at e' p' b)) [
            | inl t' ↦
                rw (t', add_watch, watches_at, t)
                  (insert w other b.watches, refl, get_here w id other conn b.watches apart g)
            | inr f' ↦ rw (f', add_watch, watches_at, t) (b.watches, refl, g)
          ]
      | inr f ↦
          let later : watches_at e p bs ≡ some ws = rw (f, watches_at) at found in
          elim (Bool-cases (is_at e' p' b)) [
            | inl t' ↦ rw (t', add_watch, watches_at, f) (ws, later, there)
            | inr f' ↦
                rw (f', add_watch, watches_at, f)
                  (add_watch-Watching other bs apart (ws, later, there))
          ]
    ]

    module _ (spared : e' ≡ e → p' ≡ p → w ≢ id) where
      same_bucket :
          (b : Bucket)
          → is_at e p b ≡ true
          → is_at e' p' b ≡ true
          → get id b.watches ≡ some conn
          → get id (remove w b.watches) ≡ some conn
      same_bucket b t t' g =
          let one : e' ≡ e = ground arith in
          let two : p' ≡ p = ground arith in get_left w id conn b.watches (spared one two) g

      set_watches-Watching :
          (ids : Map ConnId) (bs : List Bucket)
          → watches_at e' p' bs ≡ some ids
          → Watching bs
          → Watching (set_watches e' p' (remove w ids) bs)
      unfolding set_watches watches_at
      set_watches-Watching ids [] h (ws, found, there) = absurd (cc)
      set_watches-Watching ids (b ∷ bs) h (ws, found, there) = elim (Bool-cases (is_at e p b)) [
        | inl t ↦
            let here : some b.watches ≡ some ws = rw (t, watches_at) at found in
            let same : b.watches ≡ ws = cc in
            let g : get id b.watches ≡ some conn = rw same there in
            elim (Bool-cases (is_at e' p' b)) [
              | inl t' ↦
                  let h' : some b.watches ≡ some ids = rw (t', watches_at) at h in
                  let same' : b.watches ≡ ids = cc in
                  rw (t', set_watches, watches_at, t)
                    (
                      remove w ids,
                      refl,
                      subst (λ m. get id (remove w m) ≡ some conn) same' (same_bucket b t t' g),
                    )
              | inr f' ↦ rw (f', set_watches, watches_at, t) (b.watches, refl, g)
            ]
        | inr f ↦
            let later : watches_at e p bs ≡ some ws = rw (f, watches_at) at found in
            elim (Bool-cases (is_at e' p' b)) [
              | inl t' ↦ rw (t', set_watches, watches_at, f) (ws, later, there)
              | inr f' ↦
                  let h' : watches_at e' p' bs ≡ some ids = rw (f', watches_at) at h in
                  rw (f', set_watches, watches_at, f)
                    (set_watches-Watching ids bs h' (ws, later, there))
            ]
      ]

      -- A bucket that is dropped has no watch but the one that reports.
      drop_bucket-Watching :
          (bs : List Bucket)
          → ((b : Bucket) → is_at e p b ≡ true → is_at e' p' b ≡ true → ⊥)
          → Watching bs
          → Watching (drop_bucket e' p' bs)
      unfolding drop_bucket watches_at
      drop_bucket-Watching [] apart (ws, found, there) = absurd (cc)
      drop_bucket-Watching (b ∷ bs) apart (ws, found, there) = elim (Bool-cases (is_at e p b)) [
        | inl t ↦ elim (Bool-cases (is_at e' p' b)) [
          | inl t' ↦ absurd (apart b t t')
          | inr f' ↦ rw (f', drop_bucket, watches_at, t) (ws, rw (t, watches_at) at found, there)
        ]
        | inr f ↦
            let later : watches_at e p bs ≡ some ws = rw (f, watches_at) at found in
            let rest = drop_bucket-Watching bs apart (ws, later, there) in
            elim (Bool-cases (is_at e' p' b)) [
              | inl t' ↦ rw (t', drop_bucket) rest
              | inr f' ↦ rw (f', drop_bucket, watches_at, f) rest
            ]
      ]

      remove_and_is_empty-Watching :
          (c : Conns) → Watching c.buckets → Watching (remove_and_is_empty e' p' w c).0.buckets
      unfolding remove_and_is_empty
      remove_and_is_empty-Watching c (ws, found, there) =
          elim (Option-cases (watches_at e' p' c.buckets)) [
            | inl g ↦ rw (g, remove_and_is_empty) (ws, found, there)
            | inr (ids, g) ↦ elim (Bool-cases (is_empty (remove w ids))) [
              | inr f ↦
                  rw (g, remove_and_is_empty, f)
                    (set_watches-Watching ids c.buckets g (ws, found, there))
              | inl t ↦
                  rw (g, remove_and_is_empty, t)
                    (drop_bucket-Watching c.buckets (apart ids g t) (ws, found, there))
            ]
          ]
        where
          apart :
              (ids : Map ConnId)
              → watches_at e' p' c.buckets ≡ some ids
              → is_empty (remove w ids) ≡ true
              → (b : Bucket) → is_at e p b ≡ true
              → is_at e' p' b ≡ true
              → ⊥
          apart ids g t b one two =
              let same_e : e' ≡ e = ground arith in
              let same_p : p' ≡ p = ground arith in
              let found' : watches_at e' p' c.buckets ≡ some ws = rw (same_e, same_p) found in
              let same : ids ≡ ws = cc in
              let there' : get id ids ≡ some conn = rw same there in
              empty_none id conn (remove w ids) t
                (get_left w id conn ids (spared same_e same_p) there')

  -- The visit is not the report of this watch's own watcher.
  abbrev pub Spares : Visit → Type 0
  Spares (arrive now e' p' other) = Unit
  Spares (leave e' p' w) = e' ≡ e → p' ≡ p → w ≢ id

  insert_conn-Watching :
      (now : ℕ) (e' : EndpointId) (p' : StableConnId) (other : ConnId) (c : Conns)
      → c.next_id + 1 < 2 ^ 64
      → id ≤ c.next_id
      → Watching c.buckets
      → Watching (insert_conn now e' p' other c).conns.buckets
  unfolding insert_conn
  insert_conn-Watching now e' p' other c small older k =
      elim (Option-cases (get p' (prune_closed now c.closed))) [
        | inr (x, g) ↦ rw (g, insert_conn) k
        | inl g ↦
            let fresh : (c.next_id + 1) % 2 ^ 64 ≢ id = omega (arith, small, older) in
            rw (g, insert_conn)
              (add_watch-Watching e' p' ((c.next_id + 1) % 2 ^ 64) other c.buckets fresh k)
      ]

  pub visits-Watching :
      (vs : List Visit) (c : Conns)
      → c.next_id + length vs < 2 ^ 64
      → id ≤ c.next_id
      → All Spares vs
      → Watching c.buckets
      → Watching (visits vs c).buckets
  unfolding visits visit
  visits-Watching [] c small older spared k = k
  visits-Watching (arrive now e' p' other ∷ vs) c small older spared k =
      let next = insert_conn-next_id now e' p' other c in
      visits-Watching vs (insert_conn now e' p' other c).conns (omega (arith, small, next))
        (omega (arith, small, older, next)) spared.1
        (insert_conn-Watching now e' p' other c (omega (arith, small)) older k)
  visits-Watching (leave e' p' w ∷ vs) c small older spared k =
      let same = remove_and_is_empty-next_id e' p' w c in
      visits-Watching vs (remove_and_is_empty e' p' w c).0 (omega (arith, small, same))
        (omega (arith, older, same)) spared.1 (remove_and_is_empty-Watching e' p' w spared.0 c k)
