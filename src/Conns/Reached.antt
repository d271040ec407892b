-- ===== src/Conns/Reached.antt =====
-- Which connections the end of a pipe reaches, and which of them it closes: `close_pipe` and
-- `close_if_only_path` of conns.rs.
use iroh_ble_transport.Prelude.{
  length, ◌&&◌, ◌<◌, All, Bool, Bool-cases, List, Map, Option, Option-cases, [], any, ap, arith,
  false, get, inl, inr, is_empty, is_some, none, not, refl, remove, some, sym, true, ℕ, ◌%◌, ◌++◌,
  ◌+◌, ◌==◌, ◌^◌, ◌↔◌, ◌∙◌, ◌∷◌, ◌≡◌, ◌⊎◌,
}
use iroh_ble_transport.Peer.{EndpointId}
use iroh_ble_transport.Routing.Address.{
  CustomAddrs, ParsedToken, TokenError, ble_transport_id, parse_token_addr, refused, token,
}
use iroh_ble_transport.Conns.Handle.{
  ConnId, TransportAddr, another, close_if_only_path, custom, is_other_path,
}
use iroh_ble_transport.Conns.Buckets.{
  Bucket, add_watch, drop_bucket, is_at, riding, set_watches, values, watches_at,
}
use iroh_ble_transport.Conns.Index.{
  Attempt, Conns, Reason, attempts_on, close_pipe, insert_conn, prune_closed, remove_and_is_empty,
}
use iroh_ble_transport.Routing.Table.{StableConnId}
use iroh_ble_transport.Conns.Race.{Visit, visits}
use iroh_ble_transport.Conns.Watched.{Spares, Watching, add_watch-Watching_new, visits-Watching}

module _ {ℓ} {A : Type ℓ} (p : A → Bool) where
  any-append_left : (xs ys : List A) → any p xs ≡ true → any p (xs ++ ys) ≡ true
  any-append_left [] ys h = absurd (cc)
  any-append_left (x ∷ xs) ys h = ground (arith, any-append_left xs ys)

  any-append_right : (xs ys : List A) → any p ys ≡ true → any p (xs ++ ys) ≡ true
  any-append_right [] ys h = h
  any-append_right (x ∷ xs) ys h = ground (arith, any-append_right xs ys h)

abbrev pub Stands : ConnId → List ConnId → Type 0
Stands conn cs = any (λ c. c == conn) cs ≡ true

values-get :
    (id : ℕ) (conn : ConnId) (m : Map ConnId) → get id m ≡ some conn → Stands conn (values m)
unfolding values get
values-get id conn [] g = absurd (cc)
values-get id conn ((j, w) ∷ m) g = elim (Bool-cases (j == id)) [
  | inl t ↦ let here : some w ≡ some conn = rw t at g in let same : w ≡ conn = cc in ground arith
  | inr f ↦
      let there : get id m ≡ some conn = rw f at g in ground (arith, values-get id conn m there)
]

-- A connection with a watch on a pipe is among those that ride on it.
riding-Watching :
    (e : EndpointId) (p : StableConnId) (id : ℕ) (conn : ConnId) (bs : List Bucket)
    → Watching e p id conn bs
    → Stands conn (riding p bs)
unfolding riding watches_at
riding-Watching e p id conn [] (ws, found, there) = absurd (cc)
riding-Watching e p id conn (b ∷ bs) (ws, found, there) = elim (Bool-cases (is_at e p b)) [
  | inl t ↦
      let on : (b.stable_id == p) ≡ true = ground arith in
      let here : some b.watches ≡ some ws = rw (t, watches_at) at found in
      let same : b.watches ≡ ws = cc in
      rw (riding, on)
        (any-append_left (λ c. c == conn) (values b.watches) (riding p bs)
          (values-get id conn b.watches (rw same there)))
  | inr f ↦
      let later : watches_at e p bs ≡ some ws = rw (f, watches_at) at found in
      let rest = riding-Watching e p id conn bs (ws, later, there) in
      elim (Bool-cases (b.stable_id == p)) [
        | inl on ↦
            rw (riding, on)
              (any-append_right (λ c. c == conn) (values b.watches) (riding p bs) rest)
        | inr off ↦ rw (riding, off) rest
      ]
]

-- Among the attempts is one on the connection, for the pipe.
abbrev pub Told : ConnId → StableConnId → List Attempt → Type 0
Told conn p told = any (λ (a : Attempt). a.conn == conn && a.pipe == p) told ≡ true

Told-attempts_on :
    (p : StableConnId) (code : ℕ) (reason : Reason) (conn : ConnId) (cs : List ConnId)
    → Stands conn cs
    → Told conn p (attempts_on p code reason cs)
Told-attempts_on p code reason conn [] h = absurd (cc)
Told-attempts_on p code reason conn (c ∷ cs) h =
    ground (arith, Told-attempts_on p code reason conn cs)

-- A connection that is registered on a pipe is told at once, where the pipe is remembered as closed, or
-- else when the pipe is closed, whatever connections are registered and whatever other watchers report
-- in between, as long as the watch ids do not wrap.
pub close_pipe-insert_conn :
    (now t : ℕ) (e : EndpointId) (p : StableConnId) (conn : ConnId) (code : ℕ) (reason : Reason)
    (vs : List Visit) (c : Conns)
    → c.next_id + 1 + length vs < 2 ^ 64
    → All (Spares e p (c.next_id + 1) conn) vs
    → let done = insert_conn now e p conn c in
      Told conn p (done.attempts ++ (close_pipe t p code reason (visits vs done.conns)).1)
unfolding insert_conn close_pipe
close_pipe-insert_conn now t e p conn code reason vs c small spared =
    let id = c.next_id + 1 in
    let unwrapped : (c.next_id + 1) % 2 ^ 64 ≡ id = omega (arith, small) in
    elim (Option-cases (get p (prune_closed now c.closed))) [
      | inl g ↦
          let c1 = record c {
            next_id = id;
            closed = prune_closed now c.closed;
            buckets = add_watch e p id conn c.buckets;
          } in
          let watching =
            visits-Watching e p id conn vs c1 small (omega arith) spared
              (add_watch-Watching_new e p id conn c.buckets) in
          rw (g, insert_conn, close_pipe, unwrapped)
            (Told-attempts_on p code reason conn (riding p (visits vs c1).buckets)
              (riding-Watching e p id conn (visits vs c1).buckets watching))
      | inr (x, g) ↦ rw (g, insert_conn) (ground arith)
    ]

watches_at-set_watches :
    (e : EndpointId) (p : StableConnId) (ws : Map ConnId) {ids : Map ConnId} (bs : List Bucket)
    → watches_at e p bs ≡ some ids
    → watches_at e p (set_watches e p ws bs) ≡ some ws
unfolding watches_at set_watches
watches_at-set_watches e p ws {ids} [] h = absurd (cc)
watches_at-set_watches e p ws {ids} (b ∷ bs) h = elim (Bool-cases (is_at e p b)) [
  | inl t ↦ rw (t, set_watches, watches_at, t) refl
  | inr f ↦
      rw (f, set_watches, watches_at, f)
        (watches_at-set_watches e p ws {ids = ids} bs (rw (f, watches_at) at h))
]

watches_at-drop_bucket :
    (e : EndpointId) (p : StableConnId) (bs : List Bucket)
    → watches_at e p (drop_bucket e p bs) ≡ none
unfolding watches_at drop_bucket
watches_at-drop_bucket e p [] = refl
watches_at-drop_bucket e p (b ∷ bs) = elim (Bool-cases (is_at e p b)) [
  | inl t ↦ rw (t, drop_bucket) (watches_at-drop_bucket e p bs)
  | inr f ↦ rw (f, drop_bucket, watches_at, f) (watches_at-drop_bucket e p bs)
]

-- The answer to a watcher that reports is whether a bucket for its endpoint and pipe is left.
pub remove_and_is_empty-watches_at :
    (e : EndpointId) (p : StableConnId) (watch_id : ℕ) (c : Conns)
    → (remove_and_is_empty e p watch_id c).1
      ≡ not (is_some (watches_at e p (remove_and_is_empty e p watch_id c).0.buckets))
unfolding remove_and_is_empty
remove_and_is_empty-watches_at e p watch_id c = elim (Option-cases (watches_at e p c.buckets)) [
  | inl g ↦ rw (g, remove_and_is_empty, g) refl
  | inr (ids, g) ↦
      let left = remove watch_id ids in
      elim (Bool-cases (is_empty left)) [
        | inl t ↦ rw (g, remove_and_is_empty, t, watches_at-drop_bucket e p c.buckets) refl
        | inr f ↦
            rw (g, remove_and_is_empty, f, watches_at-set_watches e p left {ids = ids} c.buckets g)
              refl
      ]
]

ParsedToken-cases :
    (x : ParsedToken) → ((n : ℕ) × (x ≡ token n)) ⊎ ((e : TokenError) × (x ≡ refused e))
ParsedToken-cases (token n) = inl (n, refl)
ParsedToken-cases (refused e) = inr (e, refl)

module _ (api : CustomAddrs) (paths : ConnId → Option (List (TransportAddr api))) where
  -- The path is the pipe's: its address is of this transport, and is read as the pipe's id.
  abbrev pub Rides : StableConnId → TransportAddr api → Type 0
  Rides pipe another = ⊥
  Rides pipe (custom addr) =
      (api.transport_id addr ≡ ble_transport_id) × (parse_token_addr api addr ≡ token pipe)

  abbrev pub OnlyPath : StableConnId → ConnId → Type 0
  OnlyPath pipe conn =
      (addrs : List (TransportAddr api)) × (paths conn ≡ some addrs) × All (Rides pipe) addrs

  is_other_path-Rides :
      (pipe : StableConnId) (a : TransportAddr api)
      → (is_other_path api pipe a ≡ false) ↔ Rides pipe a
  unfolding is_other_path
  is_other_path-Rides pipe another = ((λ h. absurd (cc)), (λ h. absurd h))
  is_other_path-Rides pipe (custom addr) =
      elim (Bool-cases (api.transport_id addr == ble_transport_id)) [
        | inr f ↦ (
          (λ h. let e : true ≡ false = rw (is_other_path, f) at h in absurd (cc)),
          (λ h. absurd (ground arith)),
        )
        | inl t ↦ elim (ParsedToken-cases (parse_token_addr api addr)) [
          | inl (n, e) ↦ (
            (λ h.
                let h' : not (n == pipe) ≡ false = rw (is_other_path, t, e) at h in
                let same : n ≡ pipe = ground arith in (ground arith, e ∙ ap token same)),
            (λ h.
                let same : token n ≡ token pipe = sym e ∙ h.1 in
                let same' : n ≡ pipe = cc in rw (is_other_path, t, e) (ground arith)),
          )
          | inr (x, e) ↦ (
            (λ h. let h' : true ≡ false = rw (is_other_path, t, e) at h in absurd (cc)),
            (λ h. let same : refused x ≡ token pipe = sym e ∙ h.1 in absurd (cc)),
          )
        ]
      ]

  any-Rides :
      (pipe : StableConnId) (addrs : List (TransportAddr api))
      → (any (is_other_path api pipe) addrs ≡ false) ↔ All (Rides pipe) addrs
  any-Rides pipe [] = ((λ h. tt), (λ h. refl))
  any-Rides pipe (a ∷ addrs) =
      let one = is_other_path-Rides pipe a in
      let rest = any-Rides pipe addrs in
      (
        (λ h. (one.0 (ground arith), rest.0 (ground arith))),
        (λ h. let x = one.1 h.0 in let y = rest.1 h.1 in ground arith),
      )

  -- A connection is closed exactly when it is still there and every path that is open on it is the
  -- pipe's: no other transport, and no other pipe.
  pub close_if_only_path_iff :
      (pipe : StableConnId) (conn : ConnId)
      → (close_if_only_path api paths pipe conn ≡ true) ↔ OnlyPath pipe conn
  unfolding close_if_only_path
  close_if_only_path_iff pipe conn = elim (Option-cases (paths conn)) [
    | inl e ↦ (
      (λ h. let h' : false ≡ true = rw (close_if_only_path, e) at h in absurd (cc)),
      (λ h. let e' : none ≡ some h.0 = sym e ∙ h.1 in absurd (cc)),
    )
    | inr (addrs, e) ↦ (
      (λ h.
          let h' : not (any (is_other_path api pipe) addrs) ≡ true =
            rw (close_if_only_path, e) at h in
          (addrs, e, (any-Rides pipe addrs).0 (ground arith))),
      (λ (others, e', all).
          let same : any (is_other_path api pipe) others ≡ false = (any-Rides pipe others).1 all in
          rw (close_if_only_path, e', same) refl),
    )
  ]
