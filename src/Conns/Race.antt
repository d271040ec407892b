-- ===== src/Conns/Race.antt =====
-- About a connection that is registered after the end of its pipe: `close_pipe`, then `insert` of
-- conns.rs.
use iroh_ble_transport.Prelude.{
  All, AllPairs, AllPairs-mono, Bool-cases, KeysOk, KeysOk-insert, List, Map, Option-cases, [],
  arith, get, get-insert_self, inl, inr, insert, insert-AllPairs, is_empty, length, refl, remove,
  some, subst, sym, true, ℕ, ◌%◌, ◌+◌, ◌-◌, ◌<◌, ◌^◌, ◌∷◌, ◌≡◌, ◌≢◌, ◌≤◌,
}
use iroh_ble_transport.Aging.Limits.{
  AllPairs-prune_oldest, KeysOk-prune_oldest, length-prune_oldest,
}
use iroh_ble_transport.Aging.Newest.{Newest, prune_oldest-Newest}
use iroh_ble_transport.Peer.{EndpointId}
use iroh_ble_transport.Conns.Handle.{ConnId}
use iroh_ble_transport.Conns.Buckets.{watches_at}
use iroh_ble_transport.Conns.Index.{
  ClosedPipe, Conns, Reason, close_pipe, closed_pipe_ttl, insert_conn, is_recent, max_closed_pipes,
  no_conns, prune_closed, remove_and_is_empty,
}
use iroh_ble_transport.Routing.Table.{StableConnId}

-- Each pipe is remembered once, under a number that has been given out, and they are few.
abbrev pub ClosedOk : Conns → Type 0
ClosedOk c =
    KeysOk c.closed
    × AllPairs (λ p (x : ClosedPipe). x.seq < c.next_close_seq) c.closed
    × (length c.closed ≤ max_closed_pipes)

pub no_conns-ClosedOk : ClosedOk no_conns
unfolding no_conns
no_conns-ClosedOk = (tt, tt, omega arith)

ClosedOk-prune :
    (now n : ℕ) (m : Map ClosedPipe)
    → KeysOk m
    → AllPairs (λ p (x : ClosedPipe). x.seq < n) m
    → KeysOk (prune_closed now m)
      × AllPairs (λ p (x : ClosedPipe). x.seq < n) (prune_closed now m)
      × (length (prune_closed now m) ≤ max_closed_pipes)
unfolding prune_closed
ClosedOk-prune now n m keys h =
    let age : ClosedPipe → ℕ = λ c. c.seq in
    (
      KeysOk-prune_oldest (is_recent now) age max_closed_pipes m keys,
      AllPairs-prune_oldest (is_recent now) age max_closed_pipes (λ p x. x.seq < n) m h,
      length-prune_oldest (is_recent now) age max_closed_pipes m keys,
    )

pub insert_conn-ClosedOk :
    (now : ℕ) (e : EndpointId) (p : StableConnId) (conn : ConnId) (c : Conns)
    → ClosedOk c
    → ClosedOk (insert_conn now e p conn c).conns
unfolding insert_conn
insert_conn-ClosedOk now e p conn c (keys, old, few) =
    let kept = ClosedOk-prune now c.next_close_seq c.closed keys old in
    elim (Option-cases (get p (prune_closed now c.closed))) [
      | inl g ↦ rw (g, insert_conn) kept
      | inr (x, g) ↦ rw (g, insert_conn) kept
    ]

abbrev pub closing : ℕ → ℕ → Reason → Conns → ClosedPipe
closing now code reason c = record {
  code = code;
  reason = reason;
  closed_at = now;
  seq = c.next_close_seq;
}

pub close_pipe-ClosedOk :
    (now : ℕ) (p : StableConnId) (code : ℕ) (reason : Reason) (c : Conns)
    → c.next_close_seq + 1 < 2 ^ 64
    → ClosedOk c
    → ClosedOk (close_pipe now p code reason c).0
unfolding close_pipe
close_pipe-ClosedOk now p code reason c small (keys, old, few) =
    let x = closing now code reason c in
    let n = (c.next_close_seq + 1) % 2 ^ 64 in
    let more =
      AllPairs-mono (λ q (y : ClosedPipe). y.seq < c.next_close_seq)
        (λ q (y : ClosedPipe). y.seq < n) (λ q y h. omega (arith, h, small)) c.closed old in
    ClosedOk-prune now n (insert p x c.closed) (KeysOk-insert p x c.closed keys)
      (insert-AllPairs (λ q (y : ClosedPipe). y.seq < n) p x c.closed (omega (arith, small)) more)

-- The pipe is remembered so, and has been closed last.
abbrev pub Remembers : StableConnId → ClosedPipe → Map ClosedPipe → Type 0
Remembers p x m = KeysOk m × Newest (λ (y : ClosedPipe). y.seq) p x m × (get p m ≡ some x)

Remembers-prune :
    (now : ℕ) (p : StableConnId) (x : ClosedPipe) (m : Map ClosedPipe)
    → now - x.closed_at ≤ closed_pipe_ttl
    → Remembers p x m
    → Remembers p x (prune_closed now m)
unfolding prune_closed
Remembers-prune now p x m recent (keys, newest, found) =
    let age : ClosedPipe → ℕ = λ y. y.seq in
    let alive : is_recent now x ≡ true = ground arith in
    (
      KeysOk-prune_oldest (is_recent now) age max_closed_pipes m keys,
      AllPairs-prune_oldest (is_recent now) age max_closed_pipes
          (λ j (w : ClosedPipe). j ≢ p → w.seq < x.seq) m newest,
      prune_oldest-Newest age p x (is_recent now) max_closed_pipes m (omega arith) keys alive newest
          found,
    )

-- The record of a close survives the prune that follows it, however many there are.
pub close_pipe-Remembers :
    (now : ℕ) (p : StableConnId) (code : ℕ) (reason : Reason) (c : Conns)
    → ClosedOk c
    → Remembers p (closing now code reason c) (close_pipe now p code reason c).0.closed
unfolding close_pipe
close_pipe-Remembers now p code reason c (keys, old, few) =
    let x = closing now code reason c in
    let newest =
      insert-AllPairs (λ j (w : ClosedPipe). j ≢ p → w.seq < x.seq) p x c.closed
        (λ ne. absurd (ne refl))
        (AllPairs-mono (λ q (y : ClosedPipe). y.seq < c.next_close_seq)
          (λ j (w : ClosedPipe). j ≢ p → w.seq < x.seq) (λ q y h ne. h) c.closed old) in
    Remembers-prune now p x (insert p x c.closed) (omega arith)
      (KeysOk-insert p x c.closed keys, newest, get-insert_self p x c.closed)

-- What other connections do in the meantime.
pub data Visit : Type 0 where
  arrive : ℕ → EndpointId → StableConnId → ConnId → Visit
  leave : EndpointId → StableConnId → ℕ → Visit

unfoldable pub visit : Visit → Conns → Conns
unfolding insert_conn remove_and_is_empty
visit (arrive now e p conn) c = (insert_conn now e p conn c).conns
visit (leave e p watch_id) c = (remove_and_is_empty e p watch_id c).0

unfoldable pub visits : List Visit → Conns → Conns
unfolding visit
visits [] c = c
visits (v ∷ vs) c = visits vs (visit v c)

-- No later than the memory of a close at that time lasts.
abbrev pub WithinTtl : ℕ → Visit → Type 0
WithinTtl t (arrive now e p conn) = now - t ≤ closed_pipe_ttl
WithinTtl t (leave e p watch_id) = Unit

insert_conn-closed :
    (now : ℕ) (e : EndpointId) (p : StableConnId) (conn : ConnId) (c : Conns)
    → (insert_conn now e p conn c).conns.closed ≡ prune_closed now c.closed
unfolding insert_conn
insert_conn-closed now e p conn c = elim (Option-cases (get p (prune_closed now c.closed))) [
  | inl g ↦ rw (g, insert_conn) refl
  | inr (x, g) ↦ rw (g, insert_conn) refl
]

remove_and_is_empty-closed :
    (e : EndpointId) (p : StableConnId) (watch_id : ℕ) (c : Conns)
    → (remove_and_is_empty e p watch_id c).0.closed ≡ c.closed
unfolding remove_and_is_empty
remove_and_is_empty-closed e p watch_id c = elim (Option-cases (watches_at e p c.buckets)) [
  | inl g ↦ rw (g, remove_and_is_empty) refl
  | inr (ids, g) ↦ elim (Bool-cases (is_empty (remove watch_id ids))) [
    | inl t ↦ rw (g, remove_and_is_empty, t) refl
    | inr f ↦ rw (g, remove_and_is_empty, f) refl
  ]
]

visits-Remembers :
    (p : StableConnId) (x : ClosedPipe) (vs : List Visit) (c : Conns)
    → All (WithinTtl x.closed_at) vs
    → Remembers p x c.closed
    → Remembers p x (visits vs c).closed
unfolding visits visit
visits-Remembers p x [] c soon h = h
visits-Remembers p x (arrive now e q conn ∷ vs) c soon h =
    visits-Remembers p x vs (insert_conn now e q conn c).conns soon.1 (
      subst (Remembers p x) (sym (insert_conn-closed now e q conn c))
        (Remembers-prune now p x c.closed soon.0 h))
visits-Remembers p x (leave e q watch_id ∷ vs) c soon h =
    visits-Remembers p x vs (remove_and_is_empty e q watch_id c).0 soon.1
      (subst (Remembers p x) (sym (remove_and_is_empty-closed e q watch_id c)) h)

-- A connection that is registered on a pipe within 30 seconds of its close, whatever other connections
-- did in between, is not entered in the table, and one attempt is made to close it, with the code and
-- the reason of the pipe.
pub insert_conn-after-close_pipe :
    (t now : ℕ) (e : EndpointId) (p : StableConnId) (conn : ConnId) (code : ℕ) (reason : Reason)
    (vs : List Visit) (c : Conns)
    → ClosedOk c
    → All (WithinTtl t) vs
    → now - t ≤ closed_pipe_ttl
    → let before = visits vs (close_pipe t p code reason c).0 in
      let done = insert_conn now e p conn before in
      (done.conns.buckets ≡ before.buckets)
      × (done.attempts ≡ record { conn = conn; pipe = p; code = code; reason = reason } ∷ [])
unfolding insert_conn
insert_conn-after-close_pipe t now e p conn code reason vs c closed_ok soon recent =
    let x = closing t code reason c in
    let c1 = (close_pipe t p code reason c).0 in
    let kept = visits-Remembers p x vs c1 soon (close_pipe-Remembers t p code reason c closed_ok) in
    let (_, _, found) = Remembers-prune now p x (visits vs c1).closed recent kept in
    rw (found, insert_conn) (refl, refl)
