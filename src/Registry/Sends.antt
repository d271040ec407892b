-- ===== src/Registry/Sends.antt =====
-- About the order of datagrams on the way to the pipe, and the answers to the senders of those that
-- a drain drops (`SendDecision::Enqueue` and `drain_to_draining` of registry.rs).
use mathlib.Core.List.{append-nil, append_assoc}
use iroh_ble_transport.Prelude.{
  List, Bool-cases, Option-cases, [], ap, sym, true, false, arith, if◌then◌else◌, inl, inr, map,
  none, refl, some, suc, ℕ, ◌++◌, ◌∙◌, ◌∷◌, ◌≡◌, ◌≢◌, ◌⊎◌,
}
use iroh_ble_transport.Peer.{
  DisconnectReason, PeerEntry, PendingSend, SendResult, ack_send, broken_pipe, would_block,
}
use iroh_ble_transport.Registry.Step.{
  Effect, Env, Step, TrySend, act, answer_all, closed, full, inbound, outbound, sent,
}
use iroh_ble_transport.Registry.Entry.{drain_to_draining, remember}
use iroh_ble_transport.Registry.Sending.{Flush, enqueue_send, flush_sends, send_now}

-- What a step has handed to a pipe for sending.
unfoldable pub handed : List Effect → List PendingSend
handed [] = []
handed (outbound tx s ∷ fs) = s ∷ handed fs
handed (inbound tx b ∷ fs) = handed fs
handed (act a ∷ fs) = handed fs

-- An answer to a sender: the generation of its datagram, its waker and the result.
pub record Answer : Type 0 where
  pub tx_gen : ℕ
  pub waker : ℕ
  pub result : SendResult

abbrev pub answer_to : PendingSend → SendResult → Answer
answer_to s result = record { tx_gen = s.tx_gen; waker = s.waker; result = result }

-- The answers that a step gives to senders.
unfoldable pub answers : List Effect → List Answer
answers [] = []
answers (act (ack_send gen waker result) ∷ fs) =
    record { tx_gen = gen; waker = waker; result = result } ∷ answers fs
answers (f ∷ fs) = answers fs

handed-append : (fs gs : List Effect) → handed (fs ++ gs) ≡ handed fs ++ handed gs
unfolding handed
handed-append [] gs = refl
handed-append (outbound tx s ∷ fs) gs = rw (handed-append fs gs) refl
handed-append (inbound tx b ∷ fs) gs = handed-append fs gs
handed-append (act a ∷ fs) gs = handed-append fs gs

-- The sends that the pipe took and the ones left over are the sends there were, in order.
flush_sends_order :
    (env : Env) (i tx : ℕ) (ss : List PendingSend)
    → handed (flush_sends env i tx ss).effects ++ (flush_sends env i tx ss).left ≡ ss
unfolding flush_sends handed
flush_sends_order env i tx [] = refl
flush_sends_order env i tx (s ∷ ss) = ground (arith, flush_sends_order env (suc i) tx ss)

TrySend-cases : (t : TrySend) → (t ≡ sent) ⊎ ((t ≡ full) ⊎ (t ≡ closed))
TrySend-cases sent = inl refl
TrySend-cases full = inr (inl refl)
TrySend-cases closed = inr (inr refl)

-- How a flush ends: nothing is left, or its last try met a full pipe, or a closed one.
abbrev FlushEnd : Env → Flush PendingSend → Type 0
FlushEnd env f =
    (f.left ≡ [])
    ⊎ (((j : ℕ) × (suc j ≡ f.tries) × (env.try_send j ≡ full) × (f.left ≢ [])) ⊎ (f.broken ≡ true))

flush_sends-FlushEnd :
    (env : Env) (i tx : ℕ) (ss : List PendingSend) → FlushEnd env (flush_sends env i tx ss)
unfolding flush_sends
flush_sends-FlushEnd env i tx [] = inl refl
flush_sends-FlushEnd env i tx (s ∷ ss) = elim (TrySend-cases (env.try_send i)) [
  | inl t ↦ rw (t, flush_sends) (flush_sends-FlushEnd env (suc i) tx ss)
  | inr (inl t) ↦ rw (t, flush_sends) (inr (inl (i, refl, t, (λ e. absurd (cc)))))
  | inr (inr t) ↦ rw (t, flush_sends) (inr (inr refl))
]

-- What is handed on and kept is what waited, with the new datagram at its end.
abbrev pub InOrder : List PendingSend → PendingSend → Step → Type 0
InOrder old s t = handed t.effects ++ t.entry.pending_sends ≡ old ++ s ∷ []

-- The new datagram is left out, and its sender is told to try again.
abbrev pub TurnedAway : List PendingSend → PendingSend → Step → Type 0
TurnedAway old s t =
    (handed t.effects ++ t.entry.pending_sends ≡ old)
    × (answers t.effects ≡ answer_to s would_block ∷ [])

-- A full pipe left some behind, and took the new datagram at the very next try.
abbrev pub Overtakes : Env → List PendingSend → PendingSend → Step → Type 0
Overtakes env old s t =
    (i : ℕ) × (env.try_send i ≡ full)
    × (env.try_send (suc i) ≡ sent)
    × (taken : List PendingSend) × (handed t.effects ≡ taken ++ s ∷ [])
    × (taken ++ t.entry.pending_sends ≡ old)
    × (t.entry.pending_sends ≢ [])

abbrev pub Placed : Env → List PendingSend → PendingSend → Step → Type 0
Placed env old s t = InOrder old s t ⊎ (TurnedAway old s t ⊎ Overtakes env old s t)

-- The last try by itself: the new datagram alone is handed on, or it waits at the end, or is turned
-- away.
send_now_order :
    (env : Env) (i : ℕ) (s : PendingSend) (n : ℕ) (e : PeerEntry)
    → InOrder e.pending_sends s (send_now env i s n e)
      ⊎ (TurnedAway e.pending_sends s (send_now env i s n e)
          ⊎ ((env.try_send i ≡ sent)
              × (handed (send_now env i s n e).effects ≡ s ∷ [])
              × ((send_now env i s n e).entry.pending_sends ≡ e.pending_sends)))
unfolding send_now handed answers
send_now_order env i s n e = elim (Option-cases e.pipe) [
  | inl g ↦ inl (rw (send_now, g) refl)
  | inr (pipe, g) ↦ elim (TrySend-cases (env.try_send i)) [
    | inl t ↦ inr (inr (t, rw (send_now, g, t) refl, rw (send_now, g, t) refl))
    | inr (inl t) ↦ inr (inl (rw (send_now, g, t) refl, rw (send_now, g, t) refl))
    | inr (inr t) ↦ inl (rw (send_now, g, t) refl)
  ]
]

-- A flush answers nobody.
flush_sends_quiet :
    (env : Env) (i tx : ℕ) (ss : List PendingSend) (fs : List Effect)
    → answers ((flush_sends env i tx ss).effects ++ fs) ≡ answers fs
unfolding flush_sends answers
flush_sends_quiet env i tx [] fs = refl
flush_sends_quiet env i tx (s ∷ ss) fs = ground (arith, flush_sends_quiet env (suc i) tx ss fs)

-- After a flush, what the last try does to what is left it does to all.
module _ (f : Flush PendingSend) (old : List PendingSend) (s : PendingSend) (t : Step)
    (whole : handed f.effects ++ f.left ≡ old) where
  InOrder-flush : InOrder f.left s t → InOrder old s (record t { effects = f.effects ++ t.effects })
  InOrder-flush p =
      rw
        (
          handed-append f.effects t.effects,
          append_assoc (handed f.effects) (handed t.effects) t.entry.pending_sends,
          p,
          ← append_assoc (handed f.effects) f.left (s ∷ []),
          whole,
        )
        refl

  TurnedAway-flush :
      answers (f.effects ++ t.effects) ≡ answers t.effects
      → TurnedAway f.left s t
      → TurnedAway old s (record t { effects = f.effects ++ t.effects })
  TurnedAway-flush quiet p = (
    rw
        (
          handed-append f.effects t.effects,
          append_assoc (handed f.effects) (handed t.effects) t.entry.pending_sends,
          p.0,
          whole,
        )
        refl,
    quiet ∙ p.1,
  )

  Placed-flush :
      (env : Env)
      → FlushEnd env f
      → f.broken ≡ false
      → env.try_send f.tries ≡ sent
      → handed t.effects ≡ s ∷ []
      → t.entry.pending_sends ≡ f.left
      → Placed env old s (record t { effects = f.effects ++ t.effects })
  Placed-flush env ended unbroken try given kept =
      let goes : handed (f.effects ++ t.effects) ≡ handed f.effects ++ s ∷ [] =
        handed-append f.effects t.effects ∙ ap (λ x. handed f.effects ++ x) given in
      elim ended [
        | inl none_left ↦
            let before : handed f.effects ≡ old =
              sym (append-nil (handed f.effects))
              ∙ (ap (λ x. handed f.effects ++ x) (sym none_left) ∙ whole) in
            inl (rw (goes, kept, none_left, before, append-nil) refl)
        | inr (inl (j, number, was_full, some_left)) ↦
            let try' : env.try_send (suc j) ≡ sent = rw number try in
            inr (
              inr (
                j,
                was_full,
                try',
                handed f.effects,
                goes,
                rw kept whole,
                (λ e. some_left (sym kept ∙ e)),
              ))
        | inr (inr b) ↦ absurd (cc)
      ]

-- `Enqueue` hands the datagrams to the pipe, and keeps the rest, in the order in which they waited and
-- the new one last; or leaves the new one out, and then its sender is told to try again; or the new
-- one goes before those that are kept, and then the pipe was full at one try and took it at the next.
pub enqueue_send_order :
    (env : Env) (s : PendingSend) (n : ℕ) (e : PeerEntry)
    → Placed env e.pending_sends s (enqueue_send env s n e)
unfolding enqueue_send handed answers send_now
enqueue_send_order env s n e = elim (Option-cases e.pipe) [
  | inl g ↦ inl (rw (enqueue_send, g, send_now, g) refl)
  | inr (pipe, g) ↦
      let f = flush_sends env 0 pipe.outbound_tx e.pending_sends in
      let e' = record e { pending_sends = f.left; pipe = if f.broken then none else some pipe } in
      let t = send_now env f.tries s n e' in
      let whole = flush_sends_order env 0 pipe.outbound_tx e.pending_sends in
      rw (g, enqueue_send)
        (elim (Bool-cases f.broken) [
          | inl b ↦
              let off : e'.pipe ≡ none = rw b refl in
              inl (InOrder-flush f e.pending_sends s t whole (rw (send_now, off) refl))
          | inr b ↦ elim (send_now_order env f.tries s n e') [
            | inl p ↦ inl (InOrder-flush f e.pending_sends s t whole p)
            | inr (inl p) ↦ inr (
                inl (
                  TurnedAway-flush f e.pending_sends s t whole
                    (flush_sends_quiet env 0 pipe.outbound_tx e.pending_sends t.effects) p))
            | inr (inr (try, given, kept)) ↦
                Placed-flush f e.pending_sends s t whole env
                  (flush_sends-FlushEnd env 0 pipe.outbound_tx e.pending_sends) b try given kept
          ]
        ])
]

answers-answer_all :
    (result : SendResult) (ss : List PendingSend) (fs : List Effect)
    → answers (answer_all result ss ++ fs) ≡ map (λ s. answer_to s result) ss ++ answers fs
unfolding answers
answers-answer_all result [] fs = refl
answers-answer_all result (s ∷ ss) fs =
    ap (λ rs. answer_to s result ∷ rs) (answers-answer_all result ss fs)

remember_quiet : (env : Env) (e : PeerEntry) → answers (remember env e) ≡ []
unfolding remember answers
remember_quiet env e = ground arith

-- A peer that is drained keeps no datagram, and the sender of each, by its generation and its waker, is
-- answered that the pipe is broken, in their order.
pub drain_to_draining-answers :
    (env : Env) (reason : DisconnectReason) (n : ℕ) (e : PeerEntry)
    → (answers (drain_to_draining env reason n e).effects
        ≡ map (λ s. answer_to s broken_pipe) e.pending_sends)
      × ((drain_to_draining env reason n e).entry.pending_sends ≡ [])
unfolding drain_to_draining answers
drain_to_draining-answers env reason n e = (
  rw
      (
        answers-answer_all broken_pipe e.pending_sends (remember env e),
        remember_quiet env e,
        append-nil,
      )
      refl,
  refl,
)
