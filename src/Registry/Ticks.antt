-- ===== src/Registry/Ticks.antt =====
-- What `handle_tick` of registry.rs does to one peer, by its phase.
use iroh_ble_transport.Prelude.{
  retain, Bool, Bool-cases, List, Map, [], arith, false, get, inl, inr, none, refl, some, sym, true,
  ℕ, ◌++◌, ◌<◌, ◌==◌, ◌∙◌, ◌∷◌, ◌≡◌, ◌≤◌, ◌⊎◌, ap, append_assoc, ltb, leb, not, is_empty,
  if◌then◌else◌,
}
use iroh_ble_transport.Registry.Connecting.{stay}
use iroh_ble_transport.Peer.{
  unknown, handshaking, DeadReason, DeviceId, DisconnectReason, PeerEntry, PeerPhase, connected,
  connecting, dead, discovered, draining, gatt, pending_dial, reconnecting, restoring,
  start_connect, retire_lifecycle,
}
use iroh_ble_transport.Registry.Step.{Effect, Env, Step, act}
use iroh_ble_transport.Registry.Entry.{
  abandon_outstanding, arm_for_dial, begin_connect, clear_connection_state, drain_to_draining,
  draining_timeout, restoring_timeout, resume_drained_entry,
}
use iroh_ble_transport.Registry.State.{Outcome, Registry, prune_verified_prefixes, sweep, sweep_all}
use iroh_ble_transport.Registry.Closing.{
  drained_to_dead, elapsed, handle_tick, tick_in, wedged, is_expired, is_wedged, tick_entry,
}

-- The first effects stand among the others, in their order.
abbrev pub Within : List Effect → List Effect → Type 0
Within fs all = (before : List Effect) × (after : List Effect) × (all ≡ before ++ (fs ++ after))

abbrev pub Unchanged : PeerEntry → Step → Type 0
Unchanged e s = (s.entry ≡ e) × (s.effects ≡ [])

-- The peer is connecting, and the driver is told to dial, under the entry's lifecycle.
abbrev pub Dialled : Env → ℕ → PeerEntry → Step → Type 0
Dialled env attempt e s =
    (s.entry.phase ≡ connecting attempt env.now gatt)
    × Within (act (start_connect e.device_id attempt s.entry.lifecycle_id) ∷ []) s.effects

abbrev pub Died : Env → PeerEntry → Step → Type 0
Died env e s =
    s.entry ≡ record e { target_endpoint = none; phase = dead DeadReason.drained env.now }

-- The end of a drain: the peer is dead, or it was to be resumed, and then it is dialled if datagrams
-- wait for it.
abbrev pub Drained : Env → PeerEntry → Step → Type 0
Drained env e s =
    ((e.resume_after_drain ≡ false) × Died env e s)
    ⊎ ((e.resume_after_drain ≡ true)
        × (((is_empty e.pending_sends ≡ true) × (s.entry.phase ≡ discovered env.now))
            ⊎ ((is_empty e.pending_sends ≡ false) × Dialled env 0 e s)))

-- What a tick makes of an entry in a phase.
abbrev pub TickedIn : PeerPhase → Env → PeerEntry → Step → Type 0
TickedIn (reconnecting attempt next_at reason) env e s =
    ((env.now < next_at) × Unchanged e s) ⊎ ((next_at ≤ env.now) × Dialled env attempt e s)
TickedIn (pending_dial since deadline prefix) env e s =
    ((env.now < deadline) × Unchanged e s) ⊎ ((deadline ≤ env.now) × Dialled env 0 e s)
TickedIn (draining since reason) env e s =
    ((elapsed env.now since ≤ draining_timeout) × Unchanged e s)
    ⊎ ((draining_timeout < elapsed env.now since) × Drained env e s)
TickedIn (restoring since) env e s =
    ((elapsed env.now since ≤ restoring_timeout) × Unchanged e s)
    ⊎ ((restoring_timeout < elapsed env.now since) × Died env e s)
TickedIn (connected since ch gen up) env e s =
    ((is_wedged env e ≡ false) × Unchanged e s)
    ⊎ ((is_wedged env e ≡ true) × (s.entry.phase ≡ draining env.now DisconnectReason.link_dead))
TickedIn other env e s = Unchanged e s

begin_connect-Dialled :
    (env : Env) (attempt n : ℕ) (e : PeerEntry)
    → Dialled env attempt e (begin_connect env attempt n e)
unfolding begin_connect abandon_outstanding
begin_connect-Dialled env attempt n e =
    (refl, (act (retire_lifecycle e.device_id e.lifecycle_id) ∷ [], [], refl))

resume_drained_entry-Drained :
    (env : Env) (n : ℕ) (e : PeerEntry)
    → e.resume_after_drain ≡ true
    → Drained env e (resume_drained_entry env n e)
unfolding resume_drained_entry clear_connection_state arm_for_dial begin_connect abandon_outstanding
resume_drained_entry-Drained env n e h = elim (Bool-cases (is_empty e.pending_sends)) [
  | inl t ↦ inr (h, inl (t, rw (t, resume_drained_entry, arm_for_dial) refl))
  | inr f ↦ inr (
    h,
    inr (
      f,
      rw (f, resume_drained_entry, arm_for_dial)
          (
            refl,
            (
              act (retire_lifecycle e.device_id e.lifecycle_id)
                  ∷ act (retire_lifecycle e.device_id n)
                  ∷ [],
              [],
              refl,
            ),
          ),
    ),
  )
]

ended-Drained :
    (resumes : Bool) (env : Env) (n : ℕ) (e : PeerEntry)
    → e.resume_after_drain ≡ resumes
    → Drained env e (if resumes then resume_drained_entry env n e else drained_to_dead env n e)
unfolding drained_to_dead
ended-Drained true env n e h = resume_drained_entry-Drained env n e h
ended-Drained false env n e h = inl (h, refl)

stay_or_dial :
    (env : Env) (attempt at n : ℕ) (e : PeerEntry)
    → let s = if leb at env.now then begin_connect env attempt n e else stay n e in
      ((env.now < at) × Unchanged e s) ⊎ ((at ≤ env.now) × Dialled env attempt e s)
stay_or_dial env attempt at n e = elim (Bool-cases (leb at env.now)) [
  | inl t ↦ rw t (inr (ground arith, begin_connect-Dialled env attempt n e))
  | inr f ↦ rw f (inl (ground arith, (refl, refl)))
]

tick_in-TickedIn :
    (p : PeerPhase) (env : Env) (n : ℕ) (e : PeerEntry) → TickedIn p env e (tick_in p env n e)
unfolding tick_in wedged drain_to_draining drained_to_dead
tick_in-TickedIn (reconnecting attempt next_at reason) env n e =
    stay_or_dial env attempt next_at n e
tick_in-TickedIn (pending_dial since deadline prefix) env n e = stay_or_dial env 0 deadline n e
tick_in-TickedIn (draining since reason) env n e =
    elim (Bool-cases (ltb draining_timeout (elapsed env.now since))) [
      | inr f ↦ rw (tick_in, f) (inl (ground arith, (refl, refl)))
      | inl t ↦
          rw (tick_in, t) (inr (ground arith, ended-Drained e.resume_after_drain env n e refl))
    ]
tick_in-TickedIn (restoring since) env n e =
    elim (Bool-cases (ltb restoring_timeout (elapsed env.now since))) [
      | inr f ↦ rw (tick_in, f) (inl (ground arith, (refl, refl)))
      | inl t ↦ rw (tick_in, t) (inr (ground arith, refl))
    ]
tick_in-TickedIn (connected since ch gen up) env n e = elim (Bool-cases (is_wedged env e)) [
  | inr f ↦ rw (tick_in, f) (inl (refl, (refl, refl)))
  | inl t ↦ rw (tick_in, t) (inr (refl, refl))
]
tick_in-TickedIn unknown env n e = (refl, refl)
tick_in-TickedIn (discovered since) env n e = (refl, refl)
tick_in-TickedIn (connecting attempt started path) env n e = (refl, refl)
tick_in-TickedIn (handshaking since ch) env n e = (refl, refl)
tick_in-TickedIn (dead reason at) env n e = (refl, refl)

-- A sweep takes each entry, from some supply of identities, the step that it makes.
sweep-Within :
    (f : ℕ → PeerEntry → Step) (n : ℕ) (m : Map PeerEntry) (d : DeviceId) (e : PeerEntry)
    → get d m ≡ some e
    → (k : ℕ) × (get d (sweep f n m).peers ≡ some (f k e).entry)
      × Within (f k e).effects (sweep f n m).effects
unfolding get sweep
sweep-Within f n [] d e g = absurd (cc)
sweep-Within f n ((j, w) ∷ m) d e g = elim (Bool-cases (j == d)) [
  | inl t ↦
      let here : some w ≡ some e = rw t at g in
      let same : w ≡ e = cc in
      (
        n,
        rw t (ap (λ w. some (f n w).entry) same),
        ([], (sweep f (f n w).next m).effects, rw same refl),
      )
  | inr t ↦
      let there : get d m ≡ some e = rw t at g in
      let (k, found, (before, after, whole)) = sweep-Within f (f n w).next m d e there in
      (
        k,
        rw t found,
        (
          (f n w).effects ++ before,
          after,
          rw whole (sym (append_assoc (f n w).effects before ((f k e).effects ++ after))),
        ),
      )
]

-- An entry that passes the test is found after the others are dropped.
get-retain :
    (p : PeerEntry → Bool) (m : Map PeerEntry) (d : DeviceId) (e : PeerEntry)
    → get d m ≡ some e
    → p e ≡ true
    → get d (retain p m) ≡ some e
unfolding get retain
get-retain p [] d e g h = absurd (cc)
get-retain p ((j, w) ∷ m) d e g h = elim (Bool-cases (j == d)) [
  | inl t ↦
      let here : some w ≡ some e = rw t at g in
      let same : w ≡ e = cc in
      let kept : p w ≡ true = ap p same ∙ h in rw (kept, retain) (rw t here)
  | inr t ↦
      let there : get d m ≡ some e = rw t at g in
      let rest = get-retain p m d e there h in
      elim (Bool-cases (p w)) [ inl q ↦ rw (q, retain) (rw t rest) | inr q ↦ rw (q, retain) rest ]
]

-- The peer's part in what a tick leaves: a step of its entry by its phase, whose effects are among the
-- tick's; and the stepped entry, unless it has been dead for long enough to be dropped.
abbrev pub Ticked : Env → DeviceId → PeerEntry → Outcome → Type 0
Ticked env d e o =
    (s : Step) × TickedIn e.phase env e s
    × ((is_expired env.now s.entry.phase ≡ true) ⊎ (get d o.registry.peers ≡ some s.entry))
    × Within s.effects o.effects

pub handle_tick-Ticked :
    (env : Env) (r : Registry) (d : DeviceId) (e : PeerEntry)
    → get d r.peers ≡ some e
    → Ticked env d e (handle_tick env r)
unfolding handle_tick sweep_all prune_verified_prefixes tick_entry
handle_tick-Ticked env r d e g =
    let (k, found, within) = sweep-Within (tick_entry env) r.next_lifecycle r.peers d e g in
    let s = tick_entry env k e in
    (
      s,
      tick_in-TickedIn e.phase env k e,
      elim (Bool-cases (is_expired env.now s.entry.phase)) [
        | inl t ↦ inl t
        | inr f ↦
            inr (get-retain (λ e. not (is_expired env.now e.phase)) _ d s.entry found (rw f refl))
      ],
      within,
    )
