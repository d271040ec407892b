-- ===== src/Reliable/Arrival.antt =====
-- About one arrival of a fragment (`receive_fragment` of reliable.rs, behind the header).
use iroh_ble_transport.Prelude.{
  ==_iff, Bool-cases, List, [], ap, arith, inl, inr, length, none, refl, some, suc, sym, true, zero,
  ℕ, ◌%◌, ◌++◌, ◌+◌, ◌<◌, ◌==◌, ◌∙◌, ◌∷◌, ◌≡◌, ◌≢◌, ◌≤◌, ◌↔◌, ◌⊎◌,
}
use iroh_ble_transport.Reliable.State.{BufferedFragment, Channel, FragmentEntry, is_buffered}
use iroh_ble_transport.Reliable.Receive.{
  accept_and_deliver, ack_again, drain_loop, drain_recv_buf, reassemble, receive_data,
  take_fragment,
}
use iroh_ble_transport.Reliable.Delivery.{
  Between, Buffered, Buffered-later, Buffered-weaken, Free, Free-any, Free-snoc, Free-take_fragment,
  Received, accepted, drain_loop-none, drain_loop-some, order, receive_data_again,
  receive_data_held, receive_data_new, receive_data_next, window_ahead, window_behind,
}

module _ (stream : ℕ → FragmentEntry) where
  Buffered-snoc :
      (lo hi : ℕ) (fs : List BufferedFragment) (f : BufferedFragment)
      → Buffered stream lo hi fs
      → Between stream lo hi f
      → Free f.seq fs
      → Buffered stream lo hi (fs ++ f ∷ [])
  Buffered-snoc lo hi [] f b h g = (h, tt, tt)
  Buffered-snoc lo hi (x ∷ fs) f b h g =
      (b.0, Free-snoc x.seq fs f b.1 (λ e. g.0 (sym e)), Buffered-snoc lo hi fs f b.2 h g.1)

  -- Either nothing is held under the next number, or it is the stream's next fragment.
  abbrev Taken : ℕ → ℕ → List BufferedFragment → Type 0
  Taken n hi fs =
      ((take_fragment (n % 16) fs ≡ none) × Buffered stream (n + 1) hi fs)
      ⊎ ((rest : List BufferedFragment) × (take_fragment (n % 16) fs ≡ some (stream n, rest))
          × Buffered stream (n + 1) hi rest
          × (length rest < length fs)
          × (n < hi))

  take_fragment-Taken :
      (n hi : ℕ) (fs : List BufferedFragment) → hi ≤ n + 6 → Buffered stream n hi fs → Taken n hi fs
  unfolding take_fragment
  take_fragment-Taken n hi [] h b = inl (refl, tt)
  take_fragment-Taken n hi (f ∷ fs) h ((i, p, q, r, s), free, b) =
      elim (Bool-cases (f.seq == n % 16)) [
        | inl e ↦
            let same : f.seq ≡ n % 16 = (==_iff _ _).0 e in
            let number : i ≡ n = omega arith in
            let entry : f.entry ≡ stream n = s ∙ ap stream number in
            inr (
              fs,
              ground arith,
              Buffered-later stream n hi fs (rw (← same) free) b,
              omega arith,
              omega arith,
            )
        | inr e ↦
            let later : n + 1 ≤ i = ground arith in
            elim (take_fragment-Taken n hi fs h b) [
              | inl (t, b') ↦ inl (ground arith, ((i, later, q, r, s), free, b'))
              | inr (rest, t, b', shorter, room) ↦ inr (
                f ∷ rest,
                ground arith,
                ((i, later, q, r, s), Free-take_fragment _ _ _ _ _ t free, b'),
                omega arith,
                room,
              )
            ]
      ]

  -- What holds inside the drain loop: a held fragment may be the next one.
  record Draining (n hi : ℕ) (c : Channel) : Type 0 where
    next : c.recv_next ≡ n % 16
    taken : c.reassembly ≡ accepted stream n
    held : Buffered stream n hi c.recv_buf
    acked : c.ack_pending ≡ some ((n + 15) % 16)

  abbrev Drained : ℕ → ℕ → Channel → Type 0
  Drained n hi c =
      (m : ℕ) × (n ≤ m) × (m ≤ hi) × Received stream m c × (c.ack_pending ≡ some ((m + 15) % 16))

  accept_and_deliver-Draining :
      (now n hi : ℕ) (c : Channel)
      → c.recv_next ≡ n % 16
      → c.reassembly ≡ accepted stream n
      → Buffered stream (n + 1) hi c.recv_buf
      → Draining (n + 1) hi (accept_and_deliver now (stream n) c)
  unfolding accept_and_deliver accepted
  accept_and_deliver-Draining now n hi c next taken held = record {
    next = omega arith;
    taken =
        let step : suc n ≡ n + 1 = omega arith in
        ap (reassemble (stream n)) taken ∙ ap (accepted stream) step;
    held = held;
    acked = ap some (omega arith);
  }

  drain_loop-Drained :
      (fuel now n hi : ℕ) (c : Channel)
      → length c.recv_buf ≤ fuel
      → n ≤ hi
      → hi ≤ n + 6
      → Draining n hi c
      → Drained n hi (drain_loop fuel now c)
  unfolding drain_loop accept_and_deliver
  drain_loop-Drained zero now n hi c short low high d = (
    n,
    omega arith,
    low,
    record { next = d.next; taken = d.taken; held = held_none c.recv_buf short },
    d.acked,
  )
    where
      held_none : (fs : List BufferedFragment) → length fs ≤ 0 → Buffered stream (n + 1) (n + 6) fs
      held_none [] h = tt
      held_none (f ∷ fs) h = absurd (omega arith)
  drain_loop-Drained (suc fuel) now n hi c short low high d =
      elim (take_fragment-Taken n hi c.recv_buf high d.held) [
        | inl (t, held) ↦ rw (drain_loop-none fuel now c (rw d.next t)) (
          n,
          omega arith,
          low,
          record {
            next = d.next;
            taken = d.taken;
            held = Buffered-weaken stream (n + 1) hi (n + 6) c.recv_buf high held;
          },
          d.acked,
        )
        | inr (rest, t, held, shorter, room) ↦
            let (m, above, below, received, acked) =
              drain_loop-Drained fuel now (n + 1) hi _ (omega arith) (omega arith) (omega arith) (
                accept_and_deliver-Draining now n hi (record c { recv_buf = rest }) d.next d.taken
                  held) in
            rw (drain_loop-some fuel now c (stream n) rest (rw d.next t))
              (m, omega arith, below, received, acked)
      ]

  -- What an arrival of fragment `i` leaves. The next fragment takes the reception further, any other
  -- leaves it where it is. Unless the fragment is of the window and held already, the
  -- acknowledgement of where the reception now stands is pending.
  abbrev pub Arrived : ℕ → ℕ → Channel → Channel → Type 0
  Arrived n i c c' =
      (m : ℕ) × (n ≤ m)
      × (m ≤ n + 6)
      × ((i ≡ n) ↔ (n < m))
      × Received stream m c'
      × (((c' ≡ c) × (n < i) × (is_buffered c (i % 16) ≡ true))
          ⊎ (c'.ack_pending ≡ some ((m + 15) % 16)))

  receive_next :
      (now n : ℕ) (c : Channel)
      → Received stream n c
      → (m : ℕ) × (n < m)
        × (m ≤ n + 6)
        × Received stream m (receive_data now (n % 16) (stream n) c)
        × ((receive_data now (n % 16) (stream n) c).ack_pending ≡ some ((m + 15) % 16))
  unfolding drain_recv_buf accept_and_deliver
  receive_next now n c r =
      let (m, above, below, received, acked) =
        drain_loop-Drained (length c.recv_buf) now (n + 1) (n + 6) _ (omega arith) (omega arith)
          (omega arith) (accept_and_deliver-Draining now n (n + 6) c r.next r.taken r.held) in
      rw (receive_data_next now (n % 16) (stream n) c r.next)
        (m, omega arith, below, received, acked)

  -- A fragment whose number is in the window, but not the next one.
  receive_ahead :
      (now n i : ℕ) (c : Channel)
      → n < i
      → i < n + 6
      → Received stream n c
      → Arrived n i c (receive_data now (i % 16) (stream i) c)
  unfolding ack_again
  receive_ahead now n i c h k r =
      let other : i % 16 ≢ c.recv_next = omega (arith, r.next) in
      elim (Bool-cases (is_buffered c (i % 16))) [
        | inl e ↦
            rw (receive_data_held now (i % 16) (stream i) c other (window_ahead n i c h k r.next) e)
              (
                n,
                omega arith,
                omega arith,
                (λ p. omega (arith, p), λ l. omega (arith, l)),
                r,
                inl (refl, h, e),
              )
        | inr e ↦
            rw (receive_data_new now (i % 16) (stream i) c other (window_ahead n i c h k r.next) e)
              (
                n,
                omega arith,
                omega arith,
                (λ p. omega (arith, p), λ l. omega (arith, l)),
                record {
                  next = r.next;
                  taken = r.taken;
                  held =
                      Buffered-snoc (n + 1) (n + 6) c.recv_buf _ r.held
                        (i, omega arith, k, refl, refl) (Free-any (i % 16) c.recv_buf c e);
                },
                inr (ap some (omega (arith, r.next))),
              )
      ]

  -- A fragment that was accepted before changes nothing but the acknowledgement.
  receive_again :
      (now n i : ℕ) (c : Channel)
      → i < n
      → n ≤ i + 10
      → Received stream n c
      → Arrived n i c (receive_data now (i % 16) (stream i) c)
  unfolding ack_again
  receive_again now n i c h k r =
      rw
        (receive_data_again now (i % 16) (stream i) c (omega (arith, r.next))
          (window_behind n i c h k r.next))
        (
          n,
          omega arith,
          omega arith,
          (λ p. omega (arith, p), λ l. omega (arith, l)),
          record { next = r.next; taken = r.taken; held = r.held },
          inr (ap some (omega (arith, r.next))),
        )

  -- One arrival of fragment `i` of the stream, which is in the window or at most ten behind the next
  -- one. The next fragment is accepted, with up to five that were held; any other leaves the reception
  -- where it is. The acknowledgement of where it now stands is then pending, unless the fragment is of
  -- the window and held already: that leaves the channel as it was.
  pub receive_data-Received :
      (now n i : ℕ) (c : Channel)
      → i < n + 6
      → n ≤ i + 10
      → Received stream n c
      → Arrived n i c (receive_data now (i % 16) (stream i) c)
  receive_data-Received now n i c h k r = elim (order i n) [
    | inl e ↦ receive_again now n i c e k r
    | inr (inl e) ↦
        let (m, above, below, received, acked) = receive_next now n c r in
        rw e (m, omega arith, below, (λ p. above, λ l. refl), received, inr acked)
    | inr (inr e) ↦ receive_ahead now n i c e h r
  ]
