-- ===== src/Reliable/Delivery.antt =====
-- The receiver of reliable.rs against a stream of fragments. The stream gives every fragment its
-- number; the wire carries the number modulo 16.
use iroh_ble_transport.Prelude.{
  ℕ, zero, suc, ◌+◌, ◌%◌, ◌≤◌, ◌<◌, ◌≡◌, ◌≢◌, ◌⊎◌, inl, inr, true, false, none, some, List, [], ◌∷◌,
  ◌++◌, arith, Option-cases,
}
use iroh_ble_transport.Reliable.Header.{seq_dist}
use iroh_ble_transport.Reliable.State.{
  Channel, FragmentEntry, BufferedFragment, Reassembly, in_recv_window, is_buffered,
}
use iroh_ble_transport.Reliable.Receive.{
  reassemble, accept_and_deliver, take_fragment, drain_loop, drain_recv_buf, receive_data,
  ack_again,
}

abbrev pub nothing : Reassembly
nothing = record { bytes = []; overflow = false; delivered = [] }

-- No buffered fragment has this sequence number.
abbrev pub Free : ℕ → List BufferedFragment → Type 0
Free seq [] = Unit
Free seq (f ∷ fs) = (f.seq ≢ seq) × Free seq fs

pub Free-any :
    (seq : ℕ) (fs : List BufferedFragment) (c : Channel)
    → is_buffered (record c { recv_buf = fs }) seq ≡ false
    → Free seq fs
unfolding is_buffered
Free-any seq [] c h = tt
Free-any seq (f ∷ fs) c h = ground (arith, Free-any seq fs c)

module _ (stream : ℕ → FragmentEntry) where
  -- The first `n` fragments of the stream, accepted in order.
  unfoldable pub accepted : ℕ → Reassembly
  accepted zero = nothing
  accepted (suc n) = reassemble (stream n) (accepted n)

  -- A fragment of the stream with a number from `lo` up to below `hi`.
  abbrev pub Between : ℕ → ℕ → BufferedFragment → Type 0
  Between lo hi f = (i : ℕ) × (lo ≤ i) × (i < hi) × (f.seq ≡ i % 16) × (f.entry ≡ stream i)

  -- Such fragments, of different sequence numbers.
  abbrev pub Buffered : ℕ → ℕ → List BufferedFragment → Type 0
  Buffered lo hi [] = Unit
  Buffered lo hi (f ∷ fs) = Between lo hi f × Free f.seq fs × Buffered lo hi fs

  -- The receiver has accepted the first `n` fragments and holds later ones of the window.
  pub record Received (n : ℕ) (c : Channel) : Type 0 where
    pub next : c.recv_next ≡ n % 16
    pub taken : c.reassembly ≡ accepted n
    pub held : Buffered (n + 1) (n + 6) c.recv_buf

  pub Buffered-weaken :
      (lo hi hi' : ℕ) (fs : List BufferedFragment)
      → hi ≤ hi'
      → Buffered lo hi fs
      → Buffered lo hi' fs
  Buffered-weaken lo hi hi' [] h b = tt
  Buffered-weaken lo hi hi' (f ∷ fs) h ((i, p, q, r, s), free, b) =
      ((i, p, omega arith, r, s), free, Buffered-weaken lo hi hi' fs h b)

  -- With the number `n` itself not among them, all are later.
  pub Buffered-later :
      (n hi : ℕ) (fs : List BufferedFragment)
      → Free (n % 16) fs
      → Buffered n hi fs
      → Buffered (n + 1) hi fs
  Buffered-later n hi [] g b = tt
  Buffered-later n hi (f ∷ fs) g ((i, p, q, r, s), free, b) =
      ((i, grind (arith, g.0, r), q, r, s), free, Buffered-later n hi fs g.1 b)

pub Free-snoc :
    (seq : ℕ) (fs : List BufferedFragment) (f : BufferedFragment)
    → Free seq fs
    → f.seq ≢ seq
    → Free seq (fs ++ f ∷ [])
Free-snoc seq [] f g h = (h, tt)
Free-snoc seq (x ∷ fs) f g h = (g.0, Free-snoc seq fs f g.1 h)

pub Free-take_fragment :
    (seq s : ℕ) (fs rest : List BufferedFragment) (e : FragmentEntry)
    → take_fragment s fs ≡ some (e, rest)
    → Free seq fs
    → Free seq rest
unfolding take_fragment
Free-take_fragment seq s [] rest e h g = absurd (cc)
Free-take_fragment seq s (f ∷ fs) rest e h g = elim (Option-cases (take_fragment s fs)) [
  | inl p ↦ ground arith
  | inr ((e', rest'), p) ↦ ground (arith, Free-take_fragment seq s fs rest' e' p g.1)
]

pub drain_loop-none :
    (fuel now : ℕ) (c : Channel)
    → take_fragment c.recv_next c.recv_buf ≡ none
    → drain_loop (suc fuel) now c ≡ c
unfolding drain_loop
drain_loop-none fuel now c t = ground arith

pub drain_loop-some :
    (fuel now : ℕ) (c : Channel) (f : FragmentEntry) (rest : List BufferedFragment)
    → take_fragment c.recv_next c.recv_buf ≡ some (f, rest)
    → drain_loop (suc fuel) now c
      ≡ drain_loop fuel now (accept_and_deliver now f (record c { recv_buf = rest }))
unfolding drain_loop
drain_loop-some fuel now c f rest t = ground arith

abbrev hold : ℕ → FragmentEntry → Channel → List BufferedFragment
hold seq f c = c.recv_buf ++ record { seq = seq; entry = f } ∷ []

pub receive_data_next :
    (now seq : ℕ) (f : FragmentEntry) (c : Channel)
    → c.recv_next ≡ seq
    → receive_data now seq f c ≡ drain_recv_buf now (accept_and_deliver now f c)
unfolding receive_data
receive_data_next now seq f c e = ground arith

pub receive_data_held :
    (now seq : ℕ) (f : FragmentEntry) (c : Channel)
    → seq ≢ c.recv_next
    → in_recv_window c seq ≡ true
    → is_buffered c seq ≡ true
    → receive_data now seq f c ≡ c
unfolding receive_data
receive_data_held now seq f c ne w b = ground arith

pub receive_data_new :
    (now seq : ℕ) (f : FragmentEntry) (c : Channel)
    → seq ≢ c.recv_next
    → in_recv_window c seq ≡ true
    → is_buffered c seq ≡ false
    → receive_data now seq f c ≡ record (ack_again now c) { recv_buf = hold seq f c }
unfolding receive_data
receive_data_new now seq f c ne w b = ground arith

pub receive_data_again :
    (now seq : ℕ) (f : FragmentEntry) (c : Channel)
    → seq ≢ c.recv_next
    → in_recv_window c seq ≡ false
    → receive_data now seq f c ≡ ack_again now c
unfolding receive_data
receive_data_again now seq f c ne w = ground arith

pub window_ahead :
    (n i : ℕ) (c : Channel)
    → n < i
    → i < n + 6
    → c.recv_next ≡ n % 16
    → in_recv_window c (i % 16) ≡ true
unfolding in_recv_window seq_dist
window_ahead n i c h k e = ground arith

pub window_behind :
    (n i : ℕ) (c : Channel)
    → i < n
    → n ≤ i + 10
    → c.recv_next ≡ n % 16
    → in_recv_window c (i % 16) ≡ false
unfolding in_recv_window seq_dist
window_behind n i c h k e = ground arith

pub order : (i n : ℕ) → (i < n) ⊎ ((i ≡ n) ⊎ (n < i))
order i n = omega arith
