-- ===== src/Reliable/Transfer.antt =====
-- From datagrams to datagrams: fragmentation, the wire, losses and reassembly together.
use iroh_ble_transport.Prelude.{
  List, [], ap, arith, false, length, refl, suc, true, ℕ, ◌++◌, ◌+◌, ◌<◌, ◌∙◌, ◌∷◌, ◌≡◌,
}
use iroh_ble_transport.Reliable.State.{FragmentEntry, Reassembly, new}
use iroh_ble_transport.Reliable.Receive.{reassemble}
use iroh_ble_transport.Reliable.Send.{fragments}
use iroh_ble_transport.Reliable.Wire.{has_data}
use iroh_ble_transport.Reliable.Fragments.{deliver, reassemble_all, reassemble_all-fragments}
use iroh_ble_transport.Reliable.Delivery.{accepted}
use iroh_ble_transport.Reliable.Stream.{Arrival, IsTimely, arrive_all, arrive_all_in_order}

-- The fragments of some datagrams, one after the other.
unfoldable pub all_fragments : ℕ → List (List ℕ) → List FragmentEntry
unfolding fragments
all_fragments chunk_size [] = []
all_fragments chunk_size (d ∷ ds) = fragments chunk_size d ++ all_fragments chunk_size ds

-- The datagrams that arrive: all but those that are empty or too long.
abbrev pub deliver_all : List (List ℕ) → List (List ℕ) → List (List ℕ)
deliver_all [] delivered = delivered
deliver_all (d ∷ ds) delivered = deliver_all ds (deliver d delivered)

-- From number `k` on the stream begins with these fragments.
abbrev pub Carries : (ℕ → FragmentEntry) → ℕ → List FragmentEntry → Type 0
Carries stream k [] = Unit
Carries stream k (f ∷ fs) = (stream k ≡ f) × Carries stream (suc k) fs

reassemble_all-append :
    (fs gs : List FragmentEntry) (r : Reassembly)
    → reassemble_all (fs ++ gs) r ≡ reassemble_all gs (reassemble_all fs r)
unfolding reassemble_all
reassemble_all-append [] gs r = refl
reassemble_all-append (f ∷ fs) gs r = reassemble_all-append fs gs (reassemble f r)

reassemble_all-all_fragments :
    (chunk_size : ℕ) (ds : List (List ℕ)) (delivered : List (List ℕ))
    → 3 < chunk_size
    → reassemble_all
        (all_fragments chunk_size ds)
        (record { bytes = []; overflow = false; delivered = delivered })
      ≡ record { bytes = []; overflow = false; delivered = deliver_all ds delivered }
unfolding all_fragments reassemble_all
reassemble_all-all_fragments chunk_size [] delivered h = refl
reassemble_all-all_fragments chunk_size (d ∷ ds) delivered h =
    let r : Reassembly = record { bytes = []; overflow = false; delivered = delivered } in
    reassemble_all-append (fragments chunk_size d) (all_fragments chunk_size ds) r
    ∙ (ap (reassemble_all (all_fragments chunk_size ds)) (reassemble_all-fragments chunk_size d r h)
        ∙ reassemble_all-all_fragments chunk_size ds (deliver d delivered) h)

accepted-Carries :
    (stream : ℕ → FragmentEntry) (k : ℕ) (fs : List FragmentEntry)
    → Carries stream k fs
    → accepted stream (k + length fs) ≡ reassemble_all fs (accepted stream k)
unfolding accepted reassemble_all
accepted-Carries stream k [] c = let e : k + 0 ≡ k = omega arith in rw e refl
accepted-Carries stream k (f ∷ fs) c =
    let e : k + suc (length fs) ≡ suc k + length fs = omega arith in
    rw e (
      accepted-Carries stream (suc k) fs c.1
      ∙ ap (λ x. reassemble_all fs (reassemble x (accepted stream k))) c.0)

-- A stream begins with the fragments of some datagrams, cut at a chunk size that leaves room for a
-- byte, and each of its fragments has data or a mark. Its messages are lost, repeated and
-- overtaken, but each that arrives is from the window of six or at most ten fragments old. When the
-- receiver has accepted as many fragments as these datagrams have, it has handed over exactly these
-- datagrams, in order and once each, but for those that are empty or too long, and holds no part of
-- another.
pub arrive_all-all_fragments :
    (stream : ℕ → FragmentEntry)
    → ((i : ℕ) → has_data (stream i) ≡ true)
    → (chunk_size : ℕ) (ds : List (List ℕ)) (as' : List Arrival) (now : ℕ) → 3 < chunk_size
    → Carries stream 0 (all_fragments chunk_size ds)
    → IsTimely stream as' (0, new now chunk_size)
    → (arrive_all stream as' (0, new now chunk_size)).0 ≡ length (all_fragments chunk_size ds)
    → (arrive_all stream as' (0, new now chunk_size)).1.reassembly
      ≡ record { bytes = []; overflow = false; delivered = deliver_all ds [] }
unfolding accepted
arrive_all-all_fragments stream full chunk_size ds as' now h c t e =
    (arrive_all_in_order stream full as' now chunk_size t).0
    ∙ (ap (accepted stream) (e ∙ start)
        ∙ (accepted-Carries stream 0 (all_fragments chunk_size ds) c
            ∙ reassemble_all-all_fragments chunk_size ds [] h))
  where
    start : length (all_fragments chunk_size ds) ≡ 0 + length (all_fragments chunk_size ds)
    start = omega arith
