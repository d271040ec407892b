-- ===== src/Reliable/Fragments.antt =====
-- About cutting a datagram up (`fragment_into`) and putting it together again
-- (`accept_and_deliver`), in reliable.rs.
use mathlib.Core.List.{append-nil, append_assoc}
use iroh_ble_transport.Prelude.{
  ℕ, zero, suc, ◌+◌, ◌≤◌, ◌<◌, ◌≡◌, refl, sym, ap, ◌∙◌, inl, inr, Bool, true, false, Option, none,
  some, List, [], ◌∷◌, ◌++◌, arith, ltb, leb, Bool-cases, if◌then◌else◌, length, is_empty, take,
  drop, take-append-drop, length-append, length-take, length-drop, All, All-mono, ltb→lt, ◌≢◌,
}
use iroh_ble_transport.Mtu.{max_datagram_size}
use iroh_ble_transport.Reliable.Header.{make_header, set_ack}
use iroh_ble_transport.Reliable.State.{FragmentEntry, Reassembly}
use iroh_ble_transport.Reliable.Receive.{reassemble}
use iroh_ble_transport.Reliable.Send.{chunks, mark_chunks, fragments, max_payload, wire_message}

abbrev concat : List (List ℕ) → List ℕ
concat [] = []
concat (c ∷ cs) = c ++ concat cs

-- The fragments accepted one after the other.
unfoldable pub reassemble_all : List FragmentEntry → Reassembly → Reassembly
reassemble_all [] r = r
reassemble_all (f ∷ fs) r = reassemble_all fs (reassemble f r)

-- What becomes of a datagram: one that is too long or empty is dropped.
abbrev pub deliver : List ℕ → List (List ℕ) → List (List ℕ)
deliver x delivered =
    if ltb max_datagram_size (length x)
    then delivered
    else if is_empty x
    then delivered
    else delivered ++ x ∷ []

concat-chunks :
    (fuel n : ℕ) (xs : List ℕ) → 0 < n → length xs ≤ fuel → concat (chunks fuel n xs) ≡ xs
unfolding chunks
concat-chunks zero n [] h k = refl
concat-chunks zero n (x ∷ xs) h k = absurd (omega arith)
concat-chunks (suc fuel) n [] h k = refl
concat-chunks (suc fuel) n (x ∷ xs) h k =
    ap (◌++◌ (take n (x ∷ xs)))
      (concat-chunks fuel n (drop n (x ∷ xs)) h (omega (arith, length-drop n (x ∷ xs))))
    ∙ take-append-drop n (x ∷ xs)

chunks_fit : (fuel n : ℕ) (xs : List ℕ) → All (λ (c : List ℕ). length c ≤ n) (chunks fuel n xs)
unfolding chunks
chunks_fit zero n xs = tt
chunks_fit (suc fuel) n [] = tt
chunks_fit (suc fuel) n (x ∷ xs) =
    (omega (arith, length-take n (x ∷ xs)), chunks_fit fuel n (drop n (x ∷ xs)))

mark_chunks_fit :
    (n : ℕ) (first : Bool) (cs : List (List ℕ))
    → All (λ (c : List ℕ). length c ≤ n) cs
    → All (λ (f : FragmentEntry). length f.payload ≤ n) (mark_chunks first cs)
unfolding mark_chunks
mark_chunks_fit n first [] h = tt
mark_chunks_fit n first (c ∷ []) h = (h.0, tt)
mark_chunks_fit n first (c ∷ d ∷ cs) h = (h.0, mark_chunks_fit n false (d ∷ cs) h.1)

fragments_payload :
    (chunk_size : ℕ) (d : List ℕ)
    → All
        (λ (f : FragmentEntry). length f.payload ≤ max_payload chunk_size)
        (fragments chunk_size d)
unfolding fragments
fragments_payload chunk_size d = elim (Bool-cases (leb (length d) (max_payload chunk_size))) [
  | inl e ↦ rw e (ground arith, tt)
  | inr e ↦ rw e (mark_chunks_fit _ true _ (chunks_fit _ _ d))
]

after_overflow :
    (c : List ℕ) (cs : List (List ℕ)) (delivered : List (List ℕ))
    → reassemble_all
        (mark_chunks false (c ∷ cs))
        (record { bytes = []; overflow = true; delivered = delivered })
      ≡ record { bytes = []; overflow = false; delivered = delivered }
unfolding mark_chunks reassemble_all reassemble
after_overflow c [] delivered = refl
after_overflow c (d ∷ cs) delivered = after_overflow d cs delivered

deliver_long :
    (x : List ℕ) (delivered : List (List ℕ))
    → max_datagram_size < length x
    → deliver x delivered ≡ delivered
deliver_long x delivered h = ground arith

abbrev middle : List ℕ → FragmentEntry
middle c = record { payload = c; first = false; last = false }

middle_long :
    (c b : List ℕ) (delivered : List (List ℕ))
    → ltb max_datagram_size (length (b ++ c)) ≡ true
    → reassemble (middle c) (record { bytes = b; overflow = false; delivered = delivered })
      ≡ record { bytes = []; overflow = true; delivered = delivered }
unfolding reassemble
middle_long c b delivered e = ground arith

middle_short :
    (c b : List ℕ) (delivered : List (List ℕ))
    → ltb max_datagram_size (length (b ++ c)) ≡ false
    → reassemble (middle c) (record { bytes = b; overflow = false; delivered = delivered })
      ≡ record { bytes = b ++ c; overflow = false; delivered = delivered }
unfolding reassemble
middle_short c b delivered e = ground arith

reassemble_single :
    (d : List ℕ) (r : Reassembly)
    → reassemble_all (record { payload = d; first = true; last = true } ∷ []) r
      ≡ record { bytes = []; overflow = false; delivered = deliver d r.delivered }
unfolding reassemble_all reassemble
reassemble_single d r = ground arith

length-wire_message :
    (ack : Option ℕ) (seq : ℕ) (f : FragmentEntry)
    → length (wire_message ack seq f) ≡ length f.payload + 3
unfolding wire_message make_header set_ack
length-wire_message none seq f = omega (arith, length-append f.payload (0x5A ∷ []))
length-wire_message (some a) seq f = omega (arith, length-append f.payload (0x5A ∷ []))

reassemble_rest :
    (c b : List ℕ) (cs : List (List ℕ)) (delivered : List (List ℕ))
    → reassemble_all
        (mark_chunks false (c ∷ cs))
        (record { bytes = b; overflow = false; delivered = delivered })
      ≡ record {
        bytes = [];
        overflow = false;
        delivered = deliver (b ++ concat (c ∷ cs)) delivered;
      }
unfolding mark_chunks reassemble_all reassemble
reassemble_rest c b [] delivered = ground (arith, append-nil c)
reassemble_rest c b (d ∷ cs) delivered =
    elim (Bool-cases (ltb max_datagram_size (length (b ++ c)))) [
      | inl e ↦
          ap (reassemble_all (mark_chunks false (d ∷ cs))) (middle_long c b delivered e)
          ∙ after_overflow d cs delivered
          ∙ ap emptied (sym (deliver_long _ delivered (long e)))
      | inr e ↦
          ap (reassemble_all (mark_chunks false (d ∷ cs))) (middle_short c b delivered e)
          ∙ reassemble_rest d (b ++ c) cs delivered
          ∙ ap (λ x. emptied (deliver x delivered)) (append_assoc b c (concat (d ∷ cs)))
    ]
  where
    emptied : List (List ℕ) → Reassembly
    emptied ds = record { bytes = []; overflow = false; delivered = ds }

    long :
        ltb max_datagram_size (length (b ++ c)) ≡ true
        → max_datagram_size < length (b ++ (c ++ concat (d ∷ cs)))
    long e = omega (
      arith,
      ltb→lt _ _ e,
      length-append b c,
      length-append b (c ++ concat (d ∷ cs)),
      length-append c (concat (d ∷ cs)),
    )

-- The first fragment starts afresh, whatever an abandoned datagram has left behind.
reassemble_all-first :
    (cs : List (List ℕ)) (r : Reassembly)
    → cs ≢ []
    → reassemble_all (mark_chunks true cs) r
      ≡ reassemble_all
          (mark_chunks false cs)
          (record { bytes = []; overflow = false; delivered = r.delivered })
unfolding mark_chunks reassemble_all reassemble
reassemble_all-first [] r h = absurd (h refl)
reassemble_all-first (c ∷ []) r h = refl
reassemble_all-first (c ∷ d ∷ cs) r h = refl

reassemble_all-chunks :
    (cs : List (List ℕ)) (r : Reassembly)
    → cs ≢ []
    → reassemble_all (mark_chunks true cs) r
      ≡ record { bytes = []; overflow = false; delivered = deliver (concat cs) r.delivered }
reassemble_all-chunks [] r h = absurd (h refl)
reassemble_all-chunks (c ∷ cs) r h =
    reassemble_all-first (c ∷ cs) r h ∙ reassemble_rest c [] cs r.delivered

chunks-ne-nil : (n : ℕ) (d : List ℕ) → 0 < length d → chunks (length d) n d ≢ []
unfolding chunks
chunks-ne-nil n [] h e = absurd (omega arith)
chunks-ne-nil n (x ∷ xs) h e = cc

-- Cutting a datagram into fragments and accepting them in order hands over exactly that datagram,
-- after whatever was received before; a datagram that is empty or longer than the limit is dropped
-- and leaves no trace. The chunk size has to leave room for a byte of payload.
pub reassemble_all-fragments :
    (chunk_size : ℕ) (d : List ℕ) (r : Reassembly)
    → 3 < chunk_size
    → reassemble_all (fragments chunk_size d) r
      ≡ record { bytes = []; overflow = false; delivered = deliver d r.delivered }
unfolding fragments
reassemble_all-fragments chunk_size d r h =
    elim (Bool-cases (leb (length d) (max_payload chunk_size))) [
      | inl e ↦ rw e (reassemble_single d r)
      | inr e ↦ rw e (
          reassemble_all-chunks _ r (chunks-ne-nil _ d (ground arith))
          ∙ ap (λ x. record { bytes = []; overflow = false; delivered = deliver x r.delivered })
              (concat-chunks (length d) (max_payload chunk_size) d (omega arith) (omega arith)))
    ]

-- Every message built from a fragment of a datagram has at most `chunk_size` bytes on the wire.
pub fragments_fit :
    (chunk_size seq : ℕ) (ack : Option ℕ) (d : List ℕ)
    → 3 < chunk_size
    → All
        (λ (f : FragmentEntry). length (wire_message ack seq f) ≤ chunk_size)
        (fragments chunk_size d)
fragments_fit chunk_size seq ack d h =
    All-mono _ _ (λ f k. omega (arith, length-wire_message ack seq f)) _
      (fragments_payload chunk_size d)
