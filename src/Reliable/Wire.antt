-- ===== src/Reliable/Wire.antt =====
-- About the bytes of a message, from the sender to the receiver: `make_header` and `set_ack` of
-- reliable.rs against the bit tests of `receive_fragment`.
use iroh_ble_transport.Prelude.{
  ℕ, zero, suc, ◌-◌, ◌<◌, ◌∙◌, bit_and, bit_or, ◌≡◌, refl, ap, Bool, true, false, not, ◌&&◌, ◌||◌,
  Option, none, some, List, [], ◌∷◌, ◌++◌, arith, ==_iff, ◌==◌, if◌then◌else◌, length, is_some,
  is_empty, take, last?-snoc, take-snoc, length-append,
}
use iroh_ble_transport.Reliable.Header.{
  make_header, set_ack, decode, fragment_canary, seq_mask, flag_first, flag_last, ack_seq_mask,
  flag_ack,
}
use iroh_ble_transport.Reliable.State.{Channel, FragmentEntry}
use iroh_ble_transport.Reliable.Receive.{receive_ack, receive_data, receive_body, receive_fragment}
use iroh_ble_transport.Reliable.Send.{wire_message}

-- A test of every number below a bound.
table : (ℕ → Bool) → ℕ → Bool
table test zero = true
table test (suc k) = if test k then table test k else false

table_lem : (test : ℕ → Bool) (k a : ℕ) → a < k → table test k ≡ true → test a ≡ true
unfolding table
table_lem test zero a small t = absurd (omega arith)
table_lem test (suc k) a small t = ground (arith, table_lem test k a)

abbrev bool_eq : Bool → Bool → Bool
bool_eq true b = b
bool_eq false b = not b

bool_eq_sound : (a b : Bool) → bool_eq a b ≡ true → a ≡ b
bool_eq_sound a b h = ground arith

abbrev first_byte : ℕ → Bool → Bool → ℕ
first_byte seq first last =
    bit_or (bit_or (bit_and seq seq_mask) (if first then flag_first else 0))
      (if last then flag_last else 0)

abbrev second_byte : Option ℕ → ℕ
second_byte none = 0
second_byte (some ack_seq) = bit_or (bit_and ack_seq ack_seq_mask) flag_ack

abbrev ack_value : Option ℕ → ℕ
ack_value none = 0
ack_value (some ack_seq) = ack_seq

abbrev pub AckBelow : Option ℕ → Type 0
AckBelow ack = ack_value ack < 16

abbrev reads : Bool → Bool → ℕ → Bool
reads first last seq =
    let b = first_byte seq first last in
    (bit_and b seq_mask == seq)
    && (bool_eq (not (bit_and b flag_first == 0)) first
        && bool_eq (not (bit_and b flag_last == 0)) last)

reads-table : (first last : Bool) → table (reads first last) 16 ≡ true
unfolding table
reads-table true true = refl
reads-table true false = refl
reads-table false true = refl
reads-table false false = refl

abbrev ack_reads : ℕ → Bool
ack_reads ack =
    let b = second_byte (some ack) in
    (bit_and b ack_seq_mask == ack) && not (bit_and b flag_ack == 0)

ack_reads-table : table ack_reads 16 ≡ true
unfolding table
ack_reads-table = refl

&&_split : (a b c : Bool) → (a && (b && c)) ≡ true → (a ≡ true) × (b ≡ true) × (c ≡ true)
&&_split a b c h = ground arith

decode_first :
    (seq : ℕ) (first last : Bool)
    → seq < 16
    → let b = first_byte seq first last in
      (bit_and b seq_mask ≡ seq)
      × (not (bit_and b flag_first == 0) ≡ first)
      × (not (bit_and b flag_last == 0) ≡ last)
decode_first seq first last h =
    let (p, q, r) =
      &&_split _ _ _ (table_lem (reads first last) 16 seq h (reads-table first last)) in
    ((==_iff _ seq).0 p, bool_eq_sound _ _ q, bool_eq_sound _ _ r)

decode_second :
    (ack : Option ℕ)
    → AckBelow ack
    → (bit_and (second_byte ack) ack_seq_mask ≡ ack_value ack)
      × (not (bit_and (second_byte ack) flag_ack == 0) ≡ is_some ack)
decode_second none h = (refl, refl)
decode_second (some a) h =
    let (p, q) = &&_both _ _ (table_lem ack_reads 16 a h ack_reads-table) in ((==_iff _ a).0 p, q)
  where
    &&_both : (a b : Bool) → (a && b) ≡ true → (a ≡ true) × (b ≡ true)
    &&_both a b h = ground arith

-- What the two bytes of a message mean.
decode_lem :
    (ack : Option ℕ) (seq : ℕ) (first last : Bool)
    → seq < 16
    → AckBelow ack
    → decode (first_byte seq first last) (second_byte ack) ≡ record {
      seq = seq;
      first = first;
      last = last;
      has_ack = is_some ack;
      ack_seq = ack_value ack;
    }
unfolding decode
decode_lem ack seq first last h k =
    let (p, q, r) = decode_first seq first last h in
    let (s, t) = decode_second ack k in
    λ i. record { seq = p i; first = q i; last = r i; has_ack = t i; ack_seq = s i }

-- The canary is checked and taken off.
receive_fragment_canary :
    (now b0 b1 : ℕ) (payload : List ℕ) (c : Channel)
    → receive_fragment now (b0 ∷ b1 ∷ payload ++ fragment_canary ∷ []) c
      ≡ receive_body now (b0 ∷ b1 ∷ payload) c
unfolding receive_fragment
receive_fragment_canary now b0 b1 payload c =
    ground (arith, last?-snoc msg fragment_canary, whole, length-append msg (fragment_canary ∷ []))
  where
    msg : List ℕ
    msg = b0 ∷ b1 ∷ payload

    fits : length (msg ++ fragment_canary ∷ []) - 1 ≡ length msg
    fits = omega (arith, length-append msg (fragment_canary ∷ []))

    whole : take (length (msg ++ fragment_canary ∷ []) - 1) (msg ++ fragment_canary ∷ []) ≡ msg
    whole = ap (λ n. take n (msg ++ fragment_canary ∷ [])) fits ∙ take-snoc msg fragment_canary

wire_message_lem :
    (ack : Option ℕ) (seq : ℕ) (f : FragmentEntry)
    → wire_message ack seq f
      ≡ first_byte seq f.first f.last ∷ second_byte ack ∷ f.payload ++ fragment_canary ∷ []
unfolding wire_message make_header set_ack
wire_message_lem none seq f = refl
wire_message_lem (some a) seq f = refl

-- An acknowledgement that came with a message.
abbrev pub apply_ack : ℕ → Option ℕ → Channel → Channel
apply_ack now none c = c
apply_ack now (some ack_seq) c = receive_ack now ack_seq c

abbrev pub has_data : FragmentEntry → Bool
has_data f = f.first || (f.last || not (is_empty f.payload))

receive_body_lem :
    (now seq : ℕ) (ack : Option ℕ) (f : FragmentEntry) (c : Channel)
    → decode (first_byte seq f.first f.last) (second_byte ack) ≡ record {
      seq = seq;
      first = f.first;
      last = f.last;
      has_ack = is_some ack;
      ack_seq = ack_value ack;
    }
    → has_data f ≡ true
    → receive_body now (first_byte seq f.first f.last ∷ second_byte ack ∷ f.payload) c
      ≡ receive_data now seq f (apply_ack now ack c)
unfolding receive_body
receive_body_lem now seq none f c e d = rw e (rw d)
receive_body_lem now seq (some a) f c e d = rw e (rw d)

-- A message that the sender builds is received as the fragment and the acknowledgement that went
-- into it: header, payload and canary survive the wire.
pub receive_fragment-wire_message :
    (now seq : ℕ) (ack : Option ℕ) (f : FragmentEntry) (c : Channel)
    → seq < 16
    → AckBelow ack
    → has_data f ≡ true
    → receive_fragment now (wire_message ack seq f) c ≡ receive_data now seq f (apply_ack now ack c)
receive_fragment-wire_message now seq ack f c h k d = rw (wire_message_lem ack seq f) (
    receive_fragment_canary now _ _ f.payload c
    ∙ receive_body_lem now seq ack f c (decode_lem ack seq f.first f.last h k) d)

-- A pure acknowledgement is received as one.
pub receive_fragment-pure_ack :
    (now ack_seq : ℕ) (c : Channel)
    → ack_seq < 16
    → receive_fragment now (set_ack (0 ∷ 0 ∷ []) ack_seq) c ≡ receive_ack now ack_seq c
unfolding receive_fragment receive_body set_ack
receive_fragment-pure_ack now ack_seq c h =
    rw (decode_lem (some ack_seq) 0 false false (omega arith) h)
