-- ===== src/Reliable/Header.antt =====
-- The two header bytes of a fragment (reliable.rs: `make_header`, `set_ack` and the bit tests of
-- `receive_fragment`), and the distance between sequence numbers.
use iroh_ble_transport.Prelude.{
  ℕ, ◌+◌, ◌-◌, ◌%◌, bit_and, bit_or, Bool, not, List, [], ◌∷◌, ◌==◌, if◌then◌else◌,
}

abbrev pub header_size : ℕ
header_size = 2

abbrev pub fragment_canary : ℕ
fragment_canary = 0x5A

abbrev pub seq_mask : ℕ
seq_mask = 0x0F

abbrev pub flag_first : ℕ
flag_first = 0x10

abbrev pub flag_last : ℕ
flag_last = 0x20

abbrev pub ack_seq_mask : ℕ
ack_seq_mask = 0x0F

abbrev pub flag_ack : ℕ
flag_ack = 0x10

abbrev pub seq_modulus : ℕ
seq_modulus = 16

-- The first header byte; the second is 0 until an acknowledgement is written into it.
unfoldable pub make_header : ℕ → Bool → Bool → List ℕ
make_header seq first last =
    bit_or (bit_or (bit_and seq seq_mask) (if first then flag_first else 0))
      (if last then flag_last else 0)
    ∷ 0
    ∷ []

-- `header[1]` panics on a shorter slice; both callers hold at least two bytes.
unfoldable pub set_ack : List ℕ → ℕ → List ℕ
set_ack (b0 ∷ b1 ∷ rest) ack_seq = b0 ∷ bit_or (bit_and ack_seq ack_seq_mask) flag_ack ∷ rest
set_ack short ack_seq = short

-- What `receive_fragment` reads out of the two header bytes.
pub record Header : Type 0 where
  pub seq : ℕ
  pub first : Bool
  pub last : Bool
  pub has_ack : Bool
  pub ack_seq : ℕ

unfoldable pub decode : ℕ → ℕ → Header
decode b0 b1 = record {
  seq = bit_and b0 seq_mask;
  first = not (bit_and b0 flag_first == 0);
  last = not (bit_and b0 flag_last == 0);
  has_ack = not (bit_and b1 flag_ack == 0);
  ack_seq = bit_and b1 ack_seq_mask;
}

-- `b.wrapping_sub(a) % SEQ_MODULUS` on bytes.
unfoldable pub seq_dist : ℕ → ℕ → ℕ
seq_dist a b = (b + 256 - a) % 256 % seq_modulus
