-- ===== src/Routing/Address.antt =====
-- The address that stands for a pipe: `token_custom_addr`, `parse_token_addr` and the sentinel of
-- routing.rs. `CustomAddr` is iroh's: what the code uses of it is a parameter.
use iroh_ble_transport.Prelude.{
  List, [], if◌then◌else◌, length, not, suc, zero, ℕ, ◌%◌, ◌*◌, ◌+◌, ◌/◌, ◌==◌, ◌∷◌, ◌≡◌,
}

-- An address holds the number of a transport and some bytes.
pub record CustomAddrs : Type 1 where
  pub CustomAddr : Type 0
  pub from_parts : ℕ → List ℕ → CustomAddr
  pub transport_id : CustomAddr → ℕ
  pub bytes : CustomAddr → List ℕ
  pub transport_id-from_parts : (i : ℕ) (bs : List ℕ) → transport_id (from_parts i bs) ≡ i
  pub bytes-from_parts : (i : ℕ) (bs : List ℕ) → bytes (from_parts i bs) ≡ bs

abbrev pub ble_transport_id : ℕ
ble_transport_id = 0x424c45

abbrev pub token_len : ℕ
token_len = 8

abbrev pub local_addr_token : ℕ
local_addr_token = 0

-- `to_le_bytes` of a number of so many bytes.
unfoldable pub to_le_bytes : ℕ → ℕ → List ℕ
to_le_bytes zero n = []
to_le_bytes (suc k) n = n % 256 ∷ to_le_bytes k (n / 256)

unfoldable pub from_le_bytes : List ℕ → ℕ
from_le_bytes [] = 0
from_le_bytes (b ∷ bs) = b + 256 * from_le_bytes bs

pub data TokenError : Type 0 where
  not_ble wrong_length : TokenError

pub data ParsedToken : Type 0 where
  token : ℕ → ParsedToken
  refused : TokenError → ParsedToken

module _ (api : CustomAddrs) where
  open api use {CustomAddr, from_parts, transport_id, bytes}

  unfoldable pub token_custom_addr : ℕ → CustomAddr
  unfolding to_le_bytes
  token_custom_addr t = from_parts ble_transport_id (to_le_bytes token_len t)

  unfoldable pub local_custom_addr : CustomAddr
  unfolding token_custom_addr
  local_custom_addr = token_custom_addr local_addr_token

  unfoldable pub parse_token_addr : CustomAddr → ParsedToken
  unfolding from_le_bytes
  parse_token_addr addr =
      if not (transport_id addr == ble_transport_id)
      then refused not_ble
      else if not (length (bytes addr) == token_len)
      then refused wrong_length
      else token (from_le_bytes (bytes addr))
