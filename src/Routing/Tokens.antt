-- ===== src/Routing/Tokens.antt =====
-- About the journey of a token through an address (`token_custom_addr` and `parse_token_addr` of
-- routing.rs).
use iroh_ble_transport.Prelude.{
  All, Bool-cases, List, [], ap, arith, inl, inr, length, refl, suc, sym, zero, ℕ, ◌%◌, ◌*◌, ◌+◌,
  ◌/◌, ◌<◌, ◌==◌, ◌^◌, ◌∙◌, ◌∷◌, ◌≡◌,
}
use iroh_ble_transport.Routing.Address.{
  CustomAddrs, ble_transport_id, from_le_bytes, not_ble, parse_token_addr, refused, to_le_bytes,
  token, token_custom_addr, token_len, wrong_length,
}

from_le_bytes-to_le_bytes : (k n : ℕ) → n < 256 ^ k → from_le_bytes (to_le_bytes k n) ≡ n
unfolding from_le_bytes to_le_bytes
from_le_bytes-to_le_bytes zero n h = omega (arith, h)
from_le_bytes-to_le_bytes (suc k) n h =
    let e = from_le_bytes-to_le_bytes k (n / 256) (omega (arith, h)) in rw e (omega arith)

length-to_le_bytes : (k n : ℕ) → length (to_le_bytes k n) ≡ k
unfolding to_le_bytes
length-to_le_bytes zero n = refl
length-to_le_bytes (suc k) n = ap suc (length-to_le_bytes k (n / 256))

-- Bytes are the little-endian form of the number that they spell.
to_le_bytes-from_le_bytes :
    (bs : List ℕ) → All (λ b. b < 256) bs → to_le_bytes (length bs) (from_le_bytes bs) ≡ bs
unfolding from_le_bytes to_le_bytes
to_le_bytes-from_le_bytes [] h = refl
to_le_bytes-from_le_bytes (b ∷ bs) h =
    let p : (b + 256 * from_le_bytes bs) % 256 ≡ b = omega (arith, h.0) in
    let q : (b + 256 * from_le_bytes bs) / 256 ≡ from_le_bytes bs = omega (arith, h.0) in
    rw (p, q) (ap (λ rest. b ∷ rest) (to_le_bytes-from_le_bytes bs h.1))

-- Eight bytes under this transport's number are read as the number that they spell.
parse_token_addr-from_parts :
    (api : CustomAddrs) (bs : List ℕ)
    → length bs ≡ token_len
    → parse_token_addr api (api.from_parts ble_transport_id bs) ≡ token (from_le_bytes bs)
unfolding parse_token_addr
parse_token_addr-from_parts api bs h =
    rw
      (api.transport_id-from_parts ble_transport_id bs, api.bytes-from_parts ble_transport_id bs, h)
      refl

-- The address that is made of a 64-bit token is read back as that token.
pub parse_token_addr-token_custom_addr :
    (api : CustomAddrs) (t : ℕ)
    → t < 2 ^ 64
    → parse_token_addr api (token_custom_addr api t) ≡ token t
unfolding token_custom_addr
parse_token_addr-token_custom_addr api t h =
    parse_token_addr-from_parts api (to_le_bytes token_len t) (length-to_le_bytes token_len t)
    ∙ ap token (from_le_bytes-to_le_bytes 8 t (omega (arith, h)))

-- An address that is read as a token has this transport's number and the bytes of that token, no
-- others; so two addresses with one token carry the same.
pub parse_token_addr-token :
    (api : CustomAddrs) (addr : api.CustomAddr) (t : ℕ)
    → All (λ b. b < 256) (api.bytes addr)
    → parse_token_addr api addr ≡ token t
    → (api.transport_id addr ≡ ble_transport_id) × (api.bytes addr ≡ to_le_bytes token_len t)
unfolding parse_token_addr
parse_token_addr-token api addr t small h =
    elim (Bool-cases (api.transport_id addr == ble_transport_id)) [
      | inr p ↦ let q : refused not_ble ≡ token t = rw p at h in absurd (cc)
      | inl p ↦ elim (Bool-cases (length (api.bytes addr) == token_len)) [
        | inr l ↦ let q : refused wrong_length ≡ token t = rw (p, l) at h in absurd (cc)
        | inl l ↦
            let q : token (from_le_bytes (api.bytes addr)) ≡ token t = rw (p, l) at h in
            let e : from_le_bytes (api.bytes addr) ≡ t = cc in
            let n : length (api.bytes addr) ≡ token_len = ground arith in
            (ground arith, sym (rw (n, e) at (to_le_bytes-from_le_bytes (api.bytes addr) small)))
      ]
    ]
