-- ===== src/Mtu/Resolve.antt =====
-- About what `resolve_chunk_size` of mtu.rs answers, and when.
use mathlib.Core.Option
use iroh_ble_transport.Prelude.{
  ℕ, zero, suc, ◌+◌, ◌-◌, ◌*◌, ◌≤◌, ◌<◌, min, ◌≡◌, refl, ap, some, Bool-cases, inl, inr, leb, arith,
  subst, false,
}
use iroh_ble_transport.Mtu.{poll_mtu, poll_rounds, resolve_chunk_size}

-- As many polls as reach the deadline give an answer.
poll_mtu_sane :
    (read : ℕ → ℕ) (deadline fuel now : ℕ)
    → now < deadline + 50
    → deadline + 50 ≤ now + 50 * fuel
    → (m : ℕ) × (poll_mtu read deadline fuel now ≡ some m) × (24 ≤ m)
unfolding poll_mtu
poll_mtu_sane read deadline zero now h k = absurd (omega (arith, h, k))
poll_mtu_sane read deadline (suc fuel) now h k = elim (Bool-cases (leb 24 (read now))) [
  | inl t ↦ (read now, rw (poll_mtu, t) refl, ground arith)
  | inr f ↦ elim (Bool-cases (leb deadline now)) [
    | inl t ↦ (512, rw (poll_mtu, f, t) refl, omega arith)
    | inr g ↦
        let early : now < deadline = ground arith in
        let (m, e, sane) =
          poll_mtu_sane read deadline fuel (now + 50) (omega (arith, early)) (omega (arith, k)) in
        (m, rw (poll_mtu, f, g) e, sane)
  ]
]

-- The polling ends, whatever the platform reports, and the chunk size leaves room for a payload of 18
-- bytes and stays within the ceiling.
pub resolve_chunk_size_bounds :
    (read : ℕ → ℕ) (now : ℕ)
    → (size : ℕ) × (resolve_chunk_size read now ≡ some size) × (21 ≤ size) × (size ≤ 509)
unfolding resolve_chunk_size
resolve_chunk_size_bounds read now =
    let (m, e, sane) =
      poll_mtu_sane read (now + 3000) poll_rounds now (omega arith) (omega arith) in
    (min (m - 3) 509, rw e refl, omega (arith, sane), omega arith)

poll_first :
    (read : ℕ → ℕ) (deadline k fuel now : ℕ)
    → k < fuel
    → now + 50 * k ≤ deadline
    → ((j : ℕ) → j < k → read (now + 50 * j) < 24)
    → 24 ≤ read (now + 50 * k)
    → poll_mtu read deadline fuel now ≡ some (read (now + 50 * k))
unfolding poll_mtu
poll_first read deadline k zero now h d early sane = absurd (omega arith)
poll_first read deadline zero (suc fuel) now h d early sane =
    let here : now + 50 * 0 ≡ now = omega arith in
    let sane' : 24 ≤ read now = subst (λ t. 24 ≤ read t) here sane in rw here (ground arith)
poll_first read deadline (suc k) (suc fuel) now h d early sane =
    let here : now + 50 * 0 ≡ now = omega arith in
    let there : now + 50 * suc k ≡ now + 50 + 50 * k = omega arith in
    let insane : read now < 24 = subst (λ t. read t < 24) here (early 0 (omega arith)) in
    let rest : poll_mtu read deadline fuel (now + 50) ≡ some (read (now + 50 + 50 * k)) =
      poll_first read deadline k fuel (now + 50) (omega arith) (omega arith)
        (λ j l. subst (λ t. read t < 24) (shift j) (early (suc j) (omega arith)))
        (subst (λ t. 24 ≤ read t) there sane) in
    rw there (ground arith)
  where
    shift : (j : ℕ) → now + 50 * suc j ≡ now + 50 + 50 * j
    shift j = omega arith

-- The poll at the deadline is the last one.
poll_never :
    (read : ℕ → ℕ) (deadline fuel now : ℕ)
    → now < deadline + 50
    → deadline + 50 ≤ now + 50 * fuel
    → ((j : ℕ) → now + 50 * j < deadline + 50 → read (now + 50 * j) < 24)
    → poll_mtu read deadline fuel now ≡ some 512
unfolding poll_mtu
poll_never read deadline zero now d k h = absurd (omega (arith, d, k))
poll_never read deadline (suc fuel) now d k h =
    let here : now + 50 * 0 ≡ now = omega arith in
    let insane : read now < 24 = subst (λ t. read t < 24) here (h 0 (omega (arith, d))) in
    let insane' : leb 24 (read now) ≡ false = ground arith in
    elim (Bool-cases (leb deadline now)) [
      | inl t ↦ rw (poll_mtu, insane', t) refl
      | inr f ↦
          let early : now < deadline = ground arith in
          rw (poll_mtu, insane', f)
            (poll_never read deadline fuel (now + 50) (omega (arith, early)) (omega (arith, k))
              (λ j l. subst (λ t. read t < 24) (shift j) (h (suc j) (omega (arith, l)))))
    ]
  where
    shift : (j : ℕ) → now + 50 * suc j ≡ now + 50 + 50 * j
    shift j = omega arith

-- The chunk size comes from the first sane reading of the polls up to the deadline, less the ATT
-- overhead and capped.
pub resolve_chunk_size_first :
    (read : ℕ → ℕ) (now k : ℕ)
    → k ≤ 60
    → ((j : ℕ) → j < k → read (now + 50 * j) < 24)
    → 24 ≤ read (now + 50 * k)
    → resolve_chunk_size read now ≡ some (min (read (now + 50 * k) - 3) 509)
unfolding resolve_chunk_size
resolve_chunk_size_first read now k h early sane =
    ap (Option.map (λ m. min (m - 3) 509))
      (poll_first read (now + 3000) k poll_rounds now (omega arith) (omega arith) early sane)

-- If none of them is sane, the loop ends at the deadline and the chunk size is the fallback's.
pub resolve_chunk_size_fallback :
    (read : ℕ → ℕ) (now : ℕ)
    → ((j : ℕ) → j ≤ 60 → read (now + 50 * j) < 24)
    → resolve_chunk_size read now ≡ some 509
unfolding resolve_chunk_size
resolve_chunk_size_fallback read now h = ap (Option.map (λ m. min (m - 3) 509)) (
    poll_never read (now + 3000) poll_rounds now (omega arith) (omega arith)
      (λ j l. h j (omega (arith, l))))
