-- ===== src/Aging/Limits.antt =====
-- How many entries a prune leaves.
use iroh_ble_transport.Prelude.{
  AllPairs, Bool, Bool-cases, KeysOk, KeysOk-remove, KeysOk-retain, Map, [], arith, get, get-remove,
  if_both, inl, inr, insert, is_some, leb, leb→le, length, length-take, refl, remove,
  remove-AllPairs, retain, retain-AllPairs, subst, suc, take, true, zero, ℕ, ◌+◌, ◌-◌, ◌==◌, ◌∷◌,
  ◌≡◌, ◌≢◌, ◌≤◌,
}
use iroh_ble_transport.Aging.{by_age, insert_by_age, prune_oldest, remove_all}

-- The keys of a map all stand in another one.
abbrev pub KeysIn {ℓ} : {V : Type ℓ} → Map V → Map ℕ → Type 0
KeysIn m ks = AllPairs (λ k w. is_some (get k m) ≡ true) ks

module _ {ℓ} {V : Type ℓ} where
  remove_absent : (k : ℕ) (m : Map V) → AllPairs (λ j w. j ≢ k) m → remove k m ≡ m
  unfolding remove
  remove_absent k [] h = refl
  remove_absent k ((j, w) ∷ m) h = ground (arith, remove_absent k m h.1)

  pub length-remove :
      (k : ℕ) (m : Map V) → KeysOk m → is_some (get k m) ≡ true → length (remove k m) + 1 ≡ length m
  unfolding get remove
  length-remove k [] keys h = absurd (cc)
  length-remove k ((j, w) ∷ m) keys h = elim (Bool-cases (j == k)) [
    | inl t ↦
        let e : j ≡ k = ground arith in
        let same = remove_absent k m (subst (λ x. AllPairs (λ i w. i ≢ x) m) e keys.0) in
        rw (t, remove, same) (omega arith)
    | inr f ↦
        let rest = length-remove k m keys.1 (rw (f, get) at h) in
        rw (f, remove) (omega (arith, rest))
  ]

  pub length-remove_le : (k : ℕ) (m : Map V) → length (remove k m) ≤ length m
  unfolding remove
  length-remove_le k [] = omega arith
  length-remove_le k ((j, w) ∷ m) = ground (arith, length-remove_le k m)

  pub length-insert_le : (k : ℕ) (v : V) (m : Map V) → length (insert k v m) ≤ length m + 1
  unfolding insert
  length-insert_le k v [] = omega arith
  length-insert_le k v ((j, w) ∷ m) = ground (arith, length-insert_le k v m)

  -- What stands beside the removed key stays.
  KeysIn-remove :
      (k : ℕ) (ks : Map ℕ) (m : Map V)
      → AllPairs (λ j w. j ≢ k) ks
      → KeysIn m ks
      → KeysIn (remove k m) ks
  KeysIn-remove k [] m apart h = tt
  KeysIn-remove k ((j, a) ∷ ks) m apart h =
      let e : get j (remove k m) ≡ get j m = ground (arith, get-remove k j m) in
      (rw e h.0, KeysIn-remove k ks m apart.1 h.1)

  length-remove_all :
      (ks : Map ℕ) (m : Map V)
      → KeysOk ks
      → KeysOk m
      → KeysIn m ks
      → length (remove_all ks m) + length ks ≡ length m
  unfolding remove_all
  length-remove_all [] m keys_ks keys h = omega arith
  length-remove_all ((k, a) ∷ ks) m keys_ks keys h =
      let one = length-remove k m keys h.0 in
      let rest =
        length-remove_all ks (remove k m) keys_ks.1 (KeysOk-remove k m keys)
          (KeysIn-remove k ks m keys_ks.0 h.1) in
      omega (arith, one, rest)

  KeysOk-remove_all : (ks : Map ℕ) (m : Map V) → KeysOk m → KeysOk (remove_all ks m)
  unfolding remove_all
  KeysOk-remove_all [] m keys = keys
  KeysOk-remove_all ((k, a) ∷ ks) m keys =
      KeysOk-remove_all ks (remove k m) (KeysOk-remove k m keys)

AllPairs-remove_all {ℓ κ} :
    {V : Type ℓ} (P : ℕ → V → Type κ) (ks : Map ℕ) (m : Map V)
    → AllPairs P m
    → AllPairs P (remove_all ks m)
unfolding remove_all
AllPairs-remove_all P [] m h = h
AllPairs-remove_all P ((k, a) ∷ ks) m h =
    AllPairs-remove_all P ks (remove k m) (remove-AllPairs P k m h)

pub AllPairs-insert_by_age {κ} :
    (P : ℕ → ℕ → Type κ) (k a : ℕ) (ks : Map ℕ)
    → P k a
    → AllPairs P ks
    → AllPairs P (insert_by_age (k, a) ks)
unfolding insert_by_age
AllPairs-insert_by_age P k a [] p h = (p, tt)
AllPairs-insert_by_age P k a ((j, b) ∷ ks) p h =
    if_both (AllPairs P) (leb a b) (p, h) (h.0, AllPairs-insert_by_age P k a ks p h.1)

KeysOk-insert_by_age :
    (k a : ℕ) (ks : Map ℕ)
    → AllPairs (λ j b. j ≢ k) ks
    → KeysOk ks
    → KeysOk (insert_by_age (k, a) ks)
unfolding insert_by_age
KeysOk-insert_by_age k a [] apart keys = (tt, tt)
KeysOk-insert_by_age k a ((j, b) ∷ ks) apart keys =
    if_both KeysOk (leb a b) (apart, keys)
      (
        AllPairs-insert_by_age (λ i c. i ≢ j) k a ks (ground arith) keys.0,
        KeysOk-insert_by_age k a ks apart.1 keys.1,
      )

length-insert_by_age : (k a : ℕ) (ks : Map ℕ) → length (insert_by_age (k, a) ks) ≡ length ks + 1
unfolding insert_by_age
length-insert_by_age k a [] = omega arith
length-insert_by_age k a ((j, b) ∷ ks) = ground (arith, length-insert_by_age k a ks)

module _ {ℓ} {V : Type ℓ} (age : V → ℕ) where
  pub length-by_age : (m : Map V) → length (by_age age m) ≡ length m
  unfolding by_age
  length-by_age [] = refl
  length-by_age ((k, t) ∷ m) =
      omega (arith, length-insert_by_age k (age t) (by_age age m), length-by_age m)

  AllPairs-by_age {κ} :
      (P : ℕ → Type κ) (m : Map V) → AllPairs (λ k t. P k) m → AllPairs (λ k a. P k) (by_age age m)
  unfolding by_age
  AllPairs-by_age P [] h = tt
  AllPairs-by_age P ((k, t) ∷ m) h =
      AllPairs-insert_by_age (λ k a. P k) k (age t) (by_age age m) h.0 (AllPairs-by_age P m h.1)

  pub KeysOk-by_age : (m : Map V) → KeysOk m → KeysOk (by_age age m)
  unfolding by_age
  KeysOk-by_age [] keys = tt
  KeysOk-by_age ((k, t) ∷ m) keys =
      KeysOk-insert_by_age k (age t) (by_age age m) (AllPairs-by_age (λ j. j ≢ k) m keys.0)
        (KeysOk-by_age m keys.1)

  -- Every key of a map is found in it.
  KeysIn-cons : (k : ℕ) (v : V) (m : Map V) (ks : Map ℕ) → KeysIn m ks → KeysIn ((k, v) ∷ m) ks
  unfolding get
  KeysIn-cons k v m [] h = tt
  KeysIn-cons k v m ((j, a) ∷ ks) h = (ground arith, KeysIn-cons k v m ks h.1)

  KeysIn-by_age : (m : Map V) → KeysIn m (by_age age m)
  unfolding by_age get
  KeysIn-by_age [] = tt
  KeysIn-by_age ((k, t) ∷ m) =
      AllPairs-insert_by_age (λ j a. is_some (get j ((k, t) ∷ m)) ≡ true) k (age t) (by_age age m)
        (ground arith) (KeysIn-cons k t m (by_age age m) (KeysIn-by_age m))

pub AllPairs-take {κ} :
    (P : ℕ → ℕ → Type κ) (n : ℕ) (ks : Map ℕ) → AllPairs P ks → AllPairs P (take n ks)
AllPairs-take P zero ks h = tt
AllPairs-take P (suc n) [] h = tt
AllPairs-take P (suc n) (k ∷ ks) h = (h.0, AllPairs-take P n ks h.1)

KeysOk-take : (n : ℕ) (ks : Map ℕ) → KeysOk ks → KeysOk (take n ks)
KeysOk-take zero ks keys = tt
KeysOk-take (suc n) [] keys = tt
KeysOk-take (suc n) ((k, a) ∷ ks) keys =
    (AllPairs-take (λ j b. j ≢ k) n ks keys.0, KeysOk-take n ks keys.1)

module _ {ℓ} {V : Type ℓ} (live : V → Bool) (age : V → ℕ) (limit : ℕ) where
  pub KeysOk-prune_oldest : (m : Map V) → KeysOk m → KeysOk (prune_oldest live age limit m)
  unfolding prune_oldest
  KeysOk-prune_oldest m keys =
      let kept = retain live m in
      let keys' = KeysOk-retain live m keys in
      if_both KeysOk (leb (length kept) limit) keys'
        (KeysOk-remove_all (take (length kept - limit) (by_age age kept)) kept keys')

  pub AllPairs-prune_oldest {κ} :
      (P : ℕ → V → Type κ) (m : Map V) → AllPairs P m → AllPairs P (prune_oldest live age limit m)
  unfolding prune_oldest
  AllPairs-prune_oldest P m h =
      let kept = retain live m in
      let h' = retain-AllPairs P live m h in
      if_both (AllPairs P) (leb (length kept) limit) h'
        (AllPairs-remove_all P (take (length kept - limit) (by_age age kept)) kept h')

  pub length-prune_oldest : (m : Map V) → KeysOk m → length (prune_oldest live age limit m) ≤ limit
  unfolding prune_oldest
  length-prune_oldest m keys =
      let kept = retain live m in
      let keys' = KeysOk-retain live m keys in
      let n = length kept - limit in
      let oldest = take n (by_age age kept) in
      elim (Bool-cases (leb (length kept) limit)) [
        | inl t ↦ rw (prune_oldest, t) (leb→le (length kept) limit t)
        | inr f ↦
            let gone =
              length-remove_all oldest kept
                (KeysOk-take n (by_age age kept) (KeysOk-by_age age kept keys')) keys'
                (AllPairs-take (λ k a. is_some (get k kept) ≡ true) n (by_age age kept)
                  (KeysIn-by_age age kept)) in
            let many = length-take n (by_age age kept) in
            let all = length-by_age age kept in
            rw (prune_oldest, f) (omega (arith, gone, many, all))
      ]
