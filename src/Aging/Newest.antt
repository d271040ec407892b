-- ===== src/Aging/Newest.antt =====
-- The newest entry and a prune of the others (`prune_pipe_tombstones` and `prune_closed`).
use iroh_ble_transport.Prelude.{
  AllPairs, Bool, Bool-cases, KeysOk, KeysOk-retain, List, Map, [], ap, arith, false, get,
  get-remove, inl, inr, leb, length, length-append, refl, remove, retain, retain-AllPairs, some,
  subst, suc, sym, take, true, zero, ℕ, ◌++◌, ◌+◌, ◌-◌, ◌<◌, ◌==◌, ◌∙◌, ◌∷◌, ◌≡◌, ◌≢◌, ◌≤◌,
}
use iroh_ble_transport.Aging.{by_age, insert_by_age, prune_oldest, remove_all}
use iroh_ble_transport.Aging.Limits.{
  AllPairs-insert_by_age, AllPairs-take, KeysOk-by_age, length-by_age,
}

abbrev newest : ℕ → ℕ → List (ℕ × ℕ)
newest k a = (k, a) ∷ []

insert_by_age-newest :
    (k a : ℕ) (ks : Map ℕ) → AllPairs (λ j b. b < a) ks → insert_by_age (k, a) ks ≡ ks ++ newest k a
unfolding insert_by_age
insert_by_age-newest k a [] h = refl
insert_by_age-newest k a ((j, b) ∷ ks) h =
    let f : leb a b ≡ false = ground arith in
    rw (f) (ap (λ rest. (j, b) ∷ rest) (insert_by_age-newest k a ks h.1))

insert_by_age-before :
    (j b k a : ℕ) (xs : Map ℕ)
    → b < a
    → insert_by_age (j, b) (xs ++ newest k a) ≡ insert_by_age (j, b) xs ++ newest k a
unfolding insert_by_age
insert_by_age-before j b k a [] h = let t : leb b a ≡ true = ground arith in rw (t) refl
insert_by_age-before j b k a ((i, c) ∷ xs) h = elim (Bool-cases (leb b c)) [
  | inl t ↦ rw (t) refl
  | inr f ↦ rw (f) (ap (λ rest. (i, c) ∷ rest) (insert_by_age-before j b k a xs h))
]

take-before : (n k a : ℕ) (xs : Map ℕ) → n ≤ length xs → take n (xs ++ newest k a) ≡ take n xs
take-before zero k a xs h = refl
take-before (suc n) k a [] h = absurd (omega (arith, h))
take-before (suc n) k a (x ∷ xs) h = ap (λ rest. x ∷ rest) (take-before n k a xs (omega (arith, h)))

AllPairs-before {κ} :
    (P : ℕ → ℕ → Type κ) (k a : ℕ) (xs : Map ℕ) → AllPairs P (xs ++ newest k a) → AllPairs P xs
AllPairs-before P k a [] h = tt
AllPairs-before P k a (x ∷ xs) h = (h.0, AllPairs-before P k a xs h.1)

KeysOk-before : (k a : ℕ) (xs : Map ℕ) → KeysOk (xs ++ newest k a) → AllPairs (λ j b. j ≢ k) xs
KeysOk-before k a [] h = tt
KeysOk-before k a ((j, b) ∷ xs) h =
    let apart : k ≢ j = last_pair k a (λ i c. i ≢ j) xs h.0 in
    ((λ e. apart (sym e)), KeysOk-before k a xs h.1)
  where
    last_pair : (k a : ℕ) (P : ℕ → ℕ → Type 0) (xs : Map ℕ) → AllPairs P (xs ++ (k, a) ∷ []) → P k a
    last_pair k a P [] h = h.0
    last_pair k a P (x ∷ xs) h = last_pair k a P xs h.1

module _ {ℓ} {V : Type ℓ} (age : V → ℕ) (k : ℕ) (v : V) where
  -- All other entries of the map are older.
  abbrev pub Newest : Map V → Type 0
  Newest = AllPairs (λ j w. j ≢ k → age w < age v)

  older :
      (m : Map V)
      → AllPairs (λ j w. j ≢ k) m
      → Newest m
      → AllPairs (λ j b. b < age v) (by_age age m)
  unfolding by_age
  older [] apart h = tt
  older ((j, w) ∷ m) apart h =
      AllPairs-insert_by_age (λ i b. b < age v) j (age w) (by_age age m) (h.0 apart.0)
        (older m apart.1 h.1)

  by_age-newest :
      (m : Map V)
      → get k m ≡ some v
      → KeysOk m
      → Newest m
      → (xs : Map ℕ) × (by_age age m ≡ xs ++ newest k (age v))
  unfolding by_age get
  by_age-newest [] found keys h = absurd (cc)
  by_age-newest ((j, w) ∷ m) found keys h = elim (Bool-cases (j == k)) [
    | inl t ↦
        let here : j ≡ k = ground arith in
        let same : w ≡ v = ground arith in
        let apart = subst (λ x. AllPairs (λ i u. i ≢ x) m) here keys.0 in
        (
          by_age age m,
          rw (here, same) (insert_by_age-newest k (age v) (by_age age m) (older m apart h.1)),
        )
    | inr f ↦
        let (xs, e) = by_age-newest m (rw (f, get) at found) keys.1 h.1 in
        (
          insert_by_age (j, age w) xs,
          rw e (insert_by_age-before j (age w) k (age v) xs (h.0 (ground arith))),
        )
  ]

  get-remove_all :
      (ks : Map ℕ) (m : Map V) → AllPairs (λ j b. j ≢ k) ks → get k (remove_all ks m) ≡ get k m
  unfolding remove_all
  get-remove_all [] m h = refl
  get-remove_all ((j, b) ∷ ks) m h =
      let f : (j == k) ≡ false = ground arith in
      get-remove_all ks (remove j m) h.1 ∙ rw (get-remove, f) refl

  get-retain :
      (p : V → Bool) (m : Map V)
      → KeysOk m
      → p v ≡ true
      → get k m ≡ some v
      → get k (retain p m) ≡ some v
  unfolding get retain
  get-retain p [] keys alive found = absurd (cc)
  get-retain p ((j, w) ∷ m) keys alive found = elim (Bool-cases (j == k)) [
    | inl t ↦
        let same : w ≡ v = ground arith in
        let alive' : p w ≡ true = rw same alive in rw (alive', get, t) (ap some same)
    | inr f ↦
        let rest = get-retain p m keys.1 alive (rw (f, get) at found) in
        elim (Bool-cases (p w)) [ inl t ↦ rw (t, get, f) rest | inr n ↦ rw (n) rest ]
  ]

  pub prune_oldest-Newest :
      (live : V → Bool) (limit : ℕ) (m : Map V)
      → 0 < limit
      → KeysOk m
      → live v ≡ true
      → Newest m
      → get k m ≡ some v
      → get k (prune_oldest live age limit m) ≡ some v
  unfolding prune_oldest
  prune_oldest-Newest live limit m room keys alive h found =
      let kept = retain live m in
      let found' = get-retain live m keys alive found in
      let keys' = KeysOk-retain live m keys in
      let n = length kept - limit in
      let (xs, e) =
        by_age-newest kept found' keys' (retain-AllPairs (λ j w. j ≢ k → age w < age v) live m h) in
      let sorted = subst KeysOk e (KeysOk-by_age age kept keys') in
      let size : length kept ≡ length xs + 1 =
        sym (length-by_age age kept) ∙ ap length e ∙ length-append xs (newest k (age v)) in
      elim (Bool-cases (leb (length kept) limit)) [
        | inl t ↦ rw (prune_oldest, t) found'
        | inr f ↦
            let few : n ≤ length xs = omega (arith, size, room) in
            rw (prune_oldest, f, e, take-before n k (age v) xs few)
              (get-remove_all (take n xs) kept
                  (AllPairs-take (λ j b. j ≢ k) n xs (KeysOk-before k (age v) xs sorted))
                ∙ found')
      ]
