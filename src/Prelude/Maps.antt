-- ===== src/Prelude/Maps.antt =====
-- Hash maps with numbers for keys, as association lists. An insertion replaces the value in place
-- or adds a pair at the end; a removal takes out every pair with the key.
use Prim.Native.Nat.{ℕ}
use mathlib.Core.Path.{◌≡◌, refl}
use mathlib.Core.Logic.{◌≢◌, inl, inr}
use mathlib.Core.List.{List, [], ◌∷◌}
use mathlib.Core.Option.{Option, none, some}
use mathlib.Core.Bool.{Bool}
use native.Mathlib.Omega.{arith}
use iroh_ble_transport.Prelude.Tests.{◌==◌, if◌then◌else◌, if_both, Bool-cases}

abbrev pub Map {ℓ} : Type ℓ → Type ℓ
Map V = List (ℕ × V)

module _ {ℓ} {V : Type ℓ} where
  unfoldable pub get : ℕ → Map V → Option V
  get k [] = none
  get k ((j, v) ∷ m) = if j == k then some v else get k m

  unfoldable pub insert : ℕ → V → Map V → Map V
  insert k v [] = (k, v) ∷ []
  insert k v ((j, w) ∷ m) = if j == k then (j, v) ∷ m else (j, w) ∷ insert k v m

  unfoldable pub remove : ℕ → Map V → Map V
  remove k [] = []
  remove k ((j, w) ∷ m) = if j == k then remove k m else (j, w) ∷ remove k m

  -- `HashMap::retain` on the values.
  unfoldable pub retain : (V → Bool) → Map V → Map V
  retain p [] = []
  retain p ((k, v) ∷ m) = if p v then (k, v) ∷ retain p m else retain p m

  -- The first value that passes a test, in the order of the map.
  unfoldable pub find_value : (V → Bool) → Map V → Option V
  find_value p [] = none
  find_value p ((k, v) ∷ m) = if p v then some v else find_value p m

  -- The first key whose value passes.
  unfoldable pub find_key : (V → Bool) → Map V → Option ℕ
  find_key p [] = none
  find_key p ((k, v) ∷ m) = if p v then some k else find_key p m

  pub get-insert :
      (k j : ℕ) (v : V) (m : Map V) → get j (insert k v m) ≡ (if k == j then some v else get j m)
  unfolding get insert
  get-insert k j v [] = refl
  get-insert k j v ((i, w) ∷ m) = ground (arith, get-insert k j v m)

  pub get-insert_self : (k : ℕ) (v : V) (m : Map V) → get k (insert k v m) ≡ some v
  get-insert_self k v m = ground (arith, get-insert k k v m)

  pub get-insert_ne : (k j : ℕ) (v : V) (m : Map V) → k ≢ j → get j (insert k v m) ≡ get j m
  get-insert_ne k j v m h = ground (arith, get-insert k j v m)

  pub insert_same : (k : ℕ) {v : V} (m : Map V) → get k m ≡ some v → insert k v m ≡ m
  unfolding get insert
  insert_same k {v} [] e = absurd (cc)
  insert_same k {v} ((j, w) ∷ m) e = ground (arith, insert_same k {v = v} m)

  pub get-remove : (k j : ℕ) (m : Map V) → get j (remove k m) ≡ (if k == j then none else get j m)
  unfolding get remove
  get-remove k j [] = ground arith
  get-remove k j ((i, w) ∷ m) = ground (arith, get-remove k j m)

module _ {ℓ κ} {V : Type ℓ} (P : ℕ → V → Type κ) where
  -- The predicate holds of every pair of the map.
  abbrev pub AllPairs : Map V → Type κ
  AllPairs [] = Unit
  AllPairs ((k, v) ∷ m) = P k v × AllPairs m

  pub get-AllPairs : (k : ℕ) {v : V} (m : Map V) → AllPairs m → get k m ≡ some v → P k v
  unfolding get
  get-AllPairs k {v} [] h e = absurd (cc)
  get-AllPairs k {v} ((j, w) ∷ m) h e = ground (arith, get-AllPairs k {v = v} m h.1)

  pub insert-AllPairs : (k : ℕ) (v : V) (m : Map V) → P k v → AllPairs m → AllPairs (insert k v m)
  unfolding insert
  insert-AllPairs k v [] p h = (p, tt)
  insert-AllPairs k v ((j, w) ∷ m) p h = ground (arith, insert-AllPairs k v m p h.1)

  pub remove-AllPairs : (k : ℕ) (m : Map V) → AllPairs m → AllPairs (remove k m)
  unfolding remove
  remove-AllPairs k [] h = tt
  remove-AllPairs k ((j, w) ∷ m) h = ground (arith, remove-AllPairs k m h.1)

  pub retain-AllPairs : (p : V → Bool) (m : Map V) → AllPairs m → AllPairs (retain p m)
  unfolding retain
  retain-AllPairs p [] a = tt
  retain-AllPairs p ((d, e) ∷ m) a =
      if_both AllPairs (p e) (a.0, retain-AllPairs p m a.1) (retain-AllPairs p m a.1)

module _ {ℓ} {V : Type ℓ} where
  -- No key stands in the map twice.
  abbrev pub KeysOk : Map V → Type 0
  KeysOk [] = Unit
  KeysOk ((k, v) ∷ m) = AllPairs (λ j w. j ≢ k) m × KeysOk m

  pub KeysOk-insert : (k : ℕ) (v : V) (m : Map V) → KeysOk m → KeysOk (insert k v m)
  unfolding insert
  KeysOk-insert k v [] h = (tt, tt)
  KeysOk-insert k v ((j, w) ∷ m) h = elim (Bool-cases (j == k)) [
    | inl t ↦ rw (t, insert) h
    | inr t ↦
        let apart : k ≢ j = ground arith in
        rw (t, insert) (insert-AllPairs (λ i w. i ≢ j) k v m apart h.0, KeysOk-insert k v m h.1)
  ]

  pub KeysOk-remove : (k : ℕ) (m : Map V) → KeysOk m → KeysOk (remove k m)
  unfolding remove
  KeysOk-remove k [] h = tt
  KeysOk-remove k ((j, w) ∷ m) h =
      if_both KeysOk (j == k) (KeysOk-remove k m h.1)
        (remove-AllPairs (λ i w. i ≢ j) k m h.0, KeysOk-remove k m h.1)

  pub KeysOk-retain : (p : V → Bool) (m : Map V) → KeysOk m → KeysOk (retain p m)
  unfolding retain
  KeysOk-retain p [] h = tt
  KeysOk-retain p ((j, w) ∷ m) h =
      if_both KeysOk (p w) (retain-AllPairs (λ i w. i ≢ j) p m h.0, KeysOk-retain p m h.1)
        (KeysOk-retain p m h.1)

module _ {ℓ κ μ} {V : Type ℓ} (P : ℕ → V → Type κ) (Q : ℕ → V → Type μ) where
  pub AllPairs-mono : ((k : ℕ) (v : V) → P k v → Q k v) → (m : Map V) → AllPairs P m → AllPairs Q m
  AllPairs-mono f [] h = tt
  AllPairs-mono f ((k, v) ∷ m) h = (f k v h.0, AllPairs-mono f m h.1)
