-- ===== src/Aging.antt =====
-- Maps whose entries age: those past their time go, and of the others the oldest, down to a limit.
-- routing.rs and conns.rs have the same code for tombstones and for closed pipes.
pub mod Limits
pub mod Newest
use iroh_ble_transport.Prelude.{
  Bool, List, Map, [], if◌then◌else◌, leb, length, remove, retain, take, ℕ, ◌-◌, ◌∷◌,
}

unfoldable pub insert_by_age : ℕ × ℕ → List (ℕ × ℕ) → List (ℕ × ℕ)
insert_by_age (id, at) [] = (id, at) ∷ []
insert_by_age (id, at) ((i, a) ∷ rest) =
    if leb at a then (id, at) ∷ (i, a) ∷ rest else (i, a) ∷ insert_by_age (id, at) rest

module _ {ℓ} {V : Type ℓ} where
  -- The keys with their ages, sorted; equal ages keep their order.
  unfoldable pub by_age : (V → ℕ) → Map V → List (ℕ × ℕ)
  unfolding insert_by_age
  by_age age [] = []
  by_age age ((id, t) ∷ m) = insert_by_age (id, age t) (by_age age m)

  unfoldable pub remove_all : List (ℕ × ℕ) → Map V → Map V
  unfolding remove
  remove_all [] m = m
  remove_all ((id, at) ∷ rest) m = remove_all rest (remove id m)

  unfoldable pub prune_oldest : (V → Bool) → (V → ℕ) → ℕ → Map V → Map V
  unfolding by_age remove_all retain
  prune_oldest live age limit m =
      let kept = retain live m in
      if leb (length kept) limit
      then kept
      else remove_all (take (length kept - limit) (by_age age kept)) kept
