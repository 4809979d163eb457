-- ===== src/Base/UnorderedMap.antt =====
-- `std::unordered_map`: `find`, and `insert`, which keeps the entry of a key that is there already.
-- The program never walks a map, so the order of the entries is not seen.
use mathlib.Core.Path.{◌≡◌}
use mathlib.Core.Logic.{◌≢◌, ◌⊎◌, ite}
use mathlib.Core.List.{List, [], ◌∷◌}
use mathlib.Core.Option.{Option, none, some}
use native.Mathlib.Omega.{arith}

module _ {ℓ κ} {K : Type ℓ} {V : Type κ} (dec : Discrete K) where
  unfoldable pub find : K → List (K × V) → Option V
  find k [] = none
  find k ((j, v) ∷ m) = ite (dec j k) (some v) (find k m)

  unfoldable pub insert : K → V → List (K × V) → List (K × V)
  unfolding find
  insert k v m = elim (find k m) [ none ↦ (k, v) ∷ m | some _ ↦ m ]

  pub find-insert_self :
      (k : K) (v : V) (m : List (K × V)) → find k m ≡ none → find k (insert k v m) ≡ some v
  unfolding insert
  find-insert_self k v m h = ground arith

  pub find-insert_ne :
      (k j : K) (v : V) (m : List (K × V)) → k ≢ j → find j (insert k v m) ≡ find j m
  unfolding insert
  find-insert_ne k j v m h = ground arith

  -- An entry that is there stays, also under an `insert` of its own key.
  pub find-insert_old :
      (k j : K) (v w : V) (m : List (K × V)) → find j m ≡ some w → find j (insert k v m) ≡ some w
  unfolding insert
  find-insert_old k j v w m h = ground arith

  -- What is found after an `insert` was there before, or is the new entry.
  pub find-insert_inv :
      (k j : K) (v w : V) (m : List (K × V))
      → find j (insert k v m) ≡ some w
      → (find j m ≡ some w) ⊎ ((k ≡ j) × (v ≡ w))
  unfolding insert
  find-insert_inv k j v w m h = ground arith
