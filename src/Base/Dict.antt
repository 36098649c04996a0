-- ===== src/Base/Dict.antt =====
-- A dict with number keys, as a list of its items in their order.
use Prim.Native.Nat.{ℕ}
use mathlib.Core.Path.{◌≡◌, refl}
use mathlib.Core.List.{List, [], ◌∷◌}
use mathlib.Core.Option.{Option, none, some}
use native.Mathlib.Omega.{arith}
use onesti_lock.Base.Tests.{◌==◌, if◌then◌else◌}

module _ {A : Type 0} where
  -- `d.get(key)`, `d[key] = a` and `del d[key]`.
  unfoldable pub find : ℕ → List (ℕ × A) → Option A
  find key [] = none
  find key ((k, a) ∷ d) = let rest = find key d in if k == key then some a else rest

  unfoldable pub put : ℕ → A → List (ℕ × A) → List (ℕ × A)
  put key a [] = (key, a) ∷ []
  put key a ((k, b) ∷ d) = let rest = put key a d in if k == key then (k, a) ∷ d else (k, b) ∷ rest

  unfoldable pub remove : ℕ → List (ℕ × A) → List (ℕ × A)
  remove key [] = []
  remove key ((k, b) ∷ d) = let rest = remove key d in if k == key then rest else (k, b) ∷ rest

  pub find-put :
      (key k : ℕ) (a : A) (d : List (ℕ × A))
      → find k (put key a d) ≡ (if key == k then some a else find k d)
  unfolding find put
  find-put key k a [] = refl
  find-put key k a ((j, b) ∷ d) = ground (arith, find-put key k a d)

  pub find-remove :
      (key k : ℕ) (d : List (ℕ × A)) → find k (remove key d) ≡ (if key == k then none else find k d)
  unfolding find remove
  find-remove key k [] = ground arith
  find-remove key k ((j, b) ∷ d) = ground (arith, find-remove key k d)

module _ {A B : Type 0} (f : A → B) where
  unfoldable pub map_values : List (ℕ × A) → List (ℕ × B)
  map_values [] = []
  map_values ((k, a) ∷ d) = (k, f a) ∷ map_values d

  pub find-map_values :
      (key : ℕ) (d : List (ℕ × A))
      → find key (map_values d) ≡ (elim (find key d) [ none ↦ none | some a ↦ some (f a) ])
  unfolding find map_values
  find-map_values key [] = refl
  find-map_values key ((k, a) ∷ d) = ground (arith, find-map_values key d)
