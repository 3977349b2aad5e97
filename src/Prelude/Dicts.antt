-- ===== src/Prelude/Dicts.antt =====
-- A dict as the list of its items, in the order of their first assignment.
use Prim.Native.Nat.{ℕ}
use mathlib.Core.Path.{◌≡◌, refl}
use mathlib.Core.Bool.{Bool, ◌||◌, false}
use mathlib.Core.List.{List, [], ◌∷◌}
use mathlib.Core.Option.{Option, none, some}
use native.Mathlib.Omega.{arith}
use blindrange.Prelude.Tests.{◌==◌, if◌then◌else◌}

module _ {ℓ} {A : Type ℓ} where
  -- `d.get(k)`
  abbrev pub find_key : List (ℕ × A) → ℕ → Option A
  find_key [] k = none
  find_key ((j, v) ∷ d) k = if j == k then some v else find_key d k

  -- `k in d`
  abbrev pub has_key : List (ℕ × A) → ℕ → Bool
  has_key [] k = false
  has_key ((j, v) ∷ d) k = j == k || has_key d k

  -- `d[k] = v`
  abbrev pub assign : List (ℕ × A) → ℕ → A → List (ℕ × A)
  assign [] k v = (k, v) ∷ []
  assign ((j, w) ∷ d) k v = if j == k then (j, v) ∷ d else (j, w) ∷ assign d k v

  pub find_key-assign :
      (d : List (ℕ × A)) (k j : ℕ) (v : A)
      → find_key (assign d k v) j ≡ (if k == j then some v else find_key d j)
  find_key-assign [] k j v = refl
  find_key-assign ((i, w) ∷ d) k j v = ground (arith, find_key-assign d k j v)

  pub has_key-assign :
      (d : List (ℕ × A)) (k j : ℕ) (v : A) → has_key (assign d k v) j ≡ (k == j || has_key d j)
  has_key-assign [] k j v = refl
  has_key-assign ((i, w) ∷ d) k j v = ground (arith, has_key-assign d k j v)
