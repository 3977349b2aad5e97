-- ===== src/Prelude/Decimal.antt =====
-- Decimal numerals as lists of character codes: Python's `str` and `int` on natural numbers.
use Prim.Native.Nat.{ℕ, zero, suc, ◌+◌, ◌-◌, ◌*◌, ◌/◌, ◌%◌, ◌≤◌, ◌<◌}
use mathlib.Core.Path.{◌≡◌, refl, ap, ◌∙◌}
use mathlib.Core.Bool.{Bool, true, ◌&&◌}
use mathlib.Core.List.{List, [], ◌∷◌, ◌++◌}
use mathlib.Core.Option.{Option, none, some}
use mathlib.Core.Logic.{inl, inr}
use native.Mathlib.Omega.{arith}
use blindrange.Prelude.Lists.{all, length, length-append}
use blindrange.Prelude.Tests.{leb, ltb, if◌then◌else◌, Bool-cases}

abbrev pub is_digit : ℕ → Bool
is_digit c = leb 48 c && leb c 57

-- `str(n)`, on fuel.
unfoldable pub show_fuel : ℕ → ℕ → List ℕ
show_fuel zero n = []
show_fuel (suc f) n =
    let rest = show_fuel f (n / 10) in
    if ltb n 10 then (48 + n) ∷ [] else rest ++ (48 + n % 10) ∷ []

unfoldable pub show : ℕ → List ℕ
unfolding show_fuel
show n = show_fuel (suc n) n

-- What `int` makes of digits, after those that gave `acc`.
unfoldable pub digits_value : ℕ → List ℕ → ℕ
digits_value acc [] = acc
digits_value acc (c ∷ cs) = digits_value (acc * 10 + (c - 48)) cs

-- `int(text)` of a text of digits; anything else is refused.
unfoldable pub read : List ℕ → Option ℕ
unfolding digits_value
read [] = none
read (c ∷ cs) = if all is_digit (c ∷ cs) then some (digits_value 0 (c ∷ cs)) else none

digits_value-append :
    (acc : ℕ) (xs ys : List ℕ) → digits_value acc (xs ++ ys) ≡ digits_value (digits_value acc xs) ys
unfolding digits_value
digits_value-append acc [] ys = refl
digits_value-append acc (x ∷ xs) ys = digits_value-append (acc * 10 + (x - 48)) xs ys

all-append : (xs : List ℕ) (c : ℕ) → all is_digit (xs ++ c ∷ []) ≡ (all is_digit xs && is_digit c)
all-append [] c = ground arith
all-append (x ∷ xs) c = ground (arith, all-append xs c)

digits_value-snoc :
    (acc : ℕ) (xs : List ℕ) (d : ℕ)
    → digits_value acc (xs ++ (48 + d) ∷ []) ≡ digits_value acc xs * 10 + d
unfolding digits_value
digits_value-snoc acc xs d = digits_value-append acc xs ((48 + d) ∷ []) ∙ omega arith

digits_value-one : (n : ℕ) → digits_value 0 ((48 + n) ∷ []) ≡ n
unfolding digits_value
digits_value-one n = omega arith

show_fuel_lem :
    (f n : ℕ)
    → n < f
    → (all is_digit (show_fuel f n) ≡ true)
      × (digits_value 0 (show_fuel f n) ≡ n)
      × (1 ≤ length (show_fuel f n))
unfolding show_fuel
show_fuel_lem zero n h = absurd (omega arith)
show_fuel_lem (suc f) n h = elim (Bool-cases (ltb n 10)) [
  | inl small ↦ rw small (ground arith, digits_value-one n, omega arith)
  | inr big ↦
      let (d, v, l) = show_fuel_lem f (n / 10) (ground arith) in
      rw big (
        ground (arith, all-append (show_fuel f (n / 10)) (48 + n % 10)),
        digits_value-snoc 0 (show_fuel f (n / 10)) (n % 10) ∙ omega (arith, v),
        omega (arith, length-append (show_fuel f (n / 10)) ((48 + n % 10) ∷ [])),
      )
]

pub show-digits : (n : ℕ) → all is_digit (show n) ≡ true
unfolding show
show-digits n = (show_fuel_lem (suc n) n (omega arith)).0

read_digits :
    (xs : List ℕ) → all is_digit xs ≡ true → 1 ≤ length xs → read xs ≡ some (digits_value 0 xs)
unfolding read
read_digits [] d l = absurd (omega arith)
read_digits (x ∷ xs) d l = rw d refl

-- `int(str(n))` is `n`.
pub read-show : (n : ℕ) → read (show n) ≡ some n
unfolding show
read-show n =
    let (d, v, l) = show_fuel_lem (suc n) n (omega arith) in
    read_digits (show_fuel (suc n) n) d l ∙ ap some v
