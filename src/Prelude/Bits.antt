-- ===== src/Prelude/Bits.antt =====
-- `&` and `|` at variables. The native operations compute at numerals; what they are at variables
-- is read off the recursion on binary digits, `bitwise`, that they stand for.
use Prim.Native.Nat.{
  ℕ, zero, suc, ◌+◌, ◌-◌, ◌*◌, ◌/◌, ◌%◌, ◌≤◌, ◌<◌, min, max, bit_and, bit_or, digits, bitwise,
  bit_and-bitwise, bit_or-bitwise,
}
use mathlib.Core.Path.{◌≡◌, refl, ap, ◌∙◌, sym}
use native.Mathlib.Nat.{zero-add, suc-add}
use native.Mathlib.Omega.{arith}

module _ (rest : ℕ → ℕ) (op : ℕ → ℕ → ℕ) where
  -- A number of `n` rounds that is enough gains nothing by one round more.
  one_more : (n x y : ℕ) → x ≤ n → digits rest op (suc n) x y ≡ digits rest op n x y
  one_more zero zero y h = refl
  one_more zero (suc x) y h = absurd (omega arith)
  one_more (suc n) zero y h = refl
  one_more (suc n) (suc x) y h =
      ap (λ (t : ℕ). t * 2 + op (suc x % 2) (y % 2)) (one_more n (suc x / 2) (y / 2) (omega arith))

  many_more : (k n x y : ℕ) → x ≤ n → digits rest op (k + n) x y ≡ digits rest op n x y
  many_more zero n x y h = rw zero-add refl
  many_more (suc k) n x y h = rw suc-add (one_more (k + n) x y (omega arith) ∙ many_more k n x y h)

  -- The lowest digit, and the rest of the digits.
  lowest :
      (x y : ℕ)
      → bitwise rest op (suc x) y ≡ bitwise rest op (suc x / 2) (y / 2) * 2 + op (suc x % 2) (y % 2)
  lowest x y =
      let h = suc x / 2 in
      let e : x - h + h ≡ x = omega arith in
      ap (λ (t : ℕ). t * 2 + op (suc x % 2) (y % 2))
        (sym (ap (λ (n : ℕ). digits rest op n h (y / 2)) e)
          ∙ many_more (x - h) h h (y / 2) (omega arith))

pub bit_and_step : (x y : ℕ) → bit_and x y ≡ bit_and (x / 2) (y / 2) * 2 + min (x % 2) (y % 2)
bit_and_step zero y = omega (arith, bit_and-bitwise 0 y, bit_and-bitwise 0 (y / 2))
bit_and_step (suc x) y =
    let halves = bit_and-bitwise (suc x / 2) (y / 2) in
    omega (arith, bit_and-bitwise (suc x) y, halves, lowest (λ _. 0) min x y)

pub bit_or_step : (x y : ℕ) → bit_or x y ≡ bit_or (x / 2) (y / 2) * 2 + max (x % 2) (y % 2)
bit_or_step zero y = omega (arith, bit_or-bitwise 0 y, bit_or-bitwise 0 (y / 2))
bit_or_step (suc x) y =
    let halves = bit_or-bitwise (suc x / 2) (y / 2) in
    omega (arith, bit_or-bitwise (suc x) y, halves, lowest (λ t. t) max x y)

or_zero_fuel : (n a : ℕ) → a ≤ n → bit_or a 0 ≡ a
or_zero_fuel n zero h = refl
or_zero_fuel zero (suc a) h = absurd (omega arith)
or_zero_fuel (suc n) (suc a) h =
    omega (arith, bit_or_step (suc a) 0, or_zero_fuel n (suc a / 2) (omega arith))

pub bit_or-zero : (a : ℕ) → bit_or a 0 ≡ a
bit_or-zero a = or_zero_fuel a a (omega arith)

-- Below the lowest one of the first number a disjunction is a sum.
or_double : (a x s : ℕ) → bit_or a (x / 2) ≡ s → bit_or (a * 2) x ≡ s * 2 + x % 2
or_double a x s h =
    let e : a * 2 / 2 ≡ a = omega arith in
    omega (arith, bit_or_step (a * 2) x, ap (λ (t : ℕ). bit_or t (x / 2)) e, h)

pub bit_or_shift : (v x : ℕ) → x < 32 → bit_or (v * 32) x ≡ v * 32 + x
bit_or_shift v x h =
    let z : x / 2 / 2 / 2 / 2 / 2 ≡ 0 = omega arith in
    let s0 : bit_or v (x / 2 / 2 / 2 / 2 / 2) ≡ v = rw z (bit_or-zero v) in
    let s1 = or_double v (x / 2 / 2 / 2 / 2) v s0 in
    let s2 = or_double (v * 2) (x / 2 / 2 / 2) _ s1 in
    let s3 = or_double (v * 2 * 2) (x / 2 / 2) _ s2 in
    let s4 = or_double (v * 2 * 2 * 2) (x / 2) _ s3 in
    let s5 = or_double (v * 2 * 2 * 2 * 2) x _ s4 in
    let e : v * 2 * 2 * 2 * 2 * 2 ≡ v * 32 = omega arith in
    omega (arith, s5, ap (λ (t : ℕ). bit_or t x) e)

and_zero_fuel : (n a : ℕ) → a ≤ n → bit_and a 0 ≡ 0
and_zero_fuel n zero h = refl
and_zero_fuel zero (suc a) h = absurd (omega arith)
and_zero_fuel (suc n) (suc a) h =
    omega (arith, bit_and_step (suc a) 0, and_zero_fuel n (suc a / 2) (omega arith))

and_le_fuel : (n x y : ℕ) → y ≤ n → bit_and x y ≤ y
and_le_fuel n x zero h = omega (arith, and_zero_fuel x x (omega arith))
and_le_fuel zero x (suc y) h = absurd (omega (arith, h))
and_le_fuel (suc n) x (suc y) h =
    omega (arith, bit_and_step x (suc y), and_le_fuel n (x / 2) (suc y / 2) (omega (arith, h)))

pub bit_and_le : (x y : ℕ) → bit_and x y ≤ y
bit_and_le x y = and_le_fuel y x y (omega arith)
