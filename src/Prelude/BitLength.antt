-- ===== src/Prelude/BitLength.antt =====
-- Python's `int.bit_length`, and the test `n & (n - 1) == 0` of a power of two.
use Prim.Native.Nat.{ℕ, zero, suc, ◌-◌, ◌*◌, ◌/◌, ◌%◌, ◌^◌, ◌≤◌, ◌<◌, bit_and}
use mathlib.Core.Path.{◌≡◌, refl, ap}
use mathlib.Core.Logic.{inl, inr}
use native.Mathlib.Omega.{arith}
use blindrange.Prelude.Tests.{◌==◌, if◌then◌else◌, Bool-cases}
use blindrange.Prelude.Bits.{bit_and_step}
use blindrange.Prelude.Powers.{two_pow_suc, two_pow_pos, two_pow_pred}

-- On fuel: `n` rounds are enough for `n`.
bit_length_fuel : ℕ → ℕ → ℕ
bit_length_fuel zero n = 0
bit_length_fuel (suc f) n = let rest = bit_length_fuel f (n / 2) in if n == 0 then 0 else suc rest

unfoldable pub bit_length : ℕ → ℕ
unfolding bit_length_fuel
bit_length n = bit_length_fuel n n

bit_length_fuel_lem : (f g n : ℕ) → n ≤ f → n ≤ g → bit_length_fuel f n ≡ bit_length_fuel g n
unfolding bit_length_fuel
bit_length_fuel_lem zero zero n p q = refl
bit_length_fuel_lem zero (suc g) n p q = ground arith
bit_length_fuel_lem (suc f) zero n p q = ground arith
bit_length_fuel_lem (suc f) (suc g) n p q = ground (arith, bit_length_fuel_lem f g (n / 2))

pub bit_length-half : (n : ℕ) → 0 < n → bit_length n ≡ suc (bit_length (n / 2))
unfolding bit_length
bit_length-half zero p = absurd (omega arith)
bit_length-half (suc n) p = ground (arith, bit_length_fuel_lem n (suc n / 2) (suc n / 2))

-- `n` lies between the two powers of two that its length names.
bounds_fuel :
    (f n : ℕ)
    → n ≤ f
    → 0 < n
    → (2 ^ (bit_length n - 1) ≤ n) × (n < 2 ^ bit_length n) × (0 < bit_length n)
bounds_fuel zero n p q = absurd (omega arith)
bounds_fuel (suc f) zero p q = absurd (omega arith)
bounds_fuel (suc f) (suc zero) p q = unfold bit_length in (omega arith, omega arith, omega arith)
bounds_fuel (suc f) (suc (suc n)) p q =
    let m = suc (suc n) in
    let len = bit_length (m / 2) in
    let e : bit_length m ≡ suc len = bit_length-half m q in
    let s : suc len - 1 ≡ len = omega arith in
    let (low, high, pos) = bounds_fuel f (m / 2) (omega arith) (omega arith) in
    rw (e, s, two_pow_suc len)
      (omega (arith, low, two_pow_pred len pos), omega (arith, high), omega arith)

pub bit_length_bounds :
    (n : ℕ) → 0 < n → (2 ^ (bit_length n - 1) ≤ n) × (n < 2 ^ bit_length n) × (0 < bit_length n)
bit_length_bounds n p = bounds_fuel n n (omega arith) p

bit_and_self_fuel : (f n : ℕ) → n ≤ f → bit_and n n ≡ n
bit_and_self_fuel zero zero p = refl
bit_and_self_fuel zero (suc n) p = absurd (omega arith)
bit_and_self_fuel (suc f) zero p = refl
bit_and_self_fuel (suc f) (suc n) p =
    omega (arith, bit_and_step (suc n) (suc n), bit_and_self_fuel f (suc n / 2) (omega arith))

-- Clearing the lowest one leaves nothing exactly at the powers of two.
power_fuel : (f n : ℕ) → n ≤ f → 0 < n → bit_and n (n - 1) ≡ 0 → n ≡ 2 ^ (bit_length n - 1)
power_fuel zero n p q e = absurd (omega arith)
power_fuel (suc f) (suc zero) p q e = unfold bit_length in refl
power_fuel (suc f) zero p q e = absurd (omega arith)
power_fuel (suc f) (suc (suc n)) p q e =
    let m = suc (suc n) in
    let half = m / 2 in
    let step = bit_and_step m (m - 1) in
    elim (Bool-cases (m % 2 == 0)) [
      | inl even ↦
          let pred : (m - 1) / 2 ≡ half - 1 = ground arith in
          let low : bit_and half (half - 1) ≡ 0 =
            omega (arith, step, e, ap (λ (t : ℕ). bit_and half t) pred) in
          let (_, _, pos) = bit_length_bounds half (omega arith) in
          let ih = power_fuel f half (omega arith) (omega arith) low in
          let s : suc (bit_length half) - 1 ≡ bit_length half = omega arith in
          rw (bit_length-half m q, s, two_pow_pred (bit_length half) pos) (ground (arith, ih))
      | inr odd ↦
          let pred : (m - 1) / 2 ≡ half = ground arith in
          let same = ap (λ (t : ℕ). bit_and half t) pred in
          absurd (omega (arith, step, e, same, bit_and_self_fuel half half (omega arith)))
    ]

pub power_of_two : (n : ℕ) → 0 < n → bit_and n (n - 1) ≡ 0 → n ≡ 2 ^ (bit_length n - 1)
power_of_two n p e = power_fuel n n (omega arith) p e

pub bit_and-two_pow : (k : ℕ) → bit_and (2 ^ k) (2 ^ k - 1) ≡ 0
bit_and-two_pow zero = refl
bit_and-two_pow (suc k) =
    let p = 2 ^ k in
    let half : 2 * p / 2 ≡ p = omega arith in
    let pred : (2 * p - 1) / 2 ≡ p - 1 = omega (arith, two_pow_pos k) in
    rw two_pow_suc (rw (bit_and_step, half, pred, bit_and-two_pow k) (omega (arith, two_pow_pos k)))

pub bit_length-two_pow : (k : ℕ) → bit_length (2 ^ k) ≡ suc k
bit_length-two_pow zero = unfold bit_length in refl
bit_length-two_pow (suc k) =
    let half : 2 * 2 ^ k / 2 ≡ 2 ^ k = omega arith in
    rw two_pow_suc (
      rw (bit_length-half (2 * 2 ^ k) (omega (arith, two_pow_pos k)), half)
        (ap suc (bit_length-two_pow k)))
