-- ===== src/Prelude/Powers.antt =====
-- Powers of two.
use Prim.Native.Nat.{ℕ, zero, suc, ◌+◌, ◌-◌, ◌*◌, ◌^◌, ◌<◌, ◌≤◌}
use mathlib.Core.Path.{◌≡◌, ap}
use native.Mathlib.Nat.{pow-suc, zero-add, suc-add, pow-le-pow_right}
use native.Mathlib.Decide.{dec_lt}
use native.Mathlib.Omega.{arith}

pub two_pow_suc : (k : ℕ) → 2 ^ suc k ≡ 2 * 2 ^ k
two_pow_suc k = omega (arith, pow-suc 2 k)

pub two_pow_pos : (k : ℕ) → 0 < 2 ^ k
two_pow_pos zero = omega arith
two_pow_pos (suc k) = omega (arith, two_pow_suc k, two_pow_pos k)

pub two_pow_add : (j k : ℕ) → 2 ^ (j + k) ≡ 2 ^ j * 2 ^ k
two_pow_add zero k = rw zero-add (omega arith)
two_pow_add (suc j) k =
    rw (suc-add, two_pow_suc (j + k), two_pow_suc j)
      (omega (arith, ap (λ (t : ℕ). 2 * t) (two_pow_add j k)))

pub two_pow_pred : (k : ℕ) → 0 < k → 2 ^ k ≡ 2 * 2 ^ (k - 1)
two_pow_pred zero p = absurd (omega arith)
two_pow_pred (suc k) p = let e : suc k - 1 ≡ k = omega arith in rw (e, two_pow_suc k)

-- A power below another has the lower exponent.
pub two_pow_lt : (i j : ℕ) → 2 ^ i < 2 ^ j → i < j
two_pow_lt i j h = elim (dec_lt i j) [
  | yes p ↦ p
  | no p ↦
      absurd (omega (arith, pow-le-pow_right {n = 2} (omega arith) {i = j} {j = i} (omega arith)))
]

pub lt-two_pow : (k : ℕ) → k < 2 ^ k
lt-two_pow zero = omega arith
lt-two_pow (suc k) = omega (arith, two_pow_suc k, lt-two_pow k)

pub two_pow_le : (i j : ℕ) → 2 ^ i ≤ 2 ^ j → i ≤ j
two_pow_le i j h =
    omega (arith, two_pow_lt i (suc j) (omega (arith, h, two_pow_suc j, two_pow_pos j)))

pub two_pow_mono : (i j : ℕ) → i ≤ j → 2 ^ i ≤ 2 ^ j
two_pow_mono i j h = pow-le-pow_right {n = 2} (omega arith) {i = i} {j = j} h
