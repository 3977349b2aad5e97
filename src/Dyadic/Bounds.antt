-- ===== src/Dyadic/Bounds.antt =====
-- `max_level`: which leaf widths it accepts, and what the level that it returns means.
use blindrange.Prelude.{
  ℕ, ◌-◌, ◌^◌, ◌≤◌, ◌<◌, ◌≡◌, ap, sym, ◌∙◌, ◌↔◌, ok, arith, bit_length, power_of_two, bit_and,
  bit_and-two_pow, bit_length-two_pow, two_pow_pos,
}
use blindrange.Dyadic.{max_level}

accepted :
    (bits leaf m : ℕ)
    → max_level bits leaf ≡ ok m
    → (0 < leaf) × (bit_and leaf (leaf - 1) ≡ 0) × (m ≡ bits - (bit_length leaf - 1)) × (1 ≤ m)
unfolding max_level
accepted bits leaf m h = ground arith

accepts :
    (bits leaf : ℕ)
    → 0 < leaf
    → bit_and leaf (leaf - 1) ≡ 0
    → 1 ≤ bits - (bit_length leaf - 1)
    → max_level bits leaf ≡ ok (bits - (bit_length leaf - 1))
unfolding max_level
accepts bits leaf p e h = ground arith

leaf_of_level :
    (bits leaf m : ℕ) → max_level bits leaf ≡ ok m → (leaf ≡ 2 ^ (bits - m)) × (1 ≤ m) × (m ≤ bits)
leaf_of_level bits leaf m h =
    let (pos, one, e, low) = accepted bits leaf m h in
    let len : bits - m ≡ bit_length leaf - 1 = omega (arith, e, low) in
    (power_of_two leaf pos one ∙ ap (λ (t : ℕ). 2 ^ t) (sym len), low, omega (arith, e))

level_of_leaf :
    (bits leaf m : ℕ) → (leaf ≡ 2 ^ (bits - m)) × (1 ≤ m) × (m ≤ bits) → max_level bits leaf ≡ ok m
level_of_leaf bits leaf m (e, low, high) =
    let k = bits - m in
    let len : bits - (bit_length (2 ^ k) - 1) ≡ m = omega (arith, bit_length-two_pow k) in
    rw e (accepts bits (2 ^ k) (two_pow_pos k) (bit_and-two_pow k) (omega (arith, len)) ∙ ap ok len)

-- `max_level` accepts exactly the leaf widths 2 ^ (bits - m) with 1 ≤ m ≤ bits, and returns that m.
pub max_level-ok_iff :
    (bits leaf m : ℕ)
    → (max_level bits leaf ≡ ok m) ↔ ((leaf ≡ 2 ^ (bits - m)) × (1 ≤ m) × (m ≤ bits))
max_level-ok_iff bits leaf m = (leaf_of_level bits leaf m, level_of_leaf bits leaf m)
