-- ===== src/Schema/Limits.antt =====
-- The specifications of blindrange/schema.py against `max_level`: every one can be indexed.
use blindrange.Prelude.{
  ℕ, zero, suc, ◌+◌, ◌-◌, ◌*◌, ◌^◌, ◌≤◌, ◌<◌, ◌≡◌, refl, ap, ◌∙◌, leb, max, Option, String,
  bit_length, two_pow_suc, two_pow_pos, two_pow_lt, arith, ok, Bool-cases, inl, inr, ◌⊎◌, ◌↔◌, ◌↔◌,
}
use native.Mathlib.Nat.{pow-le-pow_right}
use blindrange.Dyadic.{max_level}
use blindrange.Dyadic.Bounds.{max_level-ok_iff}
use blindrange.Schema.{
  FieldSpec, ceil_log2_from, ceil_log2, bits_for, pow2_floor, leaf_for, number_field, money_field,
  date_field, text_field,
}

-- The first power of two from 2 ^ k on that is not below `n`.
ceil_log2_from_lem :
    (f k n : ℕ)
    → n ≤ 2 ^ k + f
    → (n ≤ 2 ^ ceil_log2_from f k n)
      × (k ≤ ceil_log2_from f k n)
      × ((ceil_log2_from f k n ≡ k) ⊎ (2 ^ (ceil_log2_from f k n - 1) < n))
unfolding ceil_log2_from
ceil_log2_from_lem zero k n h = (omega (arith, h), omega arith, inl refl)
ceil_log2_from_lem (suc f) k n h = elim (Bool-cases (leb n (2 ^ k))) [
  | inl e ↦ rw e (ground arith, omega arith, inl refl)
  | inr e ↦
      let one : k + 1 ≡ suc k = omega arith in
      let two : 2 ^ (k + 1) ≡ 2 * 2 ^ k = ap (λ (t : ℕ). 2 ^ t) one ∙ two_pow_suc k in
      let (p, q, r) = ceil_log2_from_lem f (k + 1) n (omega (arith, h, two, two_pow_pos k)) in
      rw e (
        p,
        omega arith,
        inr (elim r [
          | inl same ↦
              let e' : ceil_log2_from f (k + 1) n - 1 ≡ k = omega (arith, same) in
              rw e' (ground (arith, e))
          | inr low ↦ low
        ]),
      )
]

zero_max : (t : ℕ) → max 0 t ≡ t
zero_max t = omega arith

pow2_floor_lem : (bucket : ℕ) → (j : ℕ) × (pow2_floor bucket ≡ 2 ^ j)
unfolding pow2_floor
pow2_floor_lem bucket = elim (Bool-cases (leb 1 bucket)) [
  | inl e ↦ (bit_length bucket - 1, rw (e, zero_max (bit_length bucket - 1)) refl)
  | inr e ↦ (0, rw e refl)
]

-- `leaf_for` returns a power of two below 2 ^ bits.
leaf_for_lem : (bits bucket : ℕ) → 1 ≤ bits → (j : ℕ) × (leaf_for bits bucket ≡ 2 ^ j) × (j < bits)
unfolding leaf_for
leaf_for_lem bits bucket h =
    let (j, e) = pow2_floor_lem bucket in
    elim (Bool-cases (leb j (bits - 1))) [
      | inl low ↦
          let p : 2 ^ j ≤ 2 ^ (bits - 1) = pow-le-pow_right {n = 2} (omega arith) (ground arith) in
          (j, rw (e, zero_max (bits - 1)) (omega (arith, p, two_pow_pos j)), ground arith)
      | inr high ↦
          let p : 2 ^ (bits - 1) ≤ 2 ^ j = pow-le-pow_right {n = 2} (omega arith) (ground arith) in
          (
            bits - 1,
            rw (e, zero_max (bits - 1)) (omega (arith, p, two_pow_pos (bits - 1))),
            omega arith,
          )
    ]

leaf_for-accepted :
    (bits bucket : ℕ) → 1 ≤ bits → (m : ℕ) × (max_level bits (leaf_for bits bucket) ≡ ok m)
leaf_for-accepted bits bucket h =
    let (j, e, low) = leaf_for_lem bits bucket h in
    let back : bits - (bits - j) ≡ j = omega arith in
    (
      bits - j,
      (max_level-ok_iff bits (leaf_for bits bucket) (bits - j)).1
          (rw back e, omega arith, omega arith),
    )

bits_for_pos : (n : ℕ) → 1 ≤ bits_for n
unfolding bits_for
bits_for_pos n = omega arith

abbrev pub Indexable : FieldSpec → Type 0
Indexable spec = (m : ℕ) × (max_level spec.bits spec.leaf_width ≡ ok m)

-- `max_level` accepts the leaf width of every specification that a maker returns, for a text field
-- of one character at least.
pub makers-accepted :
    (label : Option String) (epoch : String) (top bucket chars : ℕ)
    → 1 ≤ chars
    → Indexable (number_field top bucket label)
      × Indexable (money_field top bucket label)
      × Indexable (date_field top bucket epoch label)
      × Indexable (text_field chars bucket label)
unfolding number_field money_field date_field text_field
makers-accepted label epoch top bucket chars h = (
  leaf_for-accepted (bits_for top) bucket (bits_for_pos top),
  leaf_for-accepted (bits_for top) (max 1 bucket) (bits_for_pos top),
  leaf_for-accepted (bits_for (top * 366)) bucket (bits_for_pos (top * 366)),
  leaf_for-accepted (chars * 5) bucket (omega (arith, h)),
)

ceil_log2_lem : (n : ℕ) → (n ≤ 2 ^ ceil_log2 n) × ((k : ℕ) → n ≤ 2 ^ k → ceil_log2 n ≤ k)
unfolding ceil_log2
ceil_log2_lem n =
    let (above, low, least) = ceil_log2_from_lem n 0 n (omega arith) in
    (
      above,
      λ k h. elim least [
        | inl e ↦ omega (arith, e)
        | inr e ↦ omega (arith, two_pow_lt (ceil_log2_from n 0 n - 1) k (omega (arith, e, h)))
      ],
    )

two_le_pow : (k : ℕ) → 1 ≤ k → 2 ≤ 2 ^ k
two_le_pow zero h = absurd (omega arith)
two_le_pow (suc k) h = omega (arith, two_pow_suc k, two_pow_pos k)

fits_bits :
    (max_value bits : ℕ) → max_value < 2 ^ 36 → bits_for max_value ≤ bits → max_value < 2 ^ bits
unfolding bits_for
fits_bits max_value bits h le =
    let c = ceil_log2 (max 1 max_value + 1) in
    let (above, least) = ceil_log2_lem (max 1 max_value + 1) in
    let low : c ≤ 36 = least 36 (omega (arith, h)) in
    let wide : 2 ^ c ≤ 2 ^ bits = pow-le-pow_right {n = 2} (omega arith) (omega (arith, low, le)) in
    omega (arith, above, wide)

-- For a value below 2 ^ 36, `bits_for` is the smallest number of bits, one at least, that holds
-- the value: a domain of one bit or more holds it exactly if it has as many bits as `bits_for`.
pub bits_for_iff :
    (max_value bits : ℕ)
    → max_value < 2 ^ 36
    → 1 ≤ bits
    → (bits_for max_value ≤ bits) ↔ (max_value < 2 ^ bits)
bits_for_iff max_value bits h one = (
  fits_bits max_value bits h,
  λ fits.
      let least =
        (ceil_log2_lem (max 1 max_value + 1)).1 bits (omega (arith, fits, two_le_pow bits one)) in
      unfold bits_for in omega (arith, least, one),
)
