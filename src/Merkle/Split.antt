-- ===== src/Merkle/Split.antt =====
-- `_split`: the largest power of two strictly less than a number.
use blindrange.Prelude.{
  ℕ, zero, suc, ◌+◌, ◌*◌, ◌∙◌, ap, two_pow_lt, two_pow_le, ◌^◌, ◌≤◌, ◌<◌, ◌≡◌, Bool-cases, inl, inr,
  ltb, arith, two_pow_suc, two_pow_pos,
}
use blindrange.Merkle.{split_loop, split}

-- From a power of two below `n`, with rounds enough to double it past `n`.
loop_lem :
    (f j n : ℕ)
    → 2 ^ j < n
    → n ≤ 2 ^ j + f
    → (i : ℕ) × (split_loop f (2 ^ j) n ≡ 2 ^ i) × (2 ^ i < n) × (n ≤ 2 * 2 ^ i)
unfolding split_loop
loop_lem zero j n low high = absurd (omega arith)
loop_lem (suc f) j n low high = elim (Bool-cases (ltb (2 ^ j * 2) n)) [
  | inl more ↦
      let e : 2 ^ suc j ≡ 2 ^ j * 2 = omega (arith, two_pow_suc j) in
      let (i, p, q, r) =
        loop_lem f (suc j) n (ground (arith, e)) (ground (arith, e, two_pow_pos j)) in
      (i, rw (more, ← e) p, q, r)
  | inr done ↦ (j, rw done, low, ground arith)
]

-- For n of at least two, `_split n` is a power of two k with k < n ≤ 2 * k.
pub split_lem : (n : ℕ) → 2 ≤ n → (i : ℕ) × (split n ≡ 2 ^ i) × (2 ^ i < n) × (n ≤ 2 * 2 ^ i)
unfolding split
split_lem n h = loop_lem n 0 n (omega arith) (omega arith)

-- The first half of 2 ^ (j + 1) leaves is 2 ^ j of them.
pub split-two_pow : (j : ℕ) → split (2 ^ suc j) ≡ 2 ^ j
split-two_pow j =
    let (i, e, low, high) = split_lem (2 ^ suc j) (omega (arith, two_pow_suc j, two_pow_pos j)) in
    let a = two_pow_lt i (suc j) low in
    let b = two_pow_le (suc j) (suc i) (omega (arith, high, two_pow_suc i)) in
    let same : i ≡ j = omega (arith, a, b) in e ∙ ap (λ (t : ℕ). 2 ^ t) same
