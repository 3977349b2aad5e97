-- ===== src/Merkle/Steps.antt =====
-- The loop of `verify_inclusion`, one sibling at a time.
-- Its index and size say where the current node stands in its level of the whole tree: at an even
-- or an odd place, or last in its level.
use blindrange.Prelude.{
  ℕ, zero, suc, ◌+◌, ◌*◌, ◌/◌, ◌%◌, ◌^◌, ◌≤◌, ◌<◌, ◌≡◌, ◌==◌, ◌&&◌, refl, ap, ◌∙◌, List, [], ◌∷◌,
  ◌++◌, ltb, true, arith, two_pow_pos, two_pow_suc, lt-two_pow,
}
use blindrange.Merkle.{Bytes, bytes_eq, node_hash, Climb, climb, climb_step, climb_all}

-- The size of a level, `j` levels above one of size `s`.
unfoldable pub up : ℕ → ℕ → ℕ
up zero s = s
up (suc j) s = (up j s + 1) / 2

pub up_gt : (j x s : ℕ) → x * 2 ^ j < s → x < up j s
unfolding up
up_gt zero x s h = omega arith
up_gt (suc j) x s h =
    let e : x * 2 ^ suc j ≡ x * (2 * 2 ^ j) = ap (λ (t : ℕ). x * t) (two_pow_suc j) in
    omega (arith, up_gt j (2 * x) s (omega (arith, e)))

pub up_le : (j x s : ℕ) → s ≤ x * 2 ^ j → up j s ≤ x
unfolding up
up_le zero x s h = omega arith
up_le (suc j) x s h =
    let e : x * 2 ^ suc j ≡ x * (2 * 2 ^ j) = ap (λ (t : ℕ). x * t) (two_pow_suc j) in
    omega (arith, up_le j (2 * x) s (omega (arith, e)))

climb_stop : (f p s : ℕ) → climb f (2 * p + 1) s ≡ (2 * p + 1, s)
unfolding climb
climb_stop zero p s = refl
climb_stop (suc f) p s = ground arith

-- From an even place at the right end the loop climbs to the odd part of its index.
pub climb_odd :
    (e f p i : ℕ) → e ≤ f → i ≡ (2 * p + 1) * 2 ^ e → climb f i (i + 1) ≡ (2 * p + 1, 2 * p + 2)
unfolding climb
climb_odd zero f p i h d =
    let d' : i ≡ 2 * p + 1 = omega (arith, d) in
    rw d' (climb_stop f p (2 * p + 1 + 1) ∙ ground arith)
climb_odd (suc e) zero p i h d = absurd (omega arith)
climb_odd (suc e) (suc f) p i h d =
    let b = (2 * p + 1) * 2 ^ e in
    let t : i ≡ 2 * b = omega (arith, d, ap (λ (t : ℕ). (2 * p + 1) * t) (two_pow_suc e)) in
    let m : 2 ^ e ≤ b = omega arith in
    let half : i / 2 ≡ b = omega (arith, t) in
    let half' : (i + 1 + 1) / 2 ≡ b + 1 = omega (arith, t) in
    let more : (i % 2 == 0 && ltb 1 (i + 1)) ≡ true = ground (arith, t, m, two_pow_pos e) in
    rw more (rw (half, half') (climb_odd e f p b (omega arith) refl))

abbrev pub at : Bytes → ℕ → ℕ → Climb
at h i n = record { hash = h; index = i; size = n }

pub bytes_eq_refl : (x : Bytes) → bytes_eq x x ≡ true
unfolding bytes_eq
bytes_eq_refl [] = refl
bytes_eq_refl (x ∷ xs) = ground (arith, bytes_eq_refl xs)

module _ (sha256 : Bytes → Bytes) where
  pub climb_all-append :
      (s : Climb) (xs ys : List Bytes)
      → climb_all sha256 s (xs ++ ys) ≡ climb_all sha256 (climb_all sha256 s xs) ys
  unfolding climb_all
  climb_all-append s [] ys = refl
  climb_all-append s (x ∷ xs) ys = climb_all-append (climb_step sha256 s x) xs ys

  pub step_left :
      (h x : Bytes) (q s : ℕ)
      → 2 * q + 1 < s
      → climb_all sha256 (at h (2 * q) s) (x ∷ []) ≡ at (node_hash sha256 h x) q ((s + 1) / 2)
  unfolding climb_all climb_step
  step_left h x q s p = ground arith

  pub step_right :
      (h x : Bytes) (q s : ℕ)
      → climb_all sha256 (at h (2 * q + 1) s) (x ∷ []) ≡ at (node_hash sha256 x h) q ((s + 1) / 2)
  unfolding climb_all climb_step
  step_right h x q s = rw climb_stop (ground arith)

  -- The last node of its level, at any depth below the right child that it stands for.
  pub step_last :
      (h x : Bytes) (e q i : ℕ)
      → i ≡ (2 * q + 1) * 2 ^ e
      → climb_all sha256 (at h i (i + 1)) (x ∷ []) ≡ at (node_hash sha256 x h) q (q + 1)
  unfolding climb_all climb_step
  step_last h x e q i d =
      let m : 2 ^ e ≤ i = omega (arith, d) in
      rw (climb_odd e (i + 1) q i (omega (arith, m, lt-two_pow e)) d) (ground arith)
