-- ===== src/Merkle/Consistency/Levels.antt =====
-- The loop of `verify_consistency`, one node of the path at a time.
-- `fn` and `sn` say where the last nodes of the old and of the new tree stand in their level: at an
-- even or an odd place, and the same or different.
use blindrange.Prelude.{
  ℕ, zero, suc, ◌+◌, ◌-◌, ◌*◌, ◌/◌, ◌%◌, ◌^◌, ◌≤◌, ◌<◌, ◌≡◌, ◌==◌, ◌&&◌, not, refl, ap, ◌∙◌, List,
  [], ◌∷◌, ◌++◌, true, some, Bool-cases, inl, inr, arith, two_pow_pos, two_pow_suc, lt-two_pow,
}
use blindrange.Merkle.{Bytes, node_hash}
use blindrange.Merkle.Consistency.{Heads, strip, lift, rebuild_step, rebuild, rebuild_from}

-- A place, `j` levels above the place `s`.
unfoldable pub down : ℕ → ℕ → ℕ
down zero s = s
down (suc j) s = down j s / 2

pub down_ge : (j x s : ℕ) → x * 2 ^ j ≤ s → x ≤ down j s
unfolding down
down_ge zero x s h = omega arith
down_ge (suc j) x s h =
    let e : x * 2 ^ suc j ≡ x * (2 * 2 ^ j) = ap (λ (t : ℕ). x * t) (two_pow_suc j) in
    omega (arith, down_ge j (2 * x) s (omega (arith, e, h)))

pub down_lt : (j x s : ℕ) → s < x * 2 ^ j → down j s < x
unfolding down
down_lt zero x s h = omega arith
down_lt (suc j) x s h =
    let e : x * 2 ^ suc j ≡ x * (2 * 2 ^ j) = ap (λ (t : ℕ). x * t) (two_pow_suc j) in
    omega (arith, down_lt j (2 * x) s (omega (arith, e, h)))

down-half : (j s : ℕ) → down j (s / 2) ≡ down j s / 2
unfolding down
down-half zero s = refl
down-half (suc j) s = ap (λ (t : ℕ). t / 2) (down-half j s)

strip-even : (f p s : ℕ) → strip f (2 * p) s ≡ (2 * p, s)
unfolding strip
strip-even zero p s = refl
strip-even (suc f) p s = ground arith

-- From the last leaf of a full subtree that is a left child, the loop comes to that subtree.
pub strip_full :
    (j f p fn s : ℕ) → j ≤ f → suc fn ≡ (2 * p + 1) * 2 ^ j → strip f fn s ≡ (2 * p, down j s)
unfolding strip down
strip_full zero f p fn s h d = let d' : fn ≡ 2 * p = omega (arith, d) in rw d' (strip-even f p s)
strip_full (suc j) zero p fn s h d = absurd (omega arith)
strip_full (suc j) (suc f) p fn s h d =
    let b = (2 * p + 1) * 2 ^ j in
    let t : suc fn ≡ 2 * b = omega (arith, d, ap (λ (t : ℕ). (2 * p + 1) * t) (two_pow_suc j)) in
    let odd : (fn % 2 == 1) ≡ true = ground (arith, t) in
    rw odd (
      strip_full j f p (fn / 2) (s / 2) (omega arith) (omega (arith, t))
      ∙ ap (λ (t : ℕ). (2 * p, t)) (down-half j s))

-- The loop stops by its own test: after it `fn` is even.
pub strip-done : (f fn sn : ℕ) → fn ≤ f → (strip f fn sn).0 % 2 ≡ 0
unfolding strip
strip-done zero fn sn h = omega arith
strip-done (suc f) fn sn h = elim (Bool-cases (fn % 2 == 1)) [
  | inl odd ↦ rw odd (strip-done f (fn / 2) (sn / 2) (omega arith))
  | inr even ↦ rw even (ground (arith, even))
]

lift_stop : (f q s : ℕ) → lift f (2 * q + 1) s ≡ (2 * q + 1, s)
unfolding lift
lift_stop zero q s = refl
lift_stop (suc f) q s = ground arith

lift_odd : (e f p i : ℕ) → e ≤ f → i ≡ (2 * p + 1) * 2 ^ e → lift f i i ≡ (2 * p + 1, 2 * p + 1)
unfolding lift
lift_odd zero f p i h d =
    let d' : i ≡ 2 * p + 1 = omega (arith, d) in rw d' (lift_stop f p (2 * p + 1))
lift_odd (suc e) zero p i h d = absurd (omega arith)
lift_odd (suc e) (suc f) p i h d =
    let b = (2 * p + 1) * 2 ^ e in
    let t : i ≡ 2 * b = omega (arith, d, ap (λ (t : ℕ). (2 * p + 1) * t) (two_pow_suc e)) in
    let m : 2 ^ e ≤ b = omega arith in
    let half : i / 2 ≡ b = omega (arith, t) in
    let more : (not (i == 0) && i % 2 == 0) ≡ true = ground (arith, t, m, two_pow_pos e) in
    rw more (rw half (lift_odd e f p b (omega arith) refl))

abbrev pub both_at : Bytes → Bytes → ℕ → ℕ → Heads
both_at a b i n = record { fr = a; sr = b; fn = i; sn = n }

module _ (sha256 : Bytes → Bytes) where
  pub rebuild-append :
      (s : Heads) (xs ys : List Bytes) {t : Heads}
      → rebuild sha256 s xs ≡ some t
      → rebuild sha256 s (xs ++ ys) ≡ rebuild sha256 t ys
  unfolding rebuild
  rebuild-append s [] ys e = ap (λ u. rebuild sha256 u ys) (cc)
  rebuild-append s (x ∷ xs) ys e = elim (Bool-cases (s.sn == 0)) [
    | inl z ↦ let e' = rw z at e in cc
    | inr nz ↦ rw nz (rebuild-append (rebuild_step sha256 s x) xs ys (rw nz at e))
  ]

  pub rebuild_from-append :
      (m n : ℕ) (xs ys : List Bytes) {t : Heads}
      → rebuild_from sha256 m n xs ≡ some t
      → rebuild_from sha256 m n (xs ++ ys) ≡ rebuild sha256 t ys
  unfolding rebuild_from
  rebuild_from-append m n [] ys e = cc
  rebuild_from-append m n (x ∷ xs) ys e =
      let (fn, sn) = strip m (m - 1) (n - 1) in rebuild-append (both_at x x fn sn) xs ys e

  pub step_left :
      (a b x : Bytes) (q s : ℕ)
      → 2 * q < s
      → rebuild sha256 (both_at a b (2 * q) s) (x ∷ [])
        ≡ some (both_at a (node_hash sha256 b x) q (s / 2))
  unfolding rebuild rebuild_step
  step_left a b x q s p = ground arith

  pub step_right :
      (a b x : Bytes) (q s : ℕ)
      → 0 < s
      → rebuild sha256 (both_at a b (2 * q + 1) s) (x ∷ [])
        ≡ some (both_at (node_hash sha256 x a) (node_hash sha256 x b) q (s / 2))
  unfolding rebuild rebuild_step
  step_right a b x q s p = rw lift_stop (ground arith)

  -- The last nodes of both trees are one place, at any depth below the right child it stands for.
  pub step_last :
      (a b x : Bytes) (e q i : ℕ)
      → i ≡ (2 * q + 1) * 2 ^ e
      → rebuild sha256 (both_at a b i i) (x ∷ [])
        ≡ some (both_at (node_hash sha256 x a) (node_hash sha256 x b) q q)
  unfolding rebuild rebuild_step
  step_last a b x e q i d =
      let m : 2 ^ e ≤ i = omega (arith, d) in
      rw (lift_odd e i q i (omega (arith, m, lt-two_pow e)) d) (ground (arith, m, two_pow_pos e))
