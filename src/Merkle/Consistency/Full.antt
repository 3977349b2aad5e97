-- ===== src/Merkle/Consistency/Full.antt =====
-- The heads of a subtree with 2 ^ j leaves that has leaves of the new tree to its right, and in
-- which the old tree ends.
use blindrange.Prelude.{
  ℕ, zero, suc, ◌+◌, ◌-◌, ◌*◌, ◌/◌, ◌%◌, ◌^◌, ◌≤◌, ◌<◌, ◌≡◌, ◌==◌, refl, sym, ap, ap₂, ◌∙◌, List,
  [], ◌∷◌, leb, true, false, some, Bool-cases, inl, inr, length, take, drop, take-take, drop-take,
  take_all, length-take, arith, two_pow_pos, two_pow_suc, two_pow_lt, lt-two_pow,
}
use blindrange.Merkle.{Bytes, split, node_hash, root}
use blindrange.Merkle.Split.{split_lem, split-two_pow}
use blindrange.Merkle.Root.{halves, root-split}
use blindrange.Merkle.Consistency.{Heads, rebuild, rebuild_from, subproof}
use blindrange.Merkle.Consistency.Subproof.{subproof-whole, subproof-left, subproof-right}
use blindrange.Merkle.Consistency.Levels.{
  down, down_ge, strip_full, both_at, rebuild_from-append, step_left, step_right,
}

-- The largest power of two below a number is that below any smaller number above it.
split_below : (m n : ℕ) → 2 ≤ n → split n < m → m ≤ n → split m ≡ split n
split_below m n two low high =
    let (i, e, p, q) = split_lem n two in
    let (j, e', p', q') = split_lem m (omega (arith, low, e, two_pow_pos i)) in
    let a : i < suc j = two_pow_lt i (suc j) (omega (arith, low, e, q', two_pow_suc j)) in
    let b : j < suc i = two_pow_lt j (suc i) (omega (arith, high, p', q, two_pow_suc i)) in
    let same : j ≡ i = omega (arith, a, b) in e' ∙ ap (λ (t : ℕ). 2 ^ t) same ∙ sym e

module _ (sha256 : Bytes → Bytes) where
  abbrev pub old_path : List Bytes → ℕ → List Bytes
  old_path xs m = subproof sha256 xs m false

  module _ (xs : List Bytes) (m : ℕ) (one : 1 ≤ m) (less : m < length xs) where
    abbrev k : ℕ
    k = split (length xs)

    two : 2 ≤ length xs
    two = omega (arith, one, less)

    -- The head of the first `m` leaves, when these go past the first half.
    root-past :
        leb m k ≡ false
        → root sha256 (take m xs)
          ≡ node_hash sha256 (root sha256 (take k xs)) (root sha256 (take (m - k) (drop k xs)))
    root-past there =
        let (l, r, pos, short) = halves xs two in
        let past : k < m = ground (arith, there) in
        let len : length (take m xs) ≡ m = omega (arith, length-take m xs, less) in
        let same : split (length (take m xs)) ≡ k =
          ap split len ∙ split_below m (length xs) two past (omega (arith, less)) in
        root-split sha256 (take m xs) (omega (arith, len, pos, past))
        ∙ ap₂ (λ a b. node_hash sha256 (root sha256 a) (root sha256 b))
            (ap (λ (t : ℕ). take t (take m xs)) same ∙ take-take k m xs (omega (arith, past)))
            (ap (λ (t : ℕ). drop t (take m xs)) same ∙ drop-take k m xs)

    -- From the half of a tree in which the old tree ends to the whole tree.
    pub heads_left :
        (old new q s : ℕ)
        → leb m k ≡ true
        → rebuild_from sha256 old new (old_path (take k xs) m)
          ≡ some (both_at (root sha256 (take m (take k xs))) (root sha256 (take k xs)) (2 * q) s)
        → 2 * q < s
        → rebuild_from sha256 old new (old_path xs m)
          ≡ some (both_at (root sha256 (take m xs)) (root sha256 xs) q (s / 2))
    heads_left old new q s here e p = rw (subproof-left sha256 xs m false one less here) (
        rebuild_from-append sha256 old new _ _ e
        ∙ step_left sha256 _ _ (root sha256 (drop k xs)) q s p
        ∙ ap₂ (λ a b. some (both_at a b q (s / 2)))
            (ap (root sha256) (take-take m k xs (ground (arith, here))))
            (sym (root-split sha256 xs two)))

    pub heads_right :
        (old new q : ℕ) (mid : Heads) (q' s' : ℕ)
        → leb m k ≡ false
        → rebuild_from sha256 old new (old_path (drop k xs) (m - k)) ≡ some mid
        → rebuild sha256 mid (root sha256 (take k xs) ∷ [])
          ≡ some (
              both_at
                (node_hash sha256
                  (root sha256 (take k xs))
                  (root sha256 (take (m - k) (drop k xs))))
                (node_hash sha256 (root sha256 (take k xs)) (root sha256 (drop k xs)))
                q'
                s')
        → rebuild_from sha256 old new (old_path xs m)
          ≡ some (both_at (root sha256 (take m xs)) (root sha256 xs) q' s')
    heads_right old new q mid q' s' there e last =
        rw (subproof-right sha256 xs m false one less there) (
          rebuild_from-append sha256 old new _ _ e
          ∙ last
          ∙ ap₂ (λ a b. some (both_at a b q' s')) (sym (root-past there))
              (sym (root-split sha256 xs two)))

  -- The old tree takes the whole subtree only where the subtree is a left child.
  abbrev pub Full : ℕ → Type 0
  Full j =
      (xs : List Bytes) (m q old new : ℕ)
      → length xs ≡ 2 ^ j
      → 1 ≤ m
      → m ≤ 2 ^ j
      → (m ≡ 2 ^ j → q % 2 ≡ 0)
      → old ≡ q * 2 ^ j + m
      → (q + 1) * 2 ^ j < new
      → rebuild_from sha256 old new (old_path xs m)
        ≡ some (both_at (root sha256 (take m xs)) (root sha256 xs) q (down j (new - 1)))

  all_old :
      (j : ℕ) (xs : List Bytes) (m q old new : ℕ)
      → length xs ≡ 2 ^ j
      → m ≡ 2 ^ j
      → q % 2 ≡ 0
      → old ≡ q * 2 ^ j + m
      → rebuild_from sha256 old new (old_path xs m)
        ≡ some (both_at (root sha256 (take m xs)) (root sha256 xs) q (down j (new - 1)))
  unfolding rebuild_from rebuild
  all_old j xs m q old new len e even at =
      let p = q / 2 in
      let q' : 2 * p ≡ q = omega (arith, even) in
      let last : suc (old - 1) ≡ (2 * p + 1) * 2 ^ j =
        omega (arith, at, e, two_pow_pos j, ap (λ (t : ℕ). t * 2 ^ j) q') in
      let fuel : j ≤ old = omega (arith, at, e, lt-two_pow j) in
      rw
        (
          subproof-whole sha256 xs m false (omega (arith, e, len)),
          strip_full j old p (old - 1) (new - 1) fuel last,
          q',
          take_all m xs (omega (arith, e, len)),
        )
        refl

  pub full : (j : ℕ) → Full j
  unfolding down
  full zero xs m q old new len one le even at room =
      let e : m ≡ 2 ^ 0 = omega (arith, one, le) in all_old 0 xs m q old new len e (even e) at
  full (suc j) xs m q old new len one le even at room = elim (Bool-cases (m == 2 ^ suc j)) [
    | inl same ↦
        let e : m ≡ 2 ^ suc j = ground (arith, same) in
        all_old (suc j) xs m q old new len e (even e) at
    | inr other ↦
        let p = two_pow_suc j in
        let pos = two_pow_pos j in
        let twice : q * 2 ^ suc j ≡ q * (2 * 2 ^ j) = ap (λ (t : ℕ). q * t) p in
        let sp : split (length xs) ≡ 2 ^ j = ap split len ∙ split-two_pow j in
        let less : m < length xs = ground (arith, other, le, len) in
        let (l, r, _, short) = halves xs (omega (arith, one, less)) in
        let k = split (length xs) in
        elim (Bool-cases (leb m k)) [
          | inl here ↦
              heads_left xs m one less old new q (down j (new - 1)) here
                (full j (take k xs) m (2 * q) old new (omega (arith, l, sp)) one
                  (ground (arith, here, sp)) (λ _. omega arith) (omega (arith, at, twice))
                  (omega (arith, room, twice, p, pos)))
                (omega
                  (arith, down_ge j (2 * q + 1) (new - 1) (omega (arith, room, twice, p, pos))))
          | inr there ↦
              let past : k < m = ground (arith, there) in
              let above = down_ge j (2 * q + 1) (new - 1) (omega (arith, room, twice, p, pos)) in
              heads_right xs m one less old new q
                (both_at (root sha256 (take (m - k) (drop k xs))) (root sha256 (drop k xs))
                  (2 * q + 1) (down j (new - 1)))
                q (down j (new - 1) / 2) there
                (full j (drop k xs) (m - k) (2 * q + 1) old new (omega (arith, r, sp, len, p))
                  (omega (arith, past)) (omega (arith, le, sp, p))
                  (λ e. absurd (omega (arith, e, sp, less, len, p)))
                  (omega (arith, at, twice, sp, past)) (omega (arith, room, twice, p)))
                (step_right sha256 _ _ (root sha256 (take k xs)) q (down j (new - 1))
                  (omega (arith, above)))
        ]
  ]
