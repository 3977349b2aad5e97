-- ===== src/Merkle/Full.antt =====
-- The path of a leaf in a subtree with 2 ^ j leaves that has leaves of the tree to its right.
use blindrange.Prelude.{
  ℕ, zero, suc, ◌+◌, ◌-◌, ◌*◌, ◌/◌, ◌^◌, ◌≤◌, ◌<◌, ◌≡◌, refl, sym, ap, ◌∙◌, List, [], ◌∷◌, ltb,
  true, false, some, get_elem?, get_elem?-take, get_elem?-drop, Bool-cases, inl, inr, length, take,
  drop, arith, two_pow_pos, two_pow_suc,
}
use blindrange.Merkle.{Bytes, split, node_hash, root, path_fuel, Climb, climb_all}
use blindrange.Merkle.Split.{split-two_pow}
use blindrange.Merkle.Root.{halves, root-split, path, path-split}
use blindrange.Merkle.Steps.{up, up_gt, at, climb_all-append, step_left, step_right}

module _ (sha256 : Bytes → Bytes) where
  -- From the half of a tree that holds the leaf to the whole tree.
  module _ (xs : List Bytes) (m : ℕ) (start : Climb) (two : 2 ≤ length xs) where
    abbrev pub k : ℕ
    k = split (length xs)

    abbrev pub left_half : Bytes
    left_half = root sha256 (take k xs)

    abbrev pub right_half : Bytes
    right_half = root sha256 (drop k xs)

    pub from_left :
        (q c : ℕ)
        → ltb m k ≡ true
        → climb_all sha256 start (path sha256 (take k xs) m) ≡ at left_half (2 * q) c
        → 2 * q + 1 < c
        → climb_all sha256 start (path sha256 xs m) ≡ at (root sha256 xs) q ((c + 1) / 2)
    from_left q c here e p =
        rw (path-split sha256 xs m two, here)
          (climb_all-append sha256 start _ _
            ∙ ap (λ t. climb_all sha256 t (right_half ∷ [])) e
            ∙ step_left sha256 left_half right_half q c p
            ∙ ap (λ t. at t q ((c + 1) / 2)) (sym (root-split sha256 xs two)))

    pub from_right :
        (mid : Climb) (q c : ℕ)
        → ltb m k ≡ false
        → climb_all sha256 start (path sha256 (drop k xs) (m - k)) ≡ mid
        → climb_all sha256 mid (left_half ∷ []) ≡ at (node_hash sha256 left_half right_half) q c
        → climb_all sha256 start (path sha256 xs m) ≡ at (root sha256 xs) q c
    from_right mid q c there e last =
        rw (path-split sha256 xs m two, there)
          (climb_all-append sha256 start _ _
            ∙ ap (λ t. climb_all sha256 t (left_half ∷ [])) e
            ∙ last
            ∙ ap (λ t. at t q c) (sym (root-split sha256 xs two)))

  -- A subtree with 2 ^ j leaves, and leaves to its right.
  abbrev pub Full : ℕ → Type 0
  Full j =
      (xs : List Bytes) (m : ℕ) (leaf : Bytes) (q s : ℕ)
      → length xs ≡ 2 ^ j
      → get_elem? xs m ≡ some leaf
      → (q + 1) * 2 ^ j < s
      → climb_all sha256 (at leaf (q * 2 ^ j + m) s) (path sha256 xs m)
        ≡ at (root sha256 xs) q (up j s)

  pub single :
      (xs : List Bytes) (m : ℕ) (leaf : Bytes) (i s : ℕ)
      → length xs ≡ 1
      → get_elem? xs m ≡ some leaf
      → (m ≡ 0) × (climb_all sha256 (at leaf i s) (path sha256 xs m) ≡ at (root sha256 xs) i s)
  unfolding path_fuel root climb_all
  single (x ∷ []) zero leaf i s len el = (refl, ground arith)
  single (x ∷ []) (suc m) leaf i s len el = cc
  single [] m leaf i s len el = absurd (omega arith)
  single (x ∷ y ∷ xs) m leaf i s len el = absurd (omega arith)

  pub full : (j : ℕ) → Full j
  unfolding up
  full zero xs m leaf q s len el room =
      let (z, e) = single xs m leaf (q * 2 ^ 0 + m) s len el in
      let z' : q * 2 ^ 0 + m ≡ q = omega (arith, z) in e ∙ ap (λ t. at (root sha256 xs) t s) z'
  full (suc j) xs m leaf q s len el room = elim (Bool-cases (ltb m (2 ^ j))) [
    | inl left ↦
        let idx : q * 2 ^ suc j + m ≡ 2 * q * 2 ^ j + m = omega (arith, twice) in
        from_left xs m start two q (up j s) (rw sp left)
          (ap (λ t. climb_all sha256 (at leaf t s) (path sha256 (take k' xs) m)) idx
            ∙ full j (take k' xs) m leaf (2 * q) s len_left
                (get_elem?-take k' m xs (ground (arith, sp, left)) ∙ el)
                (omega (arith, room, twice, two_pow_pos j)))
          (up_gt j (2 * q + 1) s (omega (arith, room, twice, two_pow_pos j)))
    | inr right ↦
        let m' = m - k' in
        let back : k' + m' ≡ m = ground (arith, sp, right) in
        let idx : q * 2 ^ suc j + m ≡ (2 * q + 1) * 2 ^ j + m' = omega (arith, twice, sp, back) in
        from_right xs m start two (at (root sha256 (drop k' xs)) (2 * q + 1) (up j s)) q
          ((up j s + 1) / 2) (rw sp right)
          (ap (λ t. climb_all sha256 (at leaf t s) (path sha256 (drop k' xs) m')) idx
            ∙ full j (drop k' xs) m' leaf (2 * q + 1) s len_right
                (get_elem?-drop k' m' xs ∙ rw back el) (omega (arith, room, twice)))
          (step_right sha256 (root sha256 (drop k' xs)) (root sha256 (take k' xs)) q (up j s))
  ]
    where
      k' : ℕ
      k' = split (length xs)

      start : Climb
      start = at leaf (q * 2 ^ suc j + m) s

      two : 2 ≤ length xs
      two = omega (arith, len, two_pow_suc j, two_pow_pos j)

      sp : split (length xs) ≡ 2 ^ j
      sp = ap split len ∙ split-two_pow j

      twice : q * 2 ^ suc j ≡ q * (2 * 2 ^ j)
      twice = ap (λ (t : ℕ). q * t) (two_pow_suc j)

      len_left : length (take k' xs) ≡ 2 ^ j
      len_left = omega (arith, (halves xs two).0, sp)

      len_right : length (drop k' xs) ≡ 2 ^ j
      len_right = omega (arith, (halves xs two).1, sp, len, two_pow_suc j)
