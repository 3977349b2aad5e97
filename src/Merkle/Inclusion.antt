-- ===== src/Merkle/Inclusion.antt =====
-- `verify_inclusion` accepts what `inclusion_proof` makes.
use native.Mathlib.Nat.{mul_assoc}
use blindrange.Prelude.{
  ℕ, zero, suc, ◌+◌, ◌-◌, ◌*◌, ◌/◌, ◌^◌, ◌≤◌, ◌<◌, ◌≡◌, refl, sym, ap, ap₂, ◌∙◌, List, [], ◌∷◌, ltb,
  true, false, some, get_elem?, get_elem?-take, get_elem?-drop, get_elem?-some, Bool-cases, lt→ltb,
  ltb→lt, inl, inr, length, take, drop, arith, two_pow_suc, two_pow_lt, two_pow_add, ok,
}
use blindrange.Merkle.{Bytes, split, root, Climb, climb_all, inclusion_proof, verify_inclusion}
use blindrange.Merkle.Split.{split_lem}
use blindrange.Merkle.Root.{halves, path}
use blindrange.Merkle.Steps.{up, up_gt, up_le, at, step_last, bytes_eq_refl}
use blindrange.Merkle.Full.{from_left, from_right, single, full}

module _ (sha256 : Bytes → Bytes) where
  -- The path of a leaf in a subtree at the right end of the tree, of the height `h`.
  record Edge (xs : List Bytes) (m : ℕ) (leaf : Bytes) : Type 0 where
    h : ℕ
    fits : length xs ≤ 2 ^ h
    tight : 2 ^ h < 2 * length xs
    climbs :
        (q : ℕ)
        → climb_all sha256 (at leaf (q * 2 ^ h + m) (q * 2 ^ h + length xs)) (path sha256 xs m)
          ≡ at (root sha256 xs) q (q + 1)

  module _ (xs : List Bytes) (m : ℕ) (leaf : Bytes) (two : 2 ≤ length xs)
      (el : get_elem? xs m ≡ some leaf) (j : ℕ) (sp : split (length xs) ≡ 2 ^ j)
      (low : 2 ^ j < length xs) (high : length xs ≤ 2 * 2 ^ j) (q : ℕ) where
    abbrev k : ℕ
    k = split (length xs)

    abbrev places : ℕ
    places = q * 2 ^ suc j

    abbrev start : Climb
    start = at leaf (places + m) (places + length xs)

    twice : places ≡ q * (2 * 2 ^ j)
    twice = ap (λ (t : ℕ). q * t) (two_pow_suc j)

    edge_left :
        ltb m k ≡ true → climb_all sha256 start (path sha256 xs m) ≡ at (root sha256 xs) q (q + 1)
    edge_left left =
        let c = up j (places + length xs) in
        let idx : places + m ≡ 2 * q * 2 ^ j + m = omega (arith, twice) in
        let above = up_gt j (2 * q + 1) (places + length xs) (omega (arith, twice, low)) in
        let below = up_le j (2 * q + 2) (places + length xs) (omega (arith, twice, high)) in
        let next : (c + 1) / 2 ≡ q + 1 = omega (arith, above, below) in
        from_left sha256 xs m start two q c left
          (ap (λ t. climb_all sha256 (at leaf t (places + length xs)) (path sha256 (take k xs) m))
              idx
            ∙ full sha256 j (take k xs) m leaf (2 * q) (places + length xs) ((halves xs two).0 ∙ sp)
                (get_elem?-take k m xs (ltb→lt m k left) ∙ el) (omega (arith, twice, low)))
          above
        ∙ ap (at (root sha256 xs) q) next

    rightmost_child :
        ltb m k ≡ false
        → Edge (drop k xs) (m - k) leaf
        → climb_all sha256 start (path sha256 xs m) ≡ at (root sha256 xs) q (q + 1)
    rightmost_child right e =
        let len = (halves xs two).1 in
        let short = two_pow_lt e.h (suc j) (omega (arith, e.tight, len, sp, two_pow_suc j, high)) in
        let gap = j - e.h in
        let sum : gap + e.h ≡ j = omega (arith, short) in
        let i = (2 * q + 1) * 2 ^ gap in
        let width : 2 ^ j ≡ 2 ^ gap * 2 ^ e.h =
          ap (λ (t : ℕ). 2 ^ t) (sym sum) ∙ two_pow_add gap e.h in
        let base : (2 * q + 1) * 2 ^ j ≡ i * 2 ^ e.h =
          ap (λ (t : ℕ). (2 * q + 1) * t) width ∙ sym (mul_assoc (2 * q + 1) (2 ^ gap) (2 ^ e.h)) in
        let index : places + m ≡ i * 2 ^ e.h + (m - k) = ground (arith, twice, sp, base, right) in
        let size : places + length xs ≡ i * 2 ^ e.h + length (drop k xs) =
          omega (arith, twice, sp, base, len, low) in
        from_right sha256 xs m start two (at (root sha256 (drop k xs)) i (i + 1)) q (q + 1) right
          (ap₂ (λ a b. climb_all sha256 (at leaf a b) (path sha256 (drop k xs) (m - k))) index size
            ∙ e.climbs i)
          (step_last sha256 (root sha256 (drop k xs)) (root sha256 (take k xs)) gap q i refl)

  rightmost_split :
      (xs : List Bytes) (m : ℕ) (leaf : Bytes)
      → 2 ≤ length xs
      → get_elem? xs m ≡ some leaf
      → ((k m' : ℕ)
          → length (drop k xs) < length xs
          → get_elem? (drop k xs) m' ≡ some leaf
          → Edge (drop k xs) m' leaf)
      → Edge xs m leaf
  rightmost_split xs m leaf two el below =
      let (j, sp, low, high) = split_lem (length xs) two in
      let (len_left, len_right, _, less) = halves xs two in
      let p = two_pow_suc j in
      record {
        h = suc j;
        fits = omega (arith, p, high);
        tight = omega (arith, p, low);
        climbs = λ q. elim (Bool-cases (ltb m (split (length xs)))) [
          | inl left ↦ edge_left xs m leaf two el j sp low high q left
          | inr right ↦
              let k = split (length xs) in
              let back : k + (m - k) ≡ m = ground (arith, right) in
              rightmost_child xs m leaf two el j sp low high q right (
                below k (m - k) (omega (arith, len_right, less, low, sp))
                  (get_elem?-drop k (m - k) xs ∙ rw back el))
        ];
      }

  edge :
      (f : ℕ) (xs : List Bytes) (m : ℕ) (leaf : Bytes)
      → length xs ≤ f
      → get_elem? xs m ≡ some leaf
      → Edge xs m leaf
  edge f [] m leaf p el = cc
  edge f (x ∷ []) m leaf p el =
      let (z, _) = single sha256 (x ∷ []) m leaf 0 0 refl el in
      record {
        h = 0;
        fits = omega arith;
        tight = omega arith;
        climbs = λ q.
            let a : q * 2 ^ 0 + m ≡ q = omega (arith, z) in
            let b : q * 2 ^ 0 + 1 ≡ q + 1 = omega arith in
            (single sha256 (x ∷ []) m leaf (q * 2 ^ 0 + m) (q * 2 ^ 0 + 1) refl el).1
            ∙ ap₂ (at (root sha256 (x ∷ []))) a b;
      }
  edge zero (x ∷ y ∷ ys) m leaf p el = absurd (omega arith)
  edge (suc f) (x ∷ y ∷ ys) m leaf p el =
      let xs = x ∷ y ∷ ys in
      rightmost_split xs m leaf (omega arith) el
        (λ k m' len. edge f (drop k xs) m' leaf (omega (arith, p, len)))

  -- The proof that `inclusion_proof` makes for a leaf of the tree is accepted for that leaf, its
  -- place, the number of leaves and the head of the tree.
  pub inclusion_complete :
      (xs : List Bytes) (m : ℕ) (leaf : Bytes)
      → get_elem? xs m ≡ some leaf
      → (proof : List Bytes) × (inclusion_proof sha256 xs m ≡ ok proof)
        × (verify_inclusion sha256 leaf m (length xs) proof (root sha256 xs) ≡ true)
  unfolding inclusion_proof verify_inclusion
  inclusion_complete xs m leaf el =
      let inside = lt→ltb m (length xs) (get_elem?-some m xs el) in
      let e = edge (length xs) xs m leaf (omega arith) el in
      let a : 0 * 2 ^ e.h + m ≡ m = omega arith in
      let b : 0 * 2 ^ e.h + length xs ≡ length xs = omega arith in
      let run =
        sym (ap₂ (λ i n. climb_all sha256 (at leaf i n) (path sha256 xs m)) a b) ∙ e.climbs 0 in
      (
        path sha256 xs m,
        rw inside,
        rw (inside, run) (ground (arith, bytes_eq_refl (root sha256 xs))),
      )
