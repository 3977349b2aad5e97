-- ===== src/Merkle/Consistency/Complete.antt =====
-- `verify_consistency` accepts what `consistency_proof` makes.
use native.Mathlib.Nat.{mul_assoc}
use blindrange.Prelude.{
  is_empty, ℕ, zero, suc, ◌+◌, ◌-◌, ◌*◌, ◌/◌, ◌^◌, ◌≤◌, ◌<◌, ◌≡◌, ◌==◌, refl, sym, subst,
  if◌then◌else◌, ap, ap₂, ◌∙◌, List, [], ◌∷◌, ◌++◌, leb, true, false, some, ok, Bool-cases, inl,
  inr, length, take, drop, take_all, arith, two_pow_suc, two_pow_lt, two_pow_add, bit_and,
  bit_length, power_of_two, bit_and-two_pow,
}
use blindrange.Merkle.{Bytes, split, root}
use blindrange.Merkle.Split.{split_lem}
use blindrange.Merkle.Root.{halves}
use blindrange.Merkle.Steps.{bytes_eq_refl}
use blindrange.Merkle.Consistency.{
  rebuild_from, subproof, consistency_proof, verify_consistency, agrees,
}
use blindrange.Merkle.Consistency.Subproof.{subproof-whole, subproof-left, subproof-right}
use blindrange.Merkle.Consistency.Levels.{down, down_ge, down_lt, both_at, step_last}
use blindrange.Merkle.Consistency.AtRoot.{at_root_power, at_root_other}
use blindrange.Merkle.Consistency.Full.{old_path, heads_left, heads_right, full}

module _ (sha256 : Bytes → Bytes) where
  -- A subtree at the right end of the new tree, of the height `h`.
  record Edge (xs : List Bytes) (m : ℕ) : Type 0 where
    h : ℕ
    fits : length xs ≤ 2 ^ h
    tight : 2 ^ h < 2 * length xs
    rebuilds :
        (q : ℕ)
        → rebuild_from sha256 (q * 2 ^ h + m) (q * 2 ^ h + length xs) (old_path sha256 xs m)
          ≡ some (both_at (root sha256 (take m xs)) (root sha256 xs) q q)

  module _ (xs : List Bytes) (m : ℕ) (one : 1 ≤ m) (less : m < length xs) (j : ℕ)
      (sp : split (length xs) ≡ 2 ^ j) (low : 2 ^ j < length xs) (high : length xs ≤ 2 * 2 ^ j)
      (q : ℕ) where
    abbrev k : ℕ
    k = split (length xs)

    abbrev places : ℕ
    places = q * 2 ^ suc j

    abbrev Rebuilt : Type 0
    Rebuilt =
        rebuild_from sha256 (places + m) (places + length xs) (old_path sha256 xs m)
        ≡ some (both_at (root sha256 (take m xs)) (root sha256 xs) q q)

    twice : places ≡ q * (2 * 2 ^ j)
    twice = ap (λ (t : ℕ). q * t) (two_pow_suc j)

    ends_left : leb m k ≡ true → Rebuilt
    ends_left here =
        let new = places + length xs in
        let (l, _, _, _) = halves xs (omega (arith, one, less)) in
        let room : (2 * q + 1) * 2 ^ j < new = omega (arith, twice, low) in
        let above = down_ge j (2 * q + 1) (new - 1) (omega (arith, twice, low)) in
        let below = down_lt j (2 * q + 2) (new - 1) (omega (arith, twice, high, low)) in
        let half : down j (new - 1) / 2 ≡ q = omega (arith, above, below) in
        heads_left sha256 xs m one less (places + m) new q (down j (new - 1)) here
          (full sha256 j (take k xs) m (2 * q) (places + m) new (l ∙ sp) one
            (ground (arith, here, sp)) (λ _. omega arith) (omega (arith, twice)) room)
          (omega (arith, above))
        ∙ ap (λ t. some (both_at (root sha256 (take m xs)) (root sha256 xs) q t)) half

    ends_right : leb m k ≡ false → Edge (drop k xs) (m - k) → Rebuilt
    ends_right there e =
        let past : k < m = ground (arith, there) in
        let (_, len, _, _) = halves xs (omega (arith, one, less)) in
        let short = two_pow_lt e.h (suc j) (omega (arith, e.tight, len, sp, two_pow_suc j, high)) in
        let gap = j - e.h in
        let sum : gap + e.h ≡ j = omega (arith, short) in
        let i = (2 * q + 1) * 2 ^ gap in
        let width : 2 ^ j ≡ 2 ^ gap * 2 ^ e.h =
          ap (λ (t : ℕ). 2 ^ t) (sym sum) ∙ two_pow_add gap e.h in
        let base : (2 * q + 1) * 2 ^ j ≡ i * 2 ^ e.h =
          ap (λ (t : ℕ). (2 * q + 1) * t) width ∙ sym (mul_assoc (2 * q + 1) (2 ^ gap) (2 ^ e.h)) in
        let old : places + m ≡ i * 2 ^ e.h + (m - k) = omega (arith, twice, sp, base, past) in
        let new : places + length xs ≡ i * 2 ^ e.h + length (drop k xs) =
          omega (arith, twice, sp, base, len, low) in
        heads_right sha256 xs m one less (places + m) (places + length xs) q
          (both_at (root sha256 (take (m - k) (drop k xs))) (root sha256 (drop k xs)) i i) q q there
          (ap₂ (λ a b. rebuild_from sha256 a b (old_path sha256 (drop k xs) (m - k))) old new
            ∙ e.rebuilds i)
          (step_last sha256 _ _ (root sha256 (take k xs)) gap q i refl)

  edge : (f : ℕ) (xs : List Bytes) (m : ℕ) → length xs ≤ f → 1 ≤ m → m < length xs → Edge xs m
  edge zero xs m p one less = absurd (omega arith)
  edge (suc f) xs m p one less =
      let (j, sp, low, high) = split_lem (length xs) (omega (arith, one, less)) in
      let (_, len, pos, short) = halves xs (omega (arith, one, less)) in
      let w = two_pow_suc j in
      record {
        h = suc j;
        fits = omega (arith, w, high);
        tight = omega (arith, w, low);
        rebuilds = λ q. elim (Bool-cases (leb m (split (length xs)))) [
          | inl here ↦ ends_left xs m one less j sp low high q here
          | inr there ↦
              let past : split (length xs) < m = ground (arith, there) in
              ends_right xs m one less j sp low high q there (
                edge f (drop (split (length xs)) xs) (m - split (length xs))
                  (omega (arith, len, pos, p)) (omega (arith, past))
                  (omega (arith, len, less, past)))
        ];
      }

  -- Both heads, out of the path that starts with the head of the last full subtree of the old tree.
  pub both_heads :
      (xs : List Bytes) (m : ℕ)
      → 1 ≤ m
      → m < length xs
      → rebuild_from sha256 m (length xs) (old_path sha256 xs m)
        ≡ some (both_at (root sha256 (take m xs)) (root sha256 xs) 0 0)
  both_heads xs m one less =
      let e = edge (length xs) xs m (omega arith) one less in
      let a : 0 * 2 ^ e.h + m ≡ m = omega arith in
      let b : 0 * 2 ^ e.h + length xs ≡ length xs = omega arith in
      sym (ap₂ (λ i n. rebuild_from sha256 i n (old_path sha256 xs m)) a b) ∙ e.rebuilds 0

  joined-not_empty : (xs : List Bytes) (x : Bytes) → is_empty (xs ++ x ∷ []) ≡ false
  joined-not_empty [] x = refl
  joined-not_empty (y ∷ xs) x = refl

  not_empty :
      (xs : List Bytes) (m : ℕ)
      → 1 ≤ m
      → m < length xs
      → is_empty (subproof sha256 xs m true) ≡ false
  not_empty xs m one less = elim (Bool-cases (leb m (split (length xs)))) [
    | inl here ↦ rw (subproof-left sha256 xs m true one less here) (joined-not_empty _ _)
    | inr there ↦ rw (subproof-right sha256 xs m true one less there) (joined-not_empty _ _)
  ]

  -- The path that `verify_consistency` goes up.
  pub path_lem :
      (xs : List Bytes) (m : ℕ)
      → 1 ≤ m
      → m < length xs
      → (let proof = subproof sha256 xs m true in
          if bit_and m (m - 1) == 0 then root sha256 (take m xs) ∷ proof else proof)
        ≡ old_path sha256 xs m
  path_lem xs m one less = elim (Bool-cases (bit_and m (m - 1) == 0)) [
    | inl power ↦
        let i = bit_length m - 1 in
        let e : m ≡ 2 ^ i = power_of_two m (omega (arith, one)) (ground (arith, power)) in
        rw power (
          sym (
            subst
              (λ (t : ℕ).
                old_path sha256 xs t ≡ root sha256 (take t xs) ∷ subproof sha256 xs t true)
              (sym e)
              (at_root_power sha256 (length xs) xs i (omega arith) (omega (arith, e, less)))))
    | inr other ↦ rw other (
        at_root_other sha256 (length xs) xs m (omega arith) one less
          (λ i e. let z = bit_and-two_pow i in let o = rw e at other in ground (arith, z, o)))
  ]

  -- For a tree of at least one leaf that is a prefix of another, consistency_proof returns a proof
  -- that verify_consistency accepts against the heads of both.
  pub consistency_complete :
      (hashes : List Bytes) (m : ℕ)
      → 1 ≤ m
      → m ≤ length hashes
      → (proof : List Bytes) × (consistency_proof sha256 hashes m ≡ ok proof)
        × (verify_consistency sha256 m
              (root sha256 (take m hashes))
              (length hashes)
              (root sha256 hashes)
              proof
            ≡ true)
  unfolding consistency_proof verify_consistency agrees
  consistency_complete hashes m one le = (
    subproof sha256 hashes m true,
    ground (arith, one, le),
    elim (Bool-cases (m == length hashes)) [
      | inl same ↦
          let e : m ≡ length hashes = ground (arith, same) in
          rw (subproof-whole sha256 hashes m true e, take_all m hashes e)
            (ground (arith, e, one, bytes_eq_refl (root sha256 hashes)))
      | inr other ↦
          let less : m < length hashes = ground (arith, other, le) in
          rw
            (
              path_lem hashes m one less,
              both_heads hashes m one less,
              not_empty hashes m one less,
              bytes_eq_refl,
            )
            (ground (arith, one, le, other, bytes_eq_refl (root sha256 hashes)))
    ],
  )
