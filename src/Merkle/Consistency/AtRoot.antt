-- ===== src/Merkle/Consistency/AtRoot.antt =====
-- What `_subproof` leaves out when it is called at the root.
use blindrange.Prelude.{
  ℕ, zero, suc, ◌^◌, ◌≤◌, ◌<◌, ◌≡◌, ◌==◌, refl, List, ◌∷◌, leb, true, false, Bool-cases, inl, inr,
  length, take, take-take, take_all, arith, two_pow_pos, two_pow_suc, two_pow_mono, two_pow_lt,
}
use blindrange.Merkle.{Bytes, split, root}
use blindrange.Merkle.Split.{split_lem}
use blindrange.Merkle.Root.{halves}
use blindrange.Merkle.Consistency.{subproof}
use blindrange.Merkle.Consistency.Subproof.{subproof-whole, subproof-left, subproof-right}
use blindrange.Merkle.Consistency.Full.{old_path}

module _ (sha256 : Bytes → Bytes) where
  -- At the root `_subproof` leaves out the old head, which is where its path starts if the old tree
  -- has 2 ^ i leaves.
  pub at_root_power :
      (f : ℕ) (xs : List Bytes) (i : ℕ)
      → length xs ≤ f
      → 2 ^ i ≤ length xs
      → old_path sha256 xs (2 ^ i) ≡ root sha256 (take (2 ^ i) xs) ∷ subproof sha256 xs (2 ^ i) true
  at_root_power zero xs i p le = absurd (omega (arith, two_pow_pos i))
  at_root_power (suc f) xs i p le = elim (Bool-cases (2 ^ i == length xs)) [
    | inl same ↦
        let e : 2 ^ i ≡ length xs = ground (arith, same) in
        rw
          (
            subproof-whole sha256 xs (2 ^ i) false e,
            subproof-whole sha256 xs (2 ^ i) true e,
            take_all (2 ^ i) xs e,
          )
          refl
    | inr other ↦
        let less : 2 ^ i < length xs = ground (arith, other, le) in
        let one : 1 ≤ 2 ^ i = omega (arith, two_pow_pos i) in
        let (j, sp, low, high) = split_lem (length xs) (omega (arith, one, less)) in
        let (l, _, _, short) = halves xs (omega (arith, one, less)) in
        let k = split (length xs) in
        let below : i < suc j = two_pow_lt i (suc j) (omega (arith, less, high, two_pow_suc j)) in
        let most = two_pow_mono i j (omega (arith, below)) in
        let here : leb (2 ^ i) k ≡ true = ground (arith, most, sp) in
        rw
          (
            subproof-left sha256 xs (2 ^ i) false one less here,
            subproof-left sha256 xs (2 ^ i) true one less here,
            at_root_power f (take k xs) i (omega (arith, l, short, p)) (omega (arith, l, most, sp)),
            take-take (2 ^ i) k xs (omega (arith, most, sp)),
          )
          refl
  ]

  pub at_root_other :
      (f : ℕ) (xs : List Bytes) (m : ℕ)
      → length xs ≤ f
      → 1 ≤ m
      → m < length xs
      → ((i : ℕ) → m ≡ 2 ^ i → ⊥)
      → subproof sha256 xs m true ≡ old_path sha256 xs m
  at_root_other zero xs m p one less odd = absurd (omega arith)
  at_root_other (suc f) xs m p one less odd =
      let (j, sp, low, high) = split_lem (length xs) (omega (arith, one, less)) in
      let (l, _, _, short) = halves xs (omega (arith, one, less)) in
      let k = split (length xs) in
      elim (Bool-cases (leb m k)) [
        | inl here ↦ elim (Bool-cases (m == k)) [
          | inl same ↦ absurd (odd j (ground (arith, same, sp)))
          | inr other ↦
              rw
                (
                  subproof-left sha256 xs m false one less here,
                  subproof-left sha256 xs m true one less here,
                  at_root_other f (take k xs) m (omega (arith, l, short, p)) one
                      (ground (arith, l, here, other)) odd,
                )
                refl
        ]
        | inr there ↦
            rw
              (
                subproof-right sha256 xs m false one less there,
                subproof-right sha256 xs m true one less there,
              )
              refl
      ]
