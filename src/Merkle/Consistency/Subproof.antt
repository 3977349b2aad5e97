-- ===== src/Merkle/Consistency/Subproof.antt =====
-- The recursion of `_subproof` with the fuel gone, and what `at_root` leaves out.
use blindrange.Prelude.{
  ℕ, zero, suc, ◌-◌, ◌≤◌, ◌<◌, ◌≡◌, ◌==◌, refl, ap, Bool, true, false, List, [], ◌∷◌, ◌++◌, leb,
  Bool-cases, inl, inr, if◌then◌else◌, length, take, drop, arith,
}
use blindrange.Merkle.{Bytes, split, root}
use blindrange.Merkle.Root.{halves}
use blindrange.Merkle.Consistency.{subproof_fuel, subproof}

module _ (sha256 : Bytes → Bytes) where
  abbrev whole_proof : Bool → List Bytes → List Bytes
  whole_proof b xs = if b then [] else root sha256 xs ∷ []

  fuel_enough :
      (f g : ℕ) (xs : List Bytes) (m : ℕ) (b : Bool)
      → 1 ≤ m
      → m ≤ length xs
      → length xs ≤ f
      → length xs ≤ g
      → subproof_fuel sha256 f xs m b ≡ subproof_fuel sha256 g xs m b
  unfolding subproof_fuel
  fuel_enough zero g xs m b one le p q = absurd (omega arith)
  fuel_enough (suc f) zero xs m b one le p q = absurd (omega arith)
  fuel_enough (suc f) (suc g) xs m b one le p q = elim (Bool-cases (m == length xs)) [
    | inl same ↦ rw same refl
    | inr less ↦
        let two : 2 ≤ length xs = ground (arith, less) in
        let (l, r, pos, short) = halves xs two in
        let k = split (length xs) in
        elim (Bool-cases (leb m k)) [
          | inl here ↦
              rw (less, here)
                (ap (λ t. t ++ root sha256 (drop k xs) ∷ [])
                  (fuel_enough f g (take k xs) m b one (ground (arith, l, here))
                    (omega (arith, l, short)) (omega (arith, l, short))))
          | inr there ↦
              rw (less, there)
                (ap (λ t. t ++ root sha256 (take k xs) ∷ [])
                  (fuel_enough f g (drop k xs) (m - k) false (ground (arith, there))
                    (ground (arith, r, there)) (omega (arith, r, pos)) (omega (arith, r, pos))))
        ]
  ]

  pub subproof-whole :
      (xs : List Bytes) (m : ℕ) (b : Bool)
      → m ≡ length xs
      → subproof sha256 xs m b ≡ whole_proof b xs
  unfolding subproof subproof_fuel
  subproof-whole [] m b e = refl
  subproof-whole (x ∷ xs) m b e = ground (arith, e)

  -- The part of the tree that holds the end of the old tree, and the head of the other part.
  module _ (xs : List Bytes) (m : ℕ) (b : Bool) (one : 1 ≤ m) (less : m < length xs) where
    abbrev k : ℕ
    k = split (length xs)

    two : 2 ≤ length xs
    two = omega arith

    unrolled : subproof sha256 xs m b ≡ subproof_fuel sha256 (suc (length xs)) xs m b
    unfolding subproof
    unrolled =
        fuel_enough (length xs) (suc (length xs)) xs m b one (omega arith) (omega arith)
          (omega arith)

    pub subproof-left :
        leb m k ≡ true
        → subproof sha256 xs m b ≡ subproof sha256 (take k xs) m b ++ root sha256 (drop k xs) ∷ []
    unfolding subproof subproof_fuel
    subproof-left here =
        let (l, r, pos, short) = halves xs two in
        let differ : (m == length xs) ≡ false = ground arith in
        rw unrolled (
          rw (differ, here)
            (ap (λ t. t ++ root sha256 (drop k xs) ∷ [])
              (fuel_enough (length xs) (length (take k xs)) (take k xs) m b one
                (ground (arith, l, here)) (omega (arith, l, short)) (omega arith))))

    pub subproof-right :
        leb m k ≡ false
        → subproof sha256 xs m b
          ≡ subproof sha256 (drop k xs) (m - k) false ++ root sha256 (take k xs) ∷ []
    unfolding subproof subproof_fuel
    subproof-right there =
        let (l, r, pos, short) = halves xs two in
        let differ : (m == length xs) ≡ false = ground arith in
        rw unrolled (
          rw (differ, there)
            (ap (λ t. t ++ root sha256 (take k xs) ∷ [])
              (fuel_enough (length xs) (length (drop k xs)) (drop k xs) (m - k) false
                (ground (arith, there)) (ground (arith, r, there)) (omega (arith, r))
                (omega arith))))
