-- ===== src/Merkle/Root.antt =====
-- The recursion of `root` and of `inclusion_proof`, with the fuel gone.
use blindrange.Prelude.{
  ℕ, zero, suc, ◌-◌, ◌≤◌, ◌<◌, ◌≡◌, refl, ap₂, List, [], ◌∷◌, ◌++◌, ltb, if◌then◌else◌, length,
  take, drop, length-take, length-drop, arith, two_pow_pos,
}
use blindrange.Merkle.{Bytes, split, node_hash, root_fuel, root, path_fuel}
use blindrange.Merkle.Split.{split_lem}

-- Both halves are shorter, and not empty.
pub halves :
    (xs : List Bytes)
    → 2 ≤ length xs
    → (length (take (split (length xs)) xs) ≡ split (length xs))
      × (length (drop (split (length xs)) xs) ≡ length xs - split (length xs))
      × (1 ≤ split (length xs))
      × (split (length xs) < length xs)
halves xs h =
    let k = split (length xs) in
    let (i, e, low, high) = split_lem (length xs) h in
    (
      omega (arith, length-take k xs, e, low),
      length-drop k xs,
      omega (arith, e, two_pow_pos i),
      omega (arith, e, low),
    )

module _ (sha256 : Bytes → Bytes) where
  root_fuel_enough :
      (f g : ℕ) (xs : List Bytes)
      → length xs ≤ f
      → length xs ≤ g
      → root_fuel sha256 f xs ≡ root_fuel sha256 g xs
  unfolding root_fuel
  root_fuel_enough zero zero xs p q = refl
  root_fuel_enough zero (suc g) [] p q = refl
  root_fuel_enough zero (suc g) (x ∷ xs) p q = absurd (omega arith)
  root_fuel_enough (suc f) zero [] p q = refl
  root_fuel_enough (suc f) zero (x ∷ xs) p q = absurd (omega arith)
  root_fuel_enough (suc f) (suc g) [] p q = refl
  root_fuel_enough (suc f) (suc g) (x ∷ []) p q = refl
  root_fuel_enough (suc f) (suc g) (x ∷ y ∷ xs) p q =
      let (l, r, one, less) = halves (x ∷ y ∷ xs) (omega arith) in
      ap₂ (node_hash sha256)
        (root_fuel_enough f g (take (split (length (x ∷ y ∷ xs))) (x ∷ y ∷ xs))
          (omega (arith, l, less)) (omega (arith, l, less)))
        (root_fuel_enough f g (drop (split (length (x ∷ y ∷ xs))) (x ∷ y ∷ xs))
          (omega (arith, r, one)) (omega (arith, r, one)))

  -- The head of two or more leaves is the hash of the heads of its halves.
  pub root-split :
      (xs : List Bytes)
      → 2 ≤ length xs
      → root sha256 xs
        ≡ node_hash sha256
            (root sha256 (take (split (length xs)) xs))
            (root sha256 (drop (split (length xs)) xs))
  unfolding root
  root-split (x ∷ y ∷ xs) h =
      let (l, r, one, less) = halves (x ∷ y ∷ xs) h in
      ap₂ (node_hash sha256)
        (root_fuel_enough (suc (length xs))
          (length (take (split (length (x ∷ y ∷ xs))) (x ∷ y ∷ xs)))
          (take (split (length (x ∷ y ∷ xs))) (x ∷ y ∷ xs)) (omega (arith, l, less)) (omega arith))
        (root_fuel_enough (suc (length xs))
          (length (drop (split (length (x ∷ y ∷ xs))) (x ∷ y ∷ xs)))
          (drop (split (length (x ∷ y ∷ xs))) (x ∷ y ∷ xs)) (omega (arith, r, one)) (omega arith))
  root-split [] h = absurd (omega arith)
  root-split (x ∷ []) h = absurd (omega arith)

  abbrev pub path : List Bytes → ℕ → List Bytes
  path xs m = path_fuel sha256 (length xs) xs m

  path_fuel_enough :
      (f g : ℕ) (xs : List Bytes) (m : ℕ)
      → length xs ≤ f
      → length xs ≤ g
      → path_fuel sha256 f xs m ≡ path_fuel sha256 g xs m
  unfolding path_fuel
  path_fuel_enough zero zero xs m p q = refl
  path_fuel_enough zero (suc g) [] m p q = refl
  path_fuel_enough zero (suc g) (x ∷ xs) m p q = absurd (omega arith)
  path_fuel_enough (suc f) zero [] m p q = refl
  path_fuel_enough (suc f) zero (x ∷ xs) m p q = absurd (omega arith)
  path_fuel_enough (suc f) (suc g) [] m p q = refl
  path_fuel_enough (suc f) (suc g) (x ∷ []) m p q = refl
  path_fuel_enough (suc f) (suc g) (x ∷ y ∷ xs) m p q =
      let ys = x ∷ y ∷ xs in
      let k = split (length ys) in
      let (l, r, one, less) = halves ys (omega arith) in
      ap₂
        (λ a b.
          if ltb m k then a ++ root sha256 (drop k ys) ∷ [] else b ++ root sha256 (take k ys) ∷ [])
        (path_fuel_enough f g (take k ys) m (omega (arith, l, less)) (omega (arith, l, less)))
        (path_fuel_enough f g (drop k ys) (m - k) (omega (arith, r, one)) (omega (arith, r, one)))

  -- The path of two or more leaves is that of the half, and then the head of the other half.
  pub path-split :
      (xs : List Bytes) (m : ℕ)
      → 2 ≤ length xs
      → path xs m ≡ (
          if ltb m (split (length xs))
          then path (take (split (length xs)) xs) m
            ++ root sha256 (drop (split (length xs)) xs) ∷ []
          else path (drop (split (length xs)) xs) (m - split (length xs))
            ++ root sha256 (take (split (length xs)) xs) ∷ [])
  unfolding path_fuel
  path-split [] m h = absurd (omega arith)
  path-split (x ∷ []) m h = absurd (omega arith)
  path-split (x ∷ y ∷ xs) m h =
      let ys = x ∷ y ∷ xs in
      let k = split (length ys) in
      let (l, r, one, less) = halves ys h in
      ap₂
        (λ a b.
          if ltb m k then a ++ root sha256 (drop k ys) ∷ [] else b ++ root sha256 (take k ys) ∷ [])
        (path_fuel_enough (suc (length xs)) (length (take k ys)) (take k ys) m
          (omega (arith, l, less)) (omega arith))
        (path_fuel_enough (suc (length xs)) (length (drop k ys)) (drop k ys) (m - k)
          (omega (arith, r, one)) (omega arith))
