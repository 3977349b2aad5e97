-- ===== src/Merkle/Consistency/Sound.antt =====
-- What `verify_consistency` accepts is the head that the new tree had, or two byte strings have one
-- hash.
use blindrange.Prelude.{
  is_empty, ℕ, zero, suc, ◌-◌, ◌≤◌, ◌<◌, ◌≡◌, ◌==◌, ◌||◌, refl, sym, ap, ap₂, ◌∙◌, List, [], ◌∷◌,
  ◌++◌, All, All-append, Option, true, false, some, none, Bool-cases, inl, inr, ◌⊎◌, length, take,
  drop, leb, ltb, take_all, arith, bit_and, if◌then◌else◌,
}
use blindrange.Merkle.{Bytes, bytes_eq, split, node_hash, root, root_fuel}
use blindrange.Merkle.Root.{halves}
use blindrange.Merkle.Consistency.{Heads, strip, rebuild_from, verify_consistency, agrees}
use blindrange.Merkle.Consistency.Subproof.{subproof-whole, subproof-left, subproof-right}
use blindrange.Merkle.Consistency.Levels.{both_at}
use blindrange.Merkle.Consistency.Full.{old_path}
use blindrange.Merkle.Consistency.Complete.{both_heads}
use blindrange.Merkle.Consistency.Runs.{bytes_eq_eq, Collision, Sized, two_runs}

module _ (sha256 : Bytes → Bytes) (size : ℕ) (sized : (x : Bytes) → length (sha256 x) ≡ size) where
  abbrev AllSized : List Bytes → Type 0
  AllSized xs = All (Sized sha256 size sized) xs

  take-AllSized : (k : ℕ) (xs : List Bytes) → AllSized xs → AllSized (take k xs)
  take-AllSized zero xs h = tt
  take-AllSized (suc k) [] h = tt
  take-AllSized (suc k) (x ∷ xs) (u, h) = (u, take-AllSized k xs h)

  drop-AllSized : (k : ℕ) (xs : List Bytes) → AllSized xs → AllSized (drop k xs)
  drop-AllSized zero xs h = h
  drop-AllSized (suc k) [] h = tt
  drop-AllSized (suc k) (x ∷ xs) (u, h) = drop-AllSized k xs h

  root-Sized : (xs : List Bytes) → AllSized xs → length (root sha256 xs) ≡ size
  unfolding root root_fuel node_hash
  root-Sized [] h = sized []
  root-Sized (x ∷ []) (u, h) = u
  root-Sized (x ∷ y ∷ xs) h = sized _

  joined-AllSized :
      (xs : List Bytes) (x : Bytes) → AllSized xs → length x ≡ size → AllSized (xs ++ x ∷ [])
  joined-AllSized xs x h u = All-append (Sized sha256 size sized) xs (x ∷ []) h (u, tt)

  old_path-AllSized :
      (f : ℕ) (xs : List Bytes) (m : ℕ)
      → length xs ≤ f
      → 1 ≤ m
      → m ≤ length xs
      → AllSized xs
      → AllSized (old_path sha256 xs m)
  old_path-AllSized zero xs m p one le h = absurd (omega arith)
  old_path-AllSized (suc f) xs m p one le h = elim (Bool-cases (m == length xs)) [
    | inl same ↦ rw (subproof-whole sha256 xs m false (ground (arith, same))) (root-Sized xs h, tt)
    | inr other ↦
        let less : m < length xs = ground (arith, other, le) in
        let (l, r, pos, short) = halves xs (omega (arith, one, less)) in
        let k = split (length xs) in
        elim (Bool-cases (leb m k)) [
          | inl here ↦ rw (subproof-left sha256 xs m false one less here) (
              joined-AllSized _ _
                (old_path-AllSized f (take k xs) m (omega (arith, l, short, p)) one
                  (ground (arith, l, here)) (take-AllSized k xs h))
                (root-Sized (drop k xs) (drop-AllSized k xs h)))
          | inr there ↦
              let past : k < m = ground (arith, there) in
              rw (subproof-right sha256 xs m false one less there) (
                joined-AllSized _ _
                  (old_path-AllSized f (drop k xs) (m - k) (omega (arith, r, pos, p))
                    (omega (arith, past)) (omega (arith, r, le)) (drop-AllSized k xs h))
                  (root-Sized (take k xs) (take-AllSized k xs h)))
        ]
  ]

  same_paths :
      (m n : ℕ) (P P' : List Bytes) (t t' : Heads)
      → AllSized P
      → AllSized P'
      → rebuild_from sha256 m n P ≡ some t
      → rebuild_from sha256 m n P' ≡ some t'
      → t.sn ≡ 0
      → t'.sn ≡ 0
      → t.sr ≡ t'.sr
      → (P ≡ P') ⊎ Collision sha256
  unfolding rebuild_from
  same_paths m n [] P' t t' v v' e e' z z' h = cc
  same_paths m n (x ∷ P) [] t t' v v' e e' z z' h = cc
  same_paths m n (x ∷ P) (x' ∷ P') t t' (u, v) (u', v') e e' z z' h =
      let (i, s) = strip m (m - 1) (n - 1) in
      elim (two_runs sha256 size sized P P' x x x' x' i s t t' u u' v v' e e' z z' h) [
        | inl (p, q) ↦ inl (ap₂ (λ y ys. y ∷ ys) p q)
        | inr c ↦ inr c
      ]

  agreed :
      (o n : Bytes) (r : Option Heads)
      → agrees o n r ≡ true
      → (t : Heads) × (r ≡ some t) × (t.sn ≡ 0) × (t.fr ≡ o) × (t.sr ≡ n)
  unfolding agrees
  agreed o n none e = cc
  agreed o n (some t) e = (
    t,
    refl,
    ground (arith, e),
    bytes_eq_eq t.fr o (ground (arith, e)),
    bytes_eq_eq t.sr n (ground (arith, e)),
  )

  rebuilt_old_head :
      (hashes : List Bytes) (m : ℕ) (old_root : Bytes) (P : List Bytes)
      → 1 ≤ m
      → m < length hashes
      → AllSized hashes
      → AllSized P
      → agrees old_root (root sha256 hashes) (rebuild_from sha256 m (length hashes) P) ≡ true
      → (old_root ≡ root sha256 (take m hashes)) ⊎ Collision sha256
  rebuilt_old_head hashes m old_root P one less h v acc =
      let (t, e, z, o, n) = agreed old_root (root sha256 hashes) _ acc in
      let honest = both_heads sha256 hashes m one less in
      elim (same_paths m (length hashes) P (old_path sha256 hashes m) t _ v
        (old_path-AllSized (length hashes) hashes m (omega arith) one (omega (arith, less)) h) e
        honest z refl n) [
          | inr c ↦ inr c
          | inl same ↦
              let e' = rw same at e in
              let t' : t ≡ both_at (root sha256 (take m hashes)) (root sha256 hashes) 0 0 = cc in
              inl (sym o ∙ ap (λ s. s.fr) t')
        ]

  -- If verify_consistency accepts a head of m leaves against the head of a list of leaf hashes, then
  -- it is the head of the first m of them, or there are two byte strings with one hash, when the
  -- hashes of the list and of the proof and the old head have the length of the hash's results.
  pub consistency_sound :
      (hashes : List Bytes) (m : ℕ) (old_root : Bytes) (proof : List Bytes)
      → All (λ x. length x ≡ size) hashes
      → length old_root ≡ size
      → All (λ x. length x ≡ size) proof
      → verify_consistency sha256 m old_root (length hashes) (root sha256 hashes) proof ≡ true
      → (old_root ≡ root sha256 (take m hashes)) ⊎ Collision sha256
  unfolding verify_consistency
  consistency_sound hashes m old_root proof h u v acc =
      elim (Bool-cases (ltb m 1 || ltb (length hashes) m)) [
        | inl out ↦ let acc' = rw out at acc in cc
        | inr inside ↦ elim (Bool-cases (m == length hashes)) [
          | inl same ↦
              let e : m ≡ length hashes = ground (arith, same) in
              let eq : bytes_eq old_root (root sha256 hashes) ≡ true =
                ground (arith, acc, inside, same) in
              inl (bytes_eq_eq _ _ eq ∙ ap (root sha256) (sym (take_all m hashes e)))
          | inr other ↦
              let one : 1 ≤ m = ground (arith, inside) in
              let less : m < length hashes = ground (arith, inside, other) in
              let path = if bit_and m (m - 1) == 0 then old_root ∷ proof else proof in
              let acc' = rw (inside, other) at acc in
              rebuilt_old_head hashes m old_root path one less h
                (elim (Bool-cases (bit_and m (m - 1) == 0)) [
                  | inl power ↦ rw power (u, v)
                  | inr no_power ↦ rw no_power v
                ])
                (elim (Bool-cases (is_empty proof)) [
                  | inl empty ↦ let acc'' = rw empty at acc' in cc
                  | inr full ↦ rw full at acc'
                ])
        ]
      ]
