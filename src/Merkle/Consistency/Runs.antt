-- ===== src/Merkle/Consistency/Runs.antt =====
-- Two runs of `verify_consistency`'s loop that end in one new head went up one path, or two byte
-- strings have one hash.
use blindrange.Prelude.{
  ℕ, ◌/◌, ◌%◌, ◌≡◌, ◌==◌, ◌||◌, refl, sym, ap, ap₂, ◌∙◌, List, [], ◌∷◌, ◌++◌, All, true, false,
  some, Bool-cases, inl, inr, ◌⊎◌, length, arith,
}
use blindrange.Merkle.{Bytes, bytes_eq, node_hash}
use blindrange.Merkle.Consistency.{Heads, lift, rebuild, rebuild_step}
use blindrange.Merkle.Consistency.Levels.{both_at}

pub bytes_eq_eq : (x y : Bytes) → bytes_eq x y ≡ true → x ≡ y
unfolding bytes_eq
bytes_eq_eq [] [] e = refl
bytes_eq_eq [] (y ∷ ys) e = cc
bytes_eq_eq (x ∷ xs) [] e = cc
bytes_eq_eq (x ∷ xs) (y ∷ ys) e =
    let h : x ≡ y = ground (arith, e) in
    ap₂ (λ t ts. t ∷ ts) h (bytes_eq_eq xs ys (ground (arith, e)))

append_inj : (a b c d : Bytes) → length a ≡ length c → a ++ b ≡ c ++ d → (a ≡ c) × (b ≡ d)
append_inj [] b [] d len e = (refl, e)
append_inj [] b (y ∷ c) d len e = absurd (omega arith)
append_inj (x ∷ a) b [] d len e = absurd (omega arith)
append_inj (x ∷ a) b (y ∷ c) d len e =
    let (p, q) = append_inj a b c d (omega arith) cc in
    let r : x ≡ y = cc in (ap₂ (λ t ts. t ∷ ts) r p, q)

module _ (sha256 : Bytes → Bytes) where
  -- Two byte strings with one hash.
  pub record Collision : Type 0 where
    pub first : Bytes
    pub second : Bytes
    pub differ : bytes_eq first second ≡ false
    pub same : sha256 first ≡ sha256 second

  module _ (size : ℕ) (sized : (x : Bytes) → length (sha256 x) ≡ size) where
    abbrev pub Sized : Bytes → Type 0
    Sized x = length x ≡ size

    pub node_hash-Sized : (a b : Bytes) → Sized (node_hash sha256 a b)
    unfolding node_hash
    node_hash-Sized a b = sized _

    node_hash_inj :
        (a b c d : Bytes)
        → Sized a
        → Sized c
        → node_hash sha256 a b ≡ node_hash sha256 c d
        → ((a ≡ c) × (b ≡ d)) ⊎ Collision
    unfolding node_hash
    node_hash_inj a b c d p q e = elim (Bool-cases (bytes_eq (1 ∷ a ++ b) (1 ∷ c ++ d))) [
      | inl eq ↦
          let same : a ++ b ≡ c ++ d = (let h = bytes_eq_eq _ _ eq in cc) in
          inl (append_inj a b c d (omega (arith, p, q)) same)
      | inr ne ↦ inr (record { first = 1 ∷ a ++ b; second = 1 ∷ c ++ d; differ = ne; same = e })
    ]

    -- The round goes up from a place in one of two ways, whatever the heads.
    up_cases :
        (i n : ℕ)
        → (i' : ℕ) × (n' : ℕ) × (((a b x : Bytes)
              → rebuild_step sha256 (both_at a b i n) x
                ≡ both_at (node_hash sha256 x a) (node_hash sha256 x b) i' n')
            ⊎ ((a b x : Bytes)
                → rebuild_step sha256 (both_at a b i n) x ≡ both_at a (node_hash sha256 b x) i' n'))
    unfolding rebuild_step
    up_cases i n = elim (Bool-cases (i % 2 == 1 || i == n)) [
      | inl both ↦ ((lift i i n).0 / 2, (lift i i n).1 / 2, inl (λ a b x. rw both refl))
      | inr one ↦ (i / 2, n / 2, inr (λ a b x. rw one refl))
    ]

    not_at_root :
        (a b x : Bytes) (i n : ℕ) (P : List Bytes) (t : Heads)
        → rebuild sha256 (both_at a b i n) (x ∷ P) ≡ some t
        → ((n == 0) ≡ false) × (rebuild sha256 (rebuild_step sha256 (both_at a b i n) x) P ≡ some t)
    unfolding rebuild
    not_at_root a b x i n P t e = elim (Bool-cases (n == 0)) [
      | inl z ↦ let e' = rw z at e in cc
      | inr nz ↦ (nz, rw nz at e)
    ]

    stopped : (s t : Heads) → rebuild sha256 s [] ≡ some t → s ≡ t
    unfolding rebuild
    stopped s t e = cc

    -- Two runs from one place that both come to the root, and to one new head, have one path.
    pub two_runs :
        (P P' : List Bytes) (a b a' b' : Bytes) (i n : ℕ) (t t' : Heads)
        → Sized b
        → Sized b'
        → All Sized P
        → All Sized P'
        → rebuild sha256 (both_at a b i n) P ≡ some t
        → rebuild sha256 (both_at a' b' i n) P' ≡ some t'
        → t.sn ≡ 0
        → t'.sn ≡ 0
        → t.sr ≡ t'.sr
        → ((b ≡ b') × (P ≡ P')) ⊎ Collision
    two_runs [] [] a b a' b' i n t t' u u' v v' e e' z z' h =
        let p = stopped _ t e in
        let p' = stopped _ t' e' in inl (ap (λ s. s.sr) p ∙ h ∙ sym (ap (λ s. s.sr) p'), refl)
    two_runs [] (x ∷ P') a b a' b' i n t t' u u' v v' e e' z z' h =
        let p = ap (λ s. s.sn) (stopped _ t e) in
        let (nz, _) = not_at_root a' b' x i n P' t' e' in absurd (ground (arith, p, z, nz))
    two_runs (x ∷ P) [] a b a' b' i n t t' u u' v v' e e' z z' h =
        let p = ap (λ s. s.sn) (stopped _ t' e') in
        let (nz, _) = not_at_root a b x i n P t e in absurd (ground (arith, p, z', nz))
    two_runs (x ∷ P) (x' ∷ P') a b a' b' i n t t' u u' (vx, v) (vx', v') e e' z z' h =
        let (_, r) = not_at_root a b x i n P t e in
        let (_, r') = not_at_root a' b' x' i n P' t' e' in
        let (i2, n2, ways) = up_cases i n in
        elim ways [
          | inl up ↦
              elim (two_runs P P' (node_hash sha256 x a) (node_hash sha256 x b)
                (node_hash sha256 x' a') (node_hash sha256 x' b') i2 n2 t t' (node_hash-Sized _ _)
                (node_hash-Sized _ _) v v' (rw up at r) (rw up at r') z z' h) [
                  | inr c ↦ inr c
                  | inl (s, q) ↦ elim (node_hash_inj x b x' b' vx vx' s) [
                    | inr c ↦ inr c
                    | inl (p, w) ↦ inl (w, ap₂ (λ y ys. y ∷ ys) p q)
                  ]
                ]
          | inr up ↦
              elim (two_runs P P' a (node_hash sha256 b x) a' (node_hash sha256 b' x') i2 n2 t t'
                (node_hash-Sized _ _) (node_hash-Sized _ _) v v' (rw up at r) (rw up at r') z z'
                h) [
                  | inr c ↦ inr c
                  | inl (s, q) ↦ elim (node_hash_inj b x b' x' u u' s) [
                    | inr c ↦ inr c
                    | inl (w, p) ↦ inl (w, ap₂ (λ y ys. y ∷ ys) p q)
                  ]
                ]
        ]
