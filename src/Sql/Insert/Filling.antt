-- ===== src/Sql/Insert/Filling.antt =====
-- The KEY columns of an INSERT of blindrange/sql.py: what the loop over them stores.
use blindrange.Prelude.{
  ℕ, ◌≡◌, ◌⊎◌, refl, sym, ap, ◌∙◌, true, false, List, [], ◌∷◌, if◌then◌else◌, String, str_eq,
  str_eq_iff, Option, some, Bool-cases, inl, inr,
}
use blindrange.Sql.{
  Text, Value, number, Column, key, stored, int, text_column, Columns, find, assign, Fields, Stored,
}
use blindrange.Sql.Insert.{text_or_empty, or_random, Filled, fill_key, fill_keys}

pub find-assign {ℓ} :
    {A : Type ℓ} (c d : String) (a : A) (xs : List (String × A))
    → find d (assign c a xs) ≡ (if str_eq c d then some a else find d xs)
unfolding assign
find-assign c d a [] = refl
find-assign c d a ((e, b) ∷ xs) = elim (Bool-cases (str_eq e c)) [
  | inl here ↦
      let same : e ≡ c = (str_eq_iff e c).0 here in
      rw (here, same) (elim (Bool-cases (str_eq c d)) [ inl t ↦ rw t refl | inr t ↦ rw t refl ])
  | inr other ↦ rw (other, find-assign c d a xs) (later (Bool-cases (str_eq e d)) other)
]
  where
    later :
        (str_eq e d ≡ true) ⊎ (str_eq e d ≡ false)
        → str_eq e c ≡ false
        → (if str_eq e d then some b else if str_eq c d then some a else find d xs)
          ≡ (if str_eq c d then some a else if str_eq e d then some b else find d xs)
    later (inl x) o = elim (Bool-cases (str_eq c d)) [
      | inl y ↦
          let one : e ≡ c = (str_eq_iff e d).0 x ∙ sym ((str_eq_iff c d).0 y) in
          let both : str_eq e c ≡ true = (str_eq_iff e c).1 one in cc
      | inr y ↦ rw (x, y) refl
    ]
    later (inr x) o = rw x refl

module _ (key_bucket : String → Text → ℕ) (random : ℕ → Text) where
  -- What is stored for the column `c` when its handle is `plain`.
  abbrev pub Holds : String → Text → Stored → Type 0
  Holds c plain r =
      (find c r.columns ≡ some (number (key_bucket c plain))) × (find c r.plain ≡ some plain)

  fill_key-Holds :
      (c d : String) (v : Option Value) (plain : Text) (s : Filled)
      → (str_eq d c ≡ true → or_random (text_or_empty v) (random s.draws) ≡ plain)
      → (str_eq d c ≡ false → Holds c plain s.row)
      → Holds c plain (fill_key key_bucket random d v s).row
  unfolding fill_key
  fill_key-Holds c d v plain s h g = elim (Bool-cases (str_eq d c)) [
    | inl here ↦
        let same : d ≡ c = (str_eq_iff d c).0 here in
        let p = h here in
        rw (find-assign, find-assign, here)
          (ap (λ t. some (number (key_bucket d t))) p ∙ rw same refl, ap some p)
    | inr other ↦ let (a, b) = g other in rw (find-assign, find-assign, other) (a, b)
  ]

  -- A column that is looked for stands here or later.
  stands :
      (c d : String) (spec : Column) (rest : Columns)
      → find c ((d, spec) ∷ rest) ≡ some key
      → ((str_eq d c ≡ true) × (spec ≡ key)) ⊎ ((str_eq d c ≡ false) × (find c rest ≡ some key))
  stands c d spec rest e = elim (Bool-cases (str_eq d c)) [
    | inl here ↦ let same = (rw here at e) in inl (here, cc)
    | inr other ↦ inr (other, (rw other at e))
  ]

  pub fill_keys-Holds :
      (c : String) (meta : Columns) (row : Fields) (plain : Text) (s : Filled)
      → ((n : ℕ) → or_random (text_or_empty (find c row)) (random n) ≡ plain)
      → (find c meta ≡ some key) ⊎ Holds c plain s.row
      → Holds c plain (fill_keys key_bucket random meta row s).row
  unfolding fill_keys
  fill_keys-Holds c [] row plain s h (inl e) = cc
  fill_keys-Holds c [] row plain s h (inr g) = g
  fill_keys-Holds c ((d, key) ∷ rest) row plain s h g =
      fill_keys-Holds c rest row plain (fill_key key_bucket random d (find d row) s) h (after g)
    where
      now : str_eq d c ≡ true → or_random (text_or_empty (find d row)) (random s.draws) ≡ plain
      now e =
          let same : d ≡ c = (str_eq_iff d c).0 e in
          ap (λ t. or_random (text_or_empty (find t row)) (random s.draws)) same ∙ h s.draws

      after :
          (find c ((d, key) ∷ rest) ≡ some key) ⊎ Holds c plain s.row
          → (find c rest ≡ some key)
            ⊎ Holds c plain (fill_key key_bucket random d (find d row) s).row
      after (inr k) = inr (fill_key-Holds c d (find d row) plain s now (λ e. k))
      after (inl e) = elim (stands c d key rest e) [
        | inl (here, t) ↦ inr (fill_key-Holds c d (find d row) plain s now (λ x. cc))
        | inr (other, t) ↦ inl t
      ]
  fill_keys-Holds c ((d, stored) ∷ rest) row plain s h (inr k) =
      fill_keys-Holds c rest row plain s h (inr k)
  fill_keys-Holds c ((d, stored) ∷ rest) row plain s h (inl e) = elim (stands c d stored rest e) [
    | inl (here, t) ↦ cc
    | inr (other, t) ↦ fill_keys-Holds c rest row plain s h (inl t)
  ]
  fill_keys-Holds c ((d, int bits blur) ∷ rest) row plain s h (inr k) =
      fill_keys-Holds c rest row plain s h (inr k)
  fill_keys-Holds c ((d, int bits blur) ∷ rest) row plain s h (inl e) =
      elim (stands c d (int bits blur) rest e) [
        | inl (here, t) ↦ cc
        | inr (other, t) ↦ fill_keys-Holds c rest row plain s h (inl t)
      ]
  fill_keys-Holds c ((d, text_column chars blur) ∷ rest) row plain s h (inr k) =
      fill_keys-Holds c rest row plain s h (inr k)
  fill_keys-Holds c ((d, text_column chars blur) ∷ rest) row plain s h (inl e) =
      elim (stands c d (text_column chars blur) rest e) [
        | inl (here, t) ↦ cc
        | inr (other, t) ↦ fill_keys-Holds c rest row plain s h (inl t)
      ]
