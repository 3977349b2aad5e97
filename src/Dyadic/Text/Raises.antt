-- ===== src/Dyadic/Text/Raises.antt =====
-- When `encode_str` raises.
use blindrange.Prelude.{
  ℕ, zero, suc, ◌+◌, ◌*◌, ◌≡◌, ◌↔◌, Bool, true, false, ◌&&◌, List, [], ◌∷◌, ◌-◌, Bool-cases, leb,
  ltb, length, take, any, ok, raise, type_error, arith, bit_or, ◌⊎◌, inl, inr, refl,
}
use blindrange.Dyadic.Text.{in_alphabet, code_of, char5, encode_from, encode_str}

-- The lowered character is longer than one character, and between "a" and "z".
abbrev pub expands : List ℕ → Bool
expands t = in_alphabet t && ltb 1 (length t)

code_of-cases :
    (t : List ℕ)
    → ((expands t ≡ true) × (code_of t ≡ raise type_error))
      ⊎ ((expands t ≡ false) × (x : ℕ) × (code_of t ≡ ok x))
unfolding code_of
code_of-cases [] = inr (refl, 0, refl)
code_of-cases (x ∷ []) = elim (Bool-cases (leb 97 x && leb x 122)) [
  | inl t ↦ inr (ground arith, x - 97 + 1, rw t)
  | inr f ↦ inr (ground arith, 0, rw f)
]
code_of-cases (x ∷ y ∷ r) = elim (Bool-cases (leb 97 x && ltb x 122)) [
  | inl t ↦ inl (ground arith, rw t)
  | inr f ↦ inr (ground arith, 0, rw f)
]

none_left : (n : ℕ) (p : ℕ → Bool) → any p (take n []) ≡ true → any p (take (suc n) []) ≡ true
none_left zero p e = e
none_left (suc n) p e = e

module _ (lower : ℕ → List ℕ) where
  encode_from_raises :
      (n : ℕ) (s : List ℕ) (v : ℕ)
      → (encode_from lower n s v ≡ raise type_error)
        ↔ (any (λ c. expands (lower c)) (take n s) ≡ true)
  unfolding encode_from char5
  encode_from_raises zero s v = (λ e. cc, λ e. cc)
  encode_from_raises (suc n) [] v =
      let ih = (encode_from_raises n [] (bit_or (v * 32) 0)).0 in
      (λ e. none_left n _ (ih e), λ e. cc)
  encode_from_raises (suc n) (c ∷ s) v = elim (code_of-cases (lower c)) [
    | inl (e, r) ↦ rw (e, r) (λ _. refl, λ _. refl)
    | inr (e, x, r) ↦ rw (e, r) (encode_from_raises n s (bit_or (v * 32) x))
  ]

  -- `encode_str` raises exactly if one of the first `chars` characters is lowered to more than one
  -- character that lies between "a" and "z", as U+0130 is.
  pub encode_str_raises :
      (s : List ℕ) (chars : ℕ)
      → (encode_str lower s chars ≡ raise type_error)
        ↔ (any (λ c. expands (lower c)) (take chars s) ≡ true)
  unfolding encode_str
  encode_str_raises s chars = encode_from_raises chars s 0
