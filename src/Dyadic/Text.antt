-- ===== src/Dyadic/Text.antt =====
-- The string encoding of blindrange/dyadic.py, over strings as lists of code points.
-- The proofs are in the children. `lower` is `str.lower` of one character, which may return more than one (it does for U+0130).
pub mod Prefix
pub mod Raises
use blindrange.Prelude.{
  ℕ, zero, suc, ◌+◌, ◌-◌, ◌*◌, ◌^◌, ◌≤◌, ◌<◌, ◌≡◌, refl, Bool, true, false, ◌&&◌, ◌||◌, List, [],
  ◌∷◌, ltb, leb, ◌==◌, if◌then◌else◌, bit_or, Result, ok, raise, type_error, ◌>>=◌,
}

-- `"a" <= c <= "z"`, by the order of strings.
abbrev pub in_alphabet : List ℕ → Bool
in_alphabet [] = false
in_alphabet (x ∷ []) = leb 97 x && leb x 122
in_alphabet (x ∷ y ∷ r) = leb 97 x && ltb x 122

-- `ord` raises on a string of more than one character.
unfoldable pub ord : List ℕ → Result ℕ
ord (x ∷ []) = ok x
ord _ = raise type_error

-- `_char5` of a character that is already lowered.
unfoldable pub code_of : List ℕ → Result ℕ
unfolding ord
code_of t = if in_alphabet t then (do x ← ord t; ok (x - 97 + 1)) else ok 0

module _ (lower : ℕ → List ℕ) where
  unfoldable pub char5 : ℕ → Result ℕ
  unfolding code_of
  char5 c = code_of (lower c)

  -- The loop of `encode_str`; what is left of `s` is `s[i:]`, and `n` is `chars - i`.
  unfoldable pub encode_from : ℕ → List ℕ → ℕ → Result ℕ
  encode_from zero s v = ok v
  encode_from (suc n) [] v = encode_from n [] (bit_or (v * 32) 0)
  encode_from (suc n) (c ∷ s) v = do x ← char5 c; encode_from n s (bit_or (v * 32) x)

  unfoldable pub encode_str : List ℕ → ℕ → Result ℕ
  unfolding char5 encode_from
  encode_str s chars = encode_from chars s 0

  unfoldable pub prefix_from : ℕ → List ℕ → ℕ → ℕ → Result (ℕ × ℕ)
  prefix_from zero p lo hi = ok (lo, hi)
  prefix_from (suc n) [] lo hi = prefix_from n [] (lo * 32) (bit_or (hi * 32) 31)
  prefix_from (suc n) (c ∷ p) lo hi = do
    x ← char5 c
    y ← char5 c
    prefix_from n p (bit_or (lo * 32) x) (bit_or (hi * 32) y)

  unfoldable pub prefix_range : List ℕ → ℕ → Result (ℕ × ℕ)
  unfolding char5 prefix_from
  prefix_range p chars = prefix_from chars p 0 0
