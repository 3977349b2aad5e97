-- ===== src/Dyadic/Text/Prefix.antt =====
-- `prefix_range` against `encode_str`: a prefix query as a range of integers.
use native.Mathlib.Nat.{pow-suc, mul-le-mul_right, le_antisymm}
use mathlib.Core.Path.{subst}
use mathlib.Core.List.{tail}
use blindrange.Prelude.{
  ℕ, zero, suc, ◌+◌, ◌*◌, ◌^◌, ◌≤◌, ◌<◌, ◌≡◌, refl, ◌↔◌, List, [], ◌∷◌, Result, ok, arith, bit_or,
  bit_or_shift, bind-returns,
}
use blindrange.Dyadic.Text.{code_of, char5, encode_from, encode_str, prefix_from, prefix_range}

-- The numbers that begin with the digits `u`, where `n` digits of five bits are still to come.
abbrev Within : ℕ → ℕ → ℕ → Type 0
Within n u v = (u * 32 ^ n ≤ v) × (v < (u + 1) * 32 ^ n)

Within-digit : (n u x v : ℕ) → x < 32 → Within n (u * 32 + x) v → Within (suc n) u v
Within-digit n u x v h (low, high) =
    let p = 32 ^ n in
    let m : suc x * p ≤ 32 * p = mul-le-mul_right p h in
    rw pow-suc (omega (arith, low), omega (arith, high, m))

-- Different digits before the same number of further digits make different numbers.
Within-apart : (n u w v : ℕ) → Within n u v → Within n w v → u ≡ w
Within-apart n u w v (a, b) (c, d) =
    le_antisymm (bound u w (omega (arith, a, d))) (bound w u (omega (arith, c, b)))
  where
    bound : (x y : ℕ) → x * 32 ^ n < (y + 1) * 32 ^ n → x ≤ y
    bound x y h = grind arith

Within-done : (u : ℕ) → Within 0 u u
Within-done u = (omega arith, omega arith)

code_of-lt : (t : List ℕ) (x : ℕ) → code_of t ≡ ok x → x < 32
unfolding code_of
code_of-lt [] x h = ground arith
code_of-lt (y ∷ []) x h = ground arith
code_of-lt (y ∷ z ∷ r) x h = ground arith

module _ (lower : ℕ → List ℕ) where
  -- What is still to be read adds fewer than 32 ^ n to the number read so far.
  encode_from-Within :
      (n : ℕ) (s : List ℕ) (u v : ℕ) → encode_from lower n s u ≡ ok v → Within n u v
  unfolding encode_from char5
  encode_from-Within zero s u v h = ground (arith, Within-done u)
  encode_from-Within (suc n) [] u v h =
      Within-digit n u 0 v (omega arith)
        (encode_from-Within n [] (u * 32 + 0) v (rw (← bit_or_shift u 0 (omega arith)) h))
  encode_from-Within (suc n) (c ∷ s) u v h =
      let (x, e, rest) = bind-returns (char5 lower c) _ h in
      let b = code_of-lt (lower c) x e in
      Within-digit n u x v b
        (encode_from-Within n s (u * 32 + x) v (rw (← bit_or_shift u x b) rest))

  -- The code of the next character of a string, padded with code 0.
  abbrev pub next : List ℕ → Result ℕ
  next [] = ok 0
  next (c ∷ s) = char5 lower c

  -- The first `n` characters of a string have the codes of the prefix, as far as it goes.
  abbrev pub Agree : ℕ → List ℕ → List ℕ → Type 0
  Agree zero p s = Unit
  Agree (suc n) [] s = Unit
  Agree (suc n) (c ∷ p) s = (char5 lower c ≡ next s) × Agree n p (tail s)

  next-lt : (s : List ℕ) (x : ℕ) → next s ≡ ok x → x < 32
  unfolding char5
  next-lt [] x h = ground arith
  next-lt (c ∷ s) x h = code_of-lt (lower c) x h

  encode_from-next :
      (n : ℕ) (s : List ℕ) (u v : ℕ)
      → encode_from lower (suc n) s u ≡ ok v
      → (y : ℕ) × (next s ≡ ok y) × (encode_from lower n (tail s) (u * 32 + y) ≡ ok v)
  unfolding encode_from
  encode_from-next n [] u v h = (0, refl, rw (← bit_or_shift u 0 (omega arith)) h)
  encode_from-next n (c ∷ s) u v h =
      let (x, e, rest) = bind-returns (char5 lower c) _ h in
      (x, e, rw (← bit_or_shift u x (next-lt (c ∷ s) x e)) rest)

  prefix_from-next :
      (n c : ℕ) (p : List ℕ) (u : ℕ) (r : ℕ × ℕ)
      → prefix_from lower (suc n) (c ∷ p) u u ≡ ok r
      → (x : ℕ) × (char5 lower c ≡ ok x) × (prefix_from lower n p (u * 32 + x) (u * 32 + x) ≡ ok r)
  unfolding prefix_from
  prefix_from-next n c p u r h =
      let (x, e, rest) = bind-returns (char5 lower c) _ h in
      let (y, e', rest') = bind-returns (char5 lower c) _ rest in
      let same : y ≡ x = ground (arith, e, e') in
      (
        x,
        e,
        rw (← bit_or_shift u x (next-lt (c ∷ []) x e)) (
            subst (λ t. prefix_from lower n p (bit_or (u * 32) x) (bit_or (u * 32) t) ≡ ok r) same
              rest'),
      )

  prefix_from-nil :
      (n lo hi : ℕ)
      → (l : ℕ) × (h : ℕ) × (prefix_from lower n [] lo hi ≡ ok (l, h))
        × (l ≡ lo * 32 ^ n)
        × (h + 1 ≡ (hi + 1) * 32 ^ n)
  unfolding prefix_from
  prefix_from-nil zero lo hi = (lo, hi, refl, omega arith, omega arith)
  prefix_from-nil (suc n) lo hi =
      let (l, h, e, el, eh) = prefix_from-nil n (lo * 32) (hi * 32 + 31) in
      (
        l,
        h,
        rw (bit_or_shift hi 31 (omega arith)) e,
        rw pow-suc (omega (arith, el)),
        rw pow-suc (omega (arith, eh)),
      )

  abbrev Ends : ℕ → ℕ → ℕ × ℕ → Type 0
  Ends n u r = (u * 32 ^ n ≤ r.0) × (r.1 < (u + 1) * 32 ^ n)

  Ends-digit : (n u x : ℕ) (r : ℕ × ℕ) → x < 32 → Ends n (u * 32 + x) r → Ends (suc n) u r
  Ends-digit n u x (lo, hi) h (low, high) =
      let p = 32 ^ n in
      let m : suc x * p ≤ 32 * p = mul-le-mul_right p h in
      rw pow-suc (omega (arith, low), omega (arith, high, m))

  nil_ends :
      (n u : ℕ) (r : ℕ × ℕ)
      → prefix_from lower n [] u u ≡ ok r
      → (u * 32 ^ n ≡ r.0) × (r.1 + 1 ≡ (u + 1) * 32 ^ n)
  nil_ends n u r e = let (l, h, e', el, eh) = prefix_from-nil n u u in ground (arith, e, e', el, eh)

  prefix_from-Ends :
      (n : ℕ) (p : List ℕ) (u : ℕ) (r : ℕ × ℕ) → prefix_from lower n p u u ≡ ok r → Ends n u r
  prefix_from-Ends n [] u (lo, hi) e =
      let (a, b) = nil_ends n u (lo, hi) e in (omega (arith, a), omega (arith, b))
  prefix_from-Ends zero (c ∷ p) u (lo, hi) e = unfold prefix_from in ground arith
  prefix_from-Ends (suc n) (c ∷ p) u (lo, hi) e =
      let (x, ex, rest) = prefix_from-next n c p u (lo, hi) e in
      Ends-digit n u x (lo, hi) (next-lt (c ∷ []) x ex)
        (prefix_from-Ends n p (u * 32 + x) (lo, hi) rest)

  -- The integers of the prefix's range are those whose strings begin with the prefix.
  in_range :
      (n : ℕ) (p s : List ℕ) (u v lo hi : ℕ)
      → prefix_from lower n p u u ≡ ok (lo, hi)
      → encode_from lower n s u ≡ ok v
      → ((lo ≤ v) × (v ≤ hi)) ↔ Agree n p s
  in_range zero p s u v lo hi ep es =
      unfold prefix_from encode_from in (λ _. tt, λ _. (ground arith, ground arith))
  in_range (suc n) [] s u v lo hi ep es =
      let (a, b) = nil_ends (suc n) u (lo, hi) ep in
      let (c, d) = encode_from-Within (suc n) s u v es in
      (λ _. tt, λ _. (omega (arith, a, c), omega (arith, b, d)))
  in_range (suc n) (c ∷ p) s u v lo hi ep es =
      let (x, ex, rest) = prefix_from-next n c p u (lo, hi) ep in
      let (y, ey, rest') = encode_from-next n s u v es in
      let ih = λ (q : y ≡ x).
        in_range n p (tail s) (u * 32 + x) v lo hi rest
          (subst (λ t. encode_from lower n (tail s) (u * 32 + t) ≡ ok v) q rest') in
      let (low, high) = prefix_from-Ends n p (u * 32 + x) (lo, hi) rest in
      let (low', high') = encode_from-Within n (tail s) (u * 32 + y) v rest' in
      let same = λ (h : (lo ≤ v) × (v ≤ hi)).
        let e : u * 32 + y ≡ u * 32 + x =
          Within-apart n (u * 32 + y) (u * 32 + x) v (low', high')
            (omega (arith, low, h.0), omega (arith, high, h.1)) in
        let q : y ≡ x = omega (arith, e) in q in
      (λ h. (cc (ex, ey, same h), (ih (same h)).0 h), λ g. (ih (ground (arith, ex, ey, g.0))).1 g.1)

  -- When both calls return, the code of a string lies in a prefix's range exactly if the codes of
  -- its first `chars` characters, padded with code 0, agree with those of the prefix.
  pub prefix_query_exact :
      (p s : List ℕ) (chars v lo hi : ℕ)
      → prefix_range lower p chars ≡ ok (lo, hi)
      → encode_str lower s chars ≡ ok v
      → ((lo ≤ v) × (v ≤ hi)) ↔ Agree chars p s
  unfolding prefix_range encode_str
  prefix_query_exact p s chars v lo hi ep es = in_range chars p s 0 v lo hi ep es
