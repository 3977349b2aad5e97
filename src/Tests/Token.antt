-- ===== src/Tests/Token.antt =====
-- Runs of the functions of blindrange/token.py, and instances of the theorems about them.
use native.Mathlib.Nat.{mod-lt, mod-mod}
use blindrange.Prelude.{
  ℕ, zero, suc, ◌+◌, ◌*◌, ◌%◌, ◌^◌, ◌≤◌, ◌<◌, ◌≡◌, refl, sym, ap, ◌∙◌, true, Bool, [], ◌∷◌, ◌==◌,
  ==_iff, all, range_from, length, sum, arith, inl, inr, ◌⊎◌, subst, some, none, max, List,
}
use blindrange.Token.{Bytes, blind, verify, sign_blinded, unblind}
use blindrange.Token.Hash.{AreBytes}
use blindrange.Token.Wallet.{Token, balance, take_for, take_for-covers}
use blindrange.Token.Blind.{cong_pow, IsRsaKey, unblind-verify}

abbrev checksum : Bytes → Bytes
checksum bs = (sum bs * 7 + length bs) % 256 ∷ []

checksum-AreBytes : (m : Bytes) → AreBytes (checksum m)
checksum-AreBytes m = (mod-lt (sum m * 7 + length m) (omega arith), tt)

below : (p : ℕ → Bool) (s n y : ℕ) → all p (range_from s n) ≡ true → s ≤ y → y < s + n → p y ≡ true
below p s zero y h low high = absurd (omega arith)
below p s (suc n) y h low high = elim (same_or_above s y low) [
  | inl e ↦ subst (λ t. p t ≡ true) e (ground arith)
  | inr above ↦ below p (suc s) n y (ground arith) above (omega arith)
]
  where
    same_or_above : (s y : ℕ) → s ≤ y → (s ≡ y) ⊎ (suc s ≤ y)
    same_or_above s y h = ground arith

-- The key with modulus 15 and both exponents 3.
cubes : (y : ℕ) → y < 15 → (y ^ 3 % 15) ^ 3 % 15 ≡ y
cubes y h =
    (==_iff ((y ^ 3 % 15) ^ 3 % 15) y).0
      (below (λ x. (x ^ 3 % 15) ^ 3 % 15 == x) 0 15 y refl (omega arith) (omega (arith, h)))

cubes_all : (x : ℕ) → (x ^ 3 % 15) ^ 3 % 15 ≡ x % 15
cubes_all x =
    cong_pow 15 (x ^ 3 % 15) ((x % 15) ^ 3 % 15) 3
      (ap (λ (t : ℕ). t % 15) (cong_pow 15 x (x % 15) 3 (sym (mod-mod x 15))))
    ∙ cubes (x % 15) (mod-lt x (omega arith))

key : IsRsaKey 15 3 3
key = record { sign_verify = cubes_all; verify_sign = cubes_all }

-- The inverse of 2 modulo 15.
abbrev inverse : ℕ → ℕ → ℕ
inverse r n = 8

unblind-verify_example :
    verify checksum
      (9 ∷ [])
      (5 ∷ [])
      (unblind inverse (sign_blinded (blind checksum (9 ∷ []) (5 ∷ []) 15 3 2) 15 3) 2 15)
      15
      3
    ≡ true
unblind-verify_example =
    unblind-verify checksum checksum-AreBytes inverse 15 3 3 2 (omega arith) key refl (9 ∷ [])
      (5 ∷ [])

-- Tokens worth 10, 1000 and 100 keys pay for 1005: the second pick of 100 is traded for 10.
abbrev purse : List Token
purse = (1, 10) ∷ (2, 1000) ∷ (3, 100) ∷ []

take_for_runs : take_for 1005 purse ≡ some ((1, 10) ∷ (2, 1000) ∷ [], (3, 100) ∷ [])
unfolding take_for
take_for_runs = refl

take_for-covers_example :
    ((take_for 1005 purse ≡ none) × (balance purse < max 1 1005))
    ⊎ ((chosen : List Token) × (left : List Token) × (take_for 1005 purse ≡ some (chosen, left))
        × (max 1 1005 ≤ balance chosen)
        × (max 1 1005 ≤ balance purse))
take_for-covers_example = take_for-covers 1005 purse
