-- ===== src/Token/Hash.antt =====
-- `fdh` of blindrange/token.py: its values are below the modulus.
use native.Mathlib.Nat.{mul-le-mul_right, mul_assoc, mul_comm, pow-le-pow_right, div-lt_iff_lt-mul}
use blindrange.Prelude.{
  ℕ, zero, suc, ◌+◌, ◌-◌, ◌*◌, ◌/◌, ◌^◌, ◌≤◌, ◌<◌, ◌≡◌, sym, ap, ◌∙◌, [], ◌∷◌, ◌++◌, length,
  length-take, take, All, All-append, bit_length, bit_length_bounds, two_pow_add, two_pow_pos,
  arith, ltb, Bool-cases, inl, inr,
}
use blindrange.Token.{Bytes, to_bytes4, from_bytes, mgf1_from, mgf1, fdh}

abbrev pub AreBytes : Bytes → Type 0
AreBytes = All (λ b. b < 256)

from_bytes_lt :
    (acc : ℕ) (bs : Bytes) → AreBytes bs → from_bytes acc bs < (acc + 1) * 2 ^ (length bs * 8)
unfolding from_bytes
from_bytes_lt acc [] h = omega arith
from_bytes_lt acc (b ∷ bs) (hb, h) =
    let p = 2 ^ (length bs * 8) in
    let wide : 2 ^ (suc (length bs) * 8) ≡ 256 * p =
      ap (λ (t : ℕ). 2 ^ t) (omega arith) ∙ two_pow_add 8 (length bs * 8) in
    let step : (acc * 256 + b + 1) * p ≤ (acc + 1) * 256 * p =
      mul-le-mul_right p (omega (arith, hb)) in
    let shape : (acc + 1) * 256 * p ≡ (acc + 1) * (256 * p) = mul_assoc (acc + 1) 256 p in
    rw wide (omega (arith, from_bytes_lt (acc * 256 + b) bs h, step, shape))

take-AreBytes : (n : ℕ) (bs : Bytes) → AreBytes bs → AreBytes (take n bs)
take-AreBytes zero bs h = tt
take-AreBytes (suc n) [] h = tt
take-AreBytes (suc n) (b ∷ bs) (hb, h) = (hb, take-AreBytes n bs h)

module _ (sha256 : Bytes → Bytes) (digest : (m : Bytes) → AreBytes (sha256 m)) where
  mgf1_from-AreBytes :
      (f : ℕ) (seed : Bytes) (len counter : ℕ) (out : Bytes)
      → AreBytes out
      → AreBytes (mgf1_from sha256 f seed len counter out)
  unfolding mgf1_from
  mgf1_from-AreBytes zero seed len counter out h = h
  mgf1_from-AreBytes (suc f) seed len counter out h = elim (Bool-cases (ltb (length out) len)) [
    | inl more ↦ rw more (
        mgf1_from-AreBytes f seed len (counter + 1) _
          (All-append _ out _ h (digest (seed ++ to_bytes4 counter))))
    | inr done ↦ rw done h
  ]

  -- The full-domain hash of a message is below the modulus, when the digests are bytes.
  pub fdh_lt : (tag msg : Bytes) (n : ℕ) → 0 < n → fdh sha256 tag msg n < n
  unfolding fdh mgf1
  fdh_lt tag msg n pos =
      let bits = bit_length n - 1 in
      let nbytes = (bits + 7) / 8 in
      let bs = mgf1 sha256 (tag ++ msg) nbytes in
      let (low, high, one) = bit_length_bounds n pos in
      let short : length bs ≤ nbytes =
        omega (arith, length-take nbytes (mgf1_from sha256 nbytes (tag ++ msg) nbytes 0 [])) in
      let read : from_bytes 0 bs < (0 + 1) * 2 ^ (length bs * 8) =
        from_bytes_lt 0 bs
          (take-AreBytes nbytes _ (mgf1_from-AreBytes nbytes (tag ++ msg) nbytes 0 [] tt)) in
      let grow : 2 ^ (length bs * 8) ≤ 2 ^ (nbytes * 8) =
        pow-le-pow_right {n = 2} (omega arith) (omega (arith, short)) in
      let back : nbytes * 8 - bits + bits ≡ nbytes * 8 = omega arith in
      let parts : 2 ^ (nbytes * 8) ≡ 2 ^ (nbytes * 8 - bits) * 2 ^ bits =
        ap (λ (t : ℕ). 2 ^ t) (sym back) ∙ two_pow_add (nbytes * 8 - bits) bits in
      let quotient : from_bytes 0 bs / 2 ^ (nbytes * 8 - bits) < 2 ^ bits =
        (div-lt_iff_lt-mul (two_pow_pos (nbytes * 8 - bits))).1
          (omega (arith, read, grow, parts, mul_comm (2 ^ (nbytes * 8 - bits)) (2 ^ bits))) in
      omega (arith, quotient, low)
