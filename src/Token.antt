-- ===== src/Token.antt =====
-- blindrange/token.py: blind signatures on the tokens that pay for writes; Token/Wallet has the
-- choice of the tokens.
-- A byte string is a list of numbers. `sha256` is a parameter, as is `inverse r n` for
-- `pow(r, -1, n)`; the random number of `blind` is an argument.
pub mod Hash
pub mod Blind
pub mod Wallet
use blindrange.Prelude.{
  ℕ, zero, suc, ◌+◌, ◌-◌, ◌*◌, ◌/◌, ◌%◌, ◌^◌, Bool, List, [], ◌∷◌, ◌++◌, ltb, ◌==◌, if◌then◌else◌,
  length, take, bit_length, Option, none, some, not,
}

abbrev pub Bytes : Type 0
Bytes = List ℕ

-- `counter.to_bytes(4, "big")`
abbrev pub to_bytes4 : ℕ → Bytes
to_bytes4 c = c / 16777216 ∷ (c / 65536 % 256 ∷ (c / 256 % 256 ∷ (c % 256 ∷ [])))

-- `int.from_bytes(…, "big")`, with what was read before.
unfoldable pub from_bytes : ℕ → Bytes → ℕ
from_bytes acc [] = acc
from_bytes acc (b ∷ bs) = from_bytes (acc * 256 + b) bs

abbrev pub nonce_bytes : ℕ
nonce_bytes = 32

module _ (sha256 : Bytes → Bytes) where
  -- The loop of `mgf1`, on fuel: `length` rounds are enough, since a digest has a byte.
  unfoldable pub mgf1_from : ℕ → Bytes → ℕ → ℕ → Bytes → Bytes
  mgf1_from zero seed len counter out = out
  mgf1_from (suc f) seed len counter out =
      let rest = mgf1_from f seed len (counter + 1) (out ++ sha256 (seed ++ to_bytes4 counter)) in
      if ltb (length out) len then rest else out

  unfoldable pub mgf1 : Bytes → ℕ → Bytes
  unfolding mgf1_from
  mgf1 seed len = take len (mgf1_from len seed len 0 [])

  -- `tag` is the string that is put before the message.
  unfoldable pub fdh : Bytes → Bytes → ℕ → ℕ
  unfolding mgf1 from_bytes
  fdh tag msg n =
      let bits = bit_length n - 1 in
      let nbytes = (bits + 7) / 8 in
      from_bytes 0 (mgf1 (tag ++ msg) nbytes) / 2 ^ (nbytes * 8 - bits)

  unfoldable pub blind : Bytes → Bytes → ℕ → ℕ → ℕ → ℕ
  unfolding fdh
  blind tag nonce n e r = fdh tag nonce n * (r ^ e % n) % n

  unfoldable pub verify : Bytes → Bytes → ℕ → ℕ → ℕ → Bool
  unfolding fdh
  verify tag nonce sig n e = sig ^ e % n == fdh tag nonce n

unfoldable pub sign_blinded : ℕ → ℕ → ℕ → ℕ
sign_blinded blinded n d = (blinded % n) ^ d % n

unfoldable pub unblind : (ℕ → ℕ → ℕ) → ℕ → ℕ → ℕ → ℕ
unblind inverse blind_sig r n = blind_sig * inverse r n % n
