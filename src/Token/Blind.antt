-- ===== src/Token/Blind.antt =====
-- The blind signatures of blindrange/token.py: what the issuer signs unblinds to a valid token.
use native.Mathlib.Nat.{
  mod-mod, mul_comm, mul_assoc, mod-eq_of_lt, mod-add-div, add-mul, add-mul-mod_self_left, pow-suc,
  pow-zero, mul-mul-mul_comm,
}
use blindrange.Prelude.{
  ℕ, zero, suc, ◌+◌, ◌*◌, ◌/◌, ◌%◌, ◌^◌, ◌<◌, ◌≡◌, refl, sym, ap, ◌∙◌, true, ==_refl, arith,
}
use blindrange.Token.{Bytes, fdh, blind, verify, sign_blinded, unblind}
use blindrange.Token.Hash.{AreBytes, fdh_lt}

mul_mod_left : (a b n : ℕ) → (a % n) * b % n ≡ a * b % n
mul_mod_left a b n =
    let split : a * b ≡ a % n * b + n * (a / n * b) =
      ap (λ (t : ℕ). t * b) (sym (mod-add-div a n))
      ∙ add-mul (a % n) (n * (a / n)) b
      ∙ ap (λ (t : ℕ). a % n * b + t) (mul_assoc n (a / n) b) in
    sym (ap (λ (t : ℕ). t % n) split ∙ add-mul-mod_self_left (a % n * b) n (a / n * b))

cong_mul : (n a a' b b' : ℕ) → a % n ≡ a' % n → b % n ≡ b' % n → a * b % n ≡ a' * b' % n
cong_mul n a a' b b' e f =
    sym (mul_mod_left a b n)
    ∙ ap (λ (t : ℕ). t * b % n) e
    ∙ mul_mod_left a' b n
    ∙ ap (λ (t : ℕ). t % n) (mul_comm a' b)
    ∙ sym (mul_mod_left b a' n)
    ∙ ap (λ (t : ℕ). t * a' % n) f
    ∙ mul_mod_left b' a' n
    ∙ ap (λ (t : ℕ). t % n) (mul_comm b' a')

pub cong_pow : (n a a' k : ℕ) → a % n ≡ a' % n → a ^ k % n ≡ a' ^ k % n
cong_pow n a a' zero e = rw (pow-zero a, pow-zero a') refl
cong_pow n a a' (suc k) e =
    rw (pow-suc a k, pow-suc a' k) (cong_mul n (a ^ k) (a' ^ k) a a' (cong_pow n a a' k e) e)

mul_pow : (a b k : ℕ) → (a * b) ^ k ≡ a ^ k * b ^ k
mul_pow a b zero = rw (pow-zero (a * b), pow-zero a, pow-zero b) (omega arith)
mul_pow a b (suc k) =
    rw (pow-suc (a * b) k, pow-suc a k, pow-suc b k)
      (ap (λ (t : ℕ). t * (a * b)) (mul_pow a b k) ∙ mul-mul-mul_comm (a ^ k) (b ^ k) a b)

-- What the source relies on of a key: raising to `d` and to `e` undo each other modulo `n`.
pub record IsRsaKey (n e d : ℕ) : Type 0 where
  pub sign_verify : (x : ℕ) → (x ^ d % n) ^ e % n ≡ x % n
  pub verify_sign : (x : ℕ) → (x ^ e % n) ^ d % n ≡ x % n

-- What `blind`, `sign_blinded` and `unblind` make of a nonce is a signature that `verify` accepts,
-- for an RSA key and a random number that has the inverse which `pow(r, -1, n)` returns.
pub unblind-verify :
    (sha256 : Bytes → Bytes)
    → ((m : Bytes) → AreBytes (sha256 m))
    → (inverse : ℕ → ℕ → ℕ) (n e d r : ℕ) → 0 < n
    → IsRsaKey n e d
    → r * inverse r n % n ≡ 1 % n
    → (tag nonce : Bytes)
    → verify sha256 tag nonce
        (unblind inverse (sign_blinded (blind sha256 tag nonce n e r) n d) r n)
        n
        e
      ≡ true
unfolding verify unblind sign_blinded blind
unblind-verify sha256 digest inverse n e d r pos key inv tag nonce =
    let m = fdh sha256 tag nonce n in
    let blinded = m * (r ^ e % n) % n in
    let signed : (blinded % n) ^ d % n ≡ m ^ d * r % n =
      cong_pow n (blinded % n) (m * (r ^ e % n)) d (mod-mod blinded n ∙ mod-mod (m * (r ^ e % n)) n)
      ∙ ap (λ (t : ℕ). t % n) (mul_pow m (r ^ e % n) d)
      ∙ cong_mul n (m ^ d) (m ^ d) ((r ^ e % n) ^ d) r refl (key.verify_sign r) in
    let sig = (blinded % n) ^ d % n * inverse r n % n in
    let unblinded : sig % n ≡ m ^ d % n % n =
      mod-mod _ n
      ∙ cong_mul n ((blinded % n) ^ d % n) (m ^ d * r) (inverse r n) (inverse r n)
          (mod-mod ((blinded % n) ^ d) n ∙ signed) refl
      ∙ ap (λ (t : ℕ). t % n) (mul_assoc (m ^ d) r (inverse r n))
      ∙ cong_mul n (m ^ d) (m ^ d) (r * inverse r n) 1 refl inv
      ∙ ap (λ (t : ℕ). t % n) (omega arith)
      ∙ sym (mod-mod (m ^ d) n) in
    let whole : sig ^ e % n ≡ m =
      cong_pow n sig (m ^ d % n) e unblinded
      ∙ key.sign_verify m
      ∙ mod-eq_of_lt (fdh_lt sha256 digest tag nonce n pos) in
    rw whole (==_refl m)
