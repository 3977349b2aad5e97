-- ===== src/Receipt/Signed.antt =====
-- The receipt that a node signs passes the checks of the aggregator and of the owner.
use blindrange.Prelude.{
  ℕ, ◌≤◌, ◌≡◌, refl, Bool, true, List, [], ◌∷◌, length, take, Option, some, ok, arith,
}
use blindrange.Receipt.{
  Text, same_text, beacon, distance, served_of, Receipt, with_nonce, kdigest_of, vdigest_of, signed,
  sign, verify_raw, verify, is_digest, matches,
}

same_text_refl : (x : Text) → same_text x x ≡ true
unfolding same_text
same_text_refl [] = refl
same_text_refl (x ∷ xs) = ground (arith, same_text_refl xs)

module _ (sha256 : Text → Text) (hex : Text → Text) (fromhex : Text → Option Text)
    (ed25519_verify : Text → Text → Text → Bool) (priv_sign : Text → Text) (pub_raw : Text)
    (hex_round : (x : Text) → fromhex (hex x) ≡ some x)
    (signature_verifies : (m : Text) → ed25519_verify pub_raw (priv_sign m) m ≡ true) where
  -- What a node signs with its key, under the id that derives from it, for a nonce in hex and an answer
  -- with no more values than keys were asked for: verify accepts it while the beacon is within the
  -- slack, and matches accepts it for the nonce, the keys and the values of the answer.
  pub sign-verify :
      (node_id nonce raw : Text) (keys : List Text) (values : List (Text × Option Text))
      (now later : ℕ)
      → take 16 (hex (sha256 pub_raw)) ≡ node_id
      → fromhex nonce ≡ some raw
      → served_of values ≤ length keys
      → distance (beacon now) (beacon later) ≤ 1
      → (r : Receipt) × (sign sha256 hex fromhex ed25519_verify priv_sign node_id pub_raw nonce keys
            values now
          ≡ ok r)
        × (verify sha256 hex fromhex ed25519_verify r later ≡ true)
        × (matches sha256 hex fromhex ed25519_verify r nonce keys values ≡ true)
  unfolding sign signed verify verify_raw kdigest_of vdigest_of with_nonce matches is_digest
  sign-verify node_id nonce raw keys values now later id nonce_hex served_le near = rw nonce_hex (
    _,
    refl,
    rw (hex_round, hex_round, id, same_text_refl, signature_verifies)
        (ground (arith, served_le, near)),
    rw (same_text_refl, same_text_refl, same_text_refl) (ground arith),
  )
