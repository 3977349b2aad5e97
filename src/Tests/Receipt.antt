-- ===== src/Tests/Receipt.antt =====
-- Runs of the functions of blindrange/receipt.py, and instances of the theorems about them.
use blindrange.Prelude.{
  ℕ, ◌+◌, ◌*◌, ◌%◌, ◌≡◌, refl, Bool, true, List, [], ◌∷◌, sum, length, bit_length, show, Option,
  some, none, ok, arith,
}
use blindrange.Receipt.{
  Text, Receipt, same_text, beacon, served_of, sign, verify, matches, text_leb, sort_by, solve,
  check, Report, set_pow,
}
use blindrange.Receipt.Signed.{sign-verify}
use blindrange.Receipt.Work.{solve-check}

abbrev checksum : Text → Text
checksum bs = (sum bs * 7 + length bs) % 251 ∷ []

-- Hex is the text itself here, and the signature of a message is the message.
abbrev fromhex : Text → Option Text
fromhex x = some x

abbrev same_signature : Text → Text → Text → Bool
same_signature pub_raw sig m = same_text sig m

abbrev identity : Text → Text
identity x = x

same_text_itself : (m : Text) → same_text m m ≡ true
unfolding same_text
same_text_itself [] = refl
same_text_itself (x ∷ xs) = ground (arith, same_text_itself xs)

abbrev two_keys : List Text
two_keys = (98 ∷ []) ∷ (97 ∷ []) ∷ []

abbrev one_value : List (Text × Option Text)
one_value = (97 ∷ [], some (5 ∷ [])) ∷ (98 ∷ [], none) ∷ []

keys_sorted : sort_by (λ k. k) two_keys ≡ (97 ∷ []) ∷ (98 ∷ []) ∷ []
unfolding sort_by text_leb
keys_sorted = refl

sign-verify_example :
    (r : Receipt) × (sign checksum identity fromhex same_signature identity
        (8 ∷ [])
        (1 ∷ [])
        (3 ∷ [])
        two_keys
        one_value
        700
      ≡ ok r)
    × (verify checksum identity fromhex same_signature r 1300 ≡ true)
    × (matches checksum identity fromhex same_signature r (3 ∷ []) two_keys one_value ≡ true)
sign-verify_example =
    sign-verify checksum identity fromhex same_signature identity (1 ∷ []) (λ x. refl)
      same_text_itself (8 ∷ []) (3 ∷ []) (3 ∷ []) two_keys one_value 700 1300 refl refl
      (unfold served_of in omega arith) (unfold beacon in omega arith)

abbrev digest_of : Text → ℕ
digest_of bs = 5 + sum bs % 2 * 100

abbrev dumps : Report → Text
dumps report = 1 ∷ []

abbrev report : Report
report = (97 ∷ [], 1 ∷ []) ∷ []

solve_finds : solve digest_of dumps report 252 10 ≡ ok (49 ∷ [])
unfolding solve show bit_length
solve_finds = refl

solve-check_example : check digest_of dumps (set_pow (49 ∷ []) report) 252 ≡ true
solve-check_example = solve-check digest_of dumps report 252 10 (49 ∷ []) (omega arith) solve_finds
