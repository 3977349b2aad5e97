-- ===== src/Sql.antt =====
-- blindrange/sql.py: tokens, the cursor over them, and what the statements share.
-- The cursor is the list of the tokens that are left. String literals are lists of code points, names
-- are strings. Messages are left out.
pub mod Where
pub mod Create
pub mod Insert
pub mod Select
pub mod Session
pub mod Update
pub mod Statements
pub mod Raises
pub mod Reads
use blindrange.Prelude.{
  bit_and, ◌^◌, ◌-◌, ℕ, zero, suc, ◌+◌, ◌*◌, Bool, true, false, not, ◌&&◌, ◌||◌, List, [], ◌∷◌,
  ◌++◌, map, any, ltb, leb, ◌==◌, if◌then◌else◌, length, drop, String, str_eq, Option, none, some,
  Result, ok, raise, unsupported, key_error, ◌>>=◌, show,
}

abbrev pub Text : Type 0
Text = List ℕ

pub data Token : Type 0 where
  str : Text → Token
  num : ℕ → Token
  kw : String → Token
  ident : String → Token
  op : String → Token

abbrev pub Tokens : Type 0
Tokens = List Token

-- `p.try_kw(w)` of one word, as a test: where it holds, the cursor moves on by `tail`.
abbrev pub next_kw : String → Tokens → Bool
next_kw w (kw v ∷ ts) = str_eq v w
next_kw w _ = false

abbrev pub next_op : String → Tokens → Bool
next_op o (op p ∷ ts) = str_eq p o
next_op o _ = false

abbrev pub tail : Tokens → Tokens
tail ts = drop 1 ts

-- `p.try_kw(*words)`: the cursor after all the words, or where it was.
unfoldable pub try_kws : List String → Tokens → Option Tokens
try_kws [] ts = some ts
try_kws (w ∷ ws) ts = let rest = try_kws ws (tail ts) in if next_kw w ts then rest else none

abbrev pub eat_num : Tokens → Result (ℕ × Tokens)
eat_num (num n ∷ ts) = ok (n, ts)
eat_num _ = raise unsupported

abbrev pub eat_str : Tokens → Result (Text × Tokens)
eat_str (str s ∷ ts) = ok (s, ts)
eat_str _ = raise unsupported

abbrev pub eat_ident : Tokens → Result (String × Tokens)
eat_ident (ident s ∷ ts) = ok (s, ts)
eat_ident _ = raise unsupported

abbrev pub expect_op : String → Tokens → Result Tokens
expect_op o ts = if next_op o ts then ok (tail ts) else raise unsupported

abbrev pub expect_kw : String → Tokens → Result Tokens
expect_kw w ts = if next_kw w ts then ok (tail ts) else raise unsupported

unfoldable pub done : Tokens → Result (Unit {0})
done [] = ok tt
done (op o ∷ ts) = let rest = done ts in if str_eq o ";" then rest else raise unsupported
done (t ∷ ts) = raise unsupported

-- The keywords of `_REFUSE`.
abbrev pub refusals : List String
refusals =
    "JOIN" ∷ "OR" ∷ "GROUP" ∷ "NOT" ∷ "IN" ∷ "NULL" ∷ "HAVING" ∷ "UNION" ∷ "AVG" ∷ "MIN" ∷ "MAX"
    ∷ "DRAIN" ∷ []

unfoldable pub refused : Tokens → Bool
refused (kw v ∷ ts) = any (str_eq v) refusals
refused _ = false

-- A value of a statement or of a record.
pub data Value : Type 0 where
  number : ℕ → Value
  text : Text → Value

unfoldable pub eat_value : Tokens → Result (Value × Tokens)
eat_value (num n ∷ ts) = ok (number n, ts)
eat_value (str s ∷ ts) = ok (text s, ts)
eat_value _ = raise unsupported

-- `str(v)`.
unfoldable pub text_of : Value → Text
text_of (number n) = show n
text_of (text s) = s

abbrev pub text_eq : Text → Text → Bool
text_eq [] [] = true
text_eq (x ∷ xs) (y ∷ ys) = x == y && text_eq xs ys
text_eq _ _ = false

abbrev pub starts_with : Text → Text → Bool
starts_with xs [] = true
starts_with [] (y ∷ ys) = false
starts_with (x ∷ xs) (y ∷ ys) = x == y && starts_with xs ys

-- A column of a table, with what its declaration says.
pub data Column : Type 0 where
  key stored : Column
  int : ℕ → ℕ → Column
  text_column : ℕ → ℕ → Column

abbrev pub Columns : Type 0
Columns = List (String × Column)

abbrev pub find {ℓ} : {A : Type ℓ} → String → List (String × A) → Option A
find c [] = none
find c ((d, a) ∷ rest) = let other = find c rest in if str_eq d c then some a else other

abbrev pub get_column : String → Columns → Result Column
get_column c columns = elim (find c columns) [ none ↦ raise unsupported | some column ↦ ok column ]

abbrev pub key_bits : ℕ
key_bits = 20

-- `d[c] = a`: a key that is there keeps its place.
unfoldable pub assign {ℓ} : {A : Type ℓ} → String → A → List (String × A) → List (String × A)
assign c a [] = (c, a) ∷ []
assign c a ((d, b) ∷ rest) =
    let others = assign c a rest in if str_eq d c then (d, a) ∷ rest else (d, b) ∷ others

-- `p.try_kw(*words)` whose result is not looked at.
abbrev pub skip_kws : List String → Tokens → Tokens
unfolding try_kws
skip_kws ws ts = elim (try_kws ws ts) [ none ↦ ts | some rest ↦ rest ]

-- A record of a statement: the columns with their values.
abbrev pub Fields : Type 0
Fields = List (String × Value)

-- A record as the owner stores it: the columns, and the handles that KEY columns hide.
pub record Stored : Type 0 where
  pub columns : Fields
  pub plain : List (String × Text)

-- `Owner.key_bucket` of blindrange/client.py; `hash` is the number of the first four bytes of the HMAC.
unfoldable pub key_bucket_of : (String → Text → ℕ) → String → Text → ℕ
key_bucket_of hash field value = bit_and (hash field value) (2 ^ key_bits - 1)
