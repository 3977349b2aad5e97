-- ===== src/Sql/Where.antt =====
-- The WHERE clause of blindrange/sql.py: `_where`, `_narrow` and `_prefix`.
-- An upper bound is kept as the number after it, so that `col < 0` needs no negative number.
pub mod Bounds
pub mod Exact
pub mod Raises
use blindrange.Prelude.{
  ℕ, zero, suc, ◌+◌, ◌-◌, ◌*◌, ◌^◌, min, max, Bool, true, false, not, ◌&&◌, ◌||◌, List, [], ◌∷◌,
  ◌++◌, map, any, all, ltb, leb, ◌==◌, if◌then◌else◌, length, take, String, str_eq, Option, none,
  some, Result, ok, raise, unsupported, key_error, runtime_error, ◌>>=◌,
}
use blindrange.Sql.{
  Token, Tokens, next_kw, next_op, tail, eat_num, eat_str, eat_ident, expect_op, expect_kw, refused,
  Value, number, text, eat_value, Text, text_of, text_eq, starts_with, Column, key, stored, int,
  text_column, Columns, find, get_column, key_bits, Stored,
}

pub data Pred : Type 0 where
  range : String → ℕ → ℕ → Pred
  begins : String → Text → Pred

-- The filters that run on decrypted rows.
pub data Post : Type 0 where
  handle : String → Value → Post
  equals : String → Text → Post
  starts : String → Text → Post

abbrev pub Bounds : Type 0
Bounds = List (String × Option ℕ × Option ℕ)

pub record Narrowed : Type 0 where
  pub bounds : Bounds
  pub prefixes : List (String × Text)
  pub posts : List Post

abbrev pub raised : Option ℕ → Option ℕ → Option ℕ
raised old none = old
raised none (some lo) = some lo
raised (some old) (some lo) = some (max old lo)

abbrev pub lowered : Option ℕ → Option ℕ → Option ℕ
lowered old none = old
lowered none (some end) = some end
lowered (some old) (some end) = some (min old end)

unfoldable pub narrow_bounds : String → Option ℕ → Option ℕ → Bounds → Bounds
narrow_bounds col lo end [] = (col, raised none lo, lowered none end) ∷ []
narrow_bounds col lo end ((c, l, e) ∷ rest) =
    let others = narrow_bounds col lo end rest in
    if str_eq c col then (c, raised l lo, lowered e end) ∷ rest else (c, l, e) ∷ others

unfoldable pub narrow : String → Option ℕ → Option ℕ → Column → Narrowed → Result Narrowed
unfolding narrow_bounds
narrow col lo end (int bits blur) s = ok (record s { bounds = narrow_bounds col lo end s.bounds })
narrow col lo end _ s = raise unsupported

abbrev post_of : String → Text → ℕ → Bool → List Post
post_of col value chars exact =
    if exact
    then equals col value ∷ []
    else if ltb chars (length value)
    then starts col value ∷ []
    else []

unfoldable pub prefix : String → Text → Column → Bool → Narrowed → Result Narrowed
prefix col value (text_column chars blur) exact s =
    if any (λ p. str_eq p.0 col) s.prefixes
    then raise unsupported
    else ok (record s {
      prefixes = s.prefixes ++ (col, take chars value) ∷ [];
      posts = s.posts ++ post_of col value chars exact;
    })
prefix col value _ exact s = raise key_error

abbrev is_empty : Text → Bool
is_empty [] = true
is_empty (x ∷ xs) = false

abbrev with_char : ℕ → Option Text → Option Text
with_char c none = none
with_char c (some s) = some (c ∷ s)

-- A pattern of LIKE without its last character, if that is `%` and no other wildcard is there.
unfoldable pub like_prefix : Text → Option Text
like_prefix [] = none
like_prefix (c ∷ s) =
    let rest = with_char c (like_prefix s) in
    if c == b'%' then (if is_empty s then some [] else none) else if c == b'_' then none else rest

abbrev like_pattern : Text → Result Text
unfolding like_prefix
like_pattern pat = elim (like_prefix pat) [ none ↦ raise unsupported | some s ↦ ok s ]

unfoldable pub equality : String → Narrowed → Column → Tokens → Result (Narrowed × Tokens)
unfolding narrow prefix
equality col s (int bits blur) ts = eat_num ts >>= λ (v, t1).
    narrow col (some v) (some (v + 1)) (int bits blur) s >>= λ r. ok (r, t1)
equality col s spec ts = eat_str ts >>= λ (v, t1). prefix col v spec true s >>= λ r. ok (r, t1)

-- What follows the name of an indexed column that is no KEY.
unfoldable pub comparison : String → Column → Narrowed → Tokens → Result (Narrowed × Tokens)
unfolding narrow prefix like_prefix equality
comparison col spec s ts =
    if next_kw "BETWEEN" ts
    then (eat_num (tail ts) >>= λ (lo, t1). expect_kw "AND" t1 >>= λ t2.
        eat_num t2 >>= λ (hi, t3). narrow col (some lo) (some (hi + 1)) spec s >>= λ r. ok (r, t3))
    else if next_kw "LIKE" ts
    then (eat_str (tail ts) >>= λ (pat, t1).
        like_pattern pat >>= λ value. prefix col value spec false s >>= λ r. ok (r, t1))
    else if next_op "=" ts
    then equality col s spec (tail ts)
    else if next_op ">=" ts
    then (eat_num (tail ts) >>= λ (v, t1). narrow col (some v) none spec s >>= λ r. ok (r, t1))
    else if next_op ">" ts
    then (eat_num (tail ts) >>= λ (v, t1).
        narrow col (some (v + 1)) none spec s >>= λ r. ok (r, t1))
    else if next_op "<=" ts
    then (eat_num (tail ts) >>= λ (v, t1).
        narrow col none (some (v + 1)) spec s >>= λ r. ok (r, t1))
    else if next_op "<" ts
    then (eat_num (tail ts) >>= λ (v, t1). narrow col none (some v) spec s >>= λ r. ok (r, t1))
    else raise unsupported

abbrev bits_of : Column → ℕ
bits_of key = key_bits
bits_of stored = 0
bits_of (int bits blur) = bits
bits_of (text_column chars blur) = 0

abbrev low : Option ℕ → ℕ
low none = 0
low (some lo) = lo

abbrev high : Option ℕ → ℕ → ℕ
high none top = top
high (some end) top = min top end

abbrev add_pred : Pred → Option (List Pred) → Option (List Pred)
add_pred p none = none
add_pred p (some ps) = some (p ∷ ps)

abbrev pub with_prefixes :
    List (String × Text) → List Post → Option (List Pred) → Option (List Pred) × List Post
with_prefixes prefixes posts none = (none, [])
with_prefixes prefixes posts (some preds) =
    (some (preds ++ map (λ p. begins p.0 p.1) prefixes), posts)

abbrev pub nothing_narrowed : Narrowed
nothing_narrowed = record { bounds = []; prefixes = []; posts = [] }

module _ (meta : Columns) where
  -- Bounds are only of columns that have bits.
  unfoldable pub top_of : String → ℕ
  top_of col = elim (find col meta) [ none ↦ 1 | some spec ↦ 2 ^ bits_of spec ]

  -- The ranges, or none if one of them is empty.
  unfoldable pub ranges : Bounds → Option (List Pred)
  unfolding top_of
  ranges [] = some []
  ranges ((col, lo, end) ∷ rest) =
      let more = ranges rest in
      let to = high end (top_of col) in
      if leb to (low lo) then none else add_pred (range col (low lo) (to - 1)) more

module _ (key_bucket : String → Text → ℕ) (meta : Columns) where
  unfoldable pub on_key : String → Narrowed → Tokens → Result (Narrowed × Tokens)
  unfolding narrow eat_value text_of
  on_key col s ts = expect_op "=" ts >>= λ t1. eat_value t1 >>= λ (v, t2).
      let b = key_bucket col (text_of v) in
      narrow col (some b) (some (b + 1)) (int key_bits 0) s >>= λ r.
      ok (record r { posts = r.posts ++ handle col v ∷ [] }, t2)

  unfoldable pub on_column : String → Column → Narrowed → Tokens → Result (Narrowed × Tokens)
  unfolding on_key comparison
  on_column col key s ts = on_key col s ts
  on_column col stored s ts = raise unsupported
  on_column col spec s ts = comparison col spec s ts

  -- A round of the loop of `_where`.
  unfoldable pub condition : Narrowed → Tokens → Result (Narrowed × Tokens)
  unfolding on_column refused
  condition s ts =
      if refused ts
      then raise unsupported
      else (eat_ident ts >>= λ (col, t1). get_column col meta >>= λ spec. on_column col spec s t1)

  -- The loop, on fuel: a round reads tokens, so there are no more rounds than tokens.
  unfoldable pub conditions : ℕ → Narrowed → Tokens → Result (Narrowed × Tokens)
  unfolding condition
  conditions zero s ts = raise runtime_error
  conditions (suc f) s ts = condition s ts >>= λ (r, t1). elim (next_kw "AND" t1) [
    | true ↦ conditions f r (tail t1)
    | false ↦ ok (r, t1)
  ]

  -- The predicates and the filters, or no predicates if the conditions contradict each other.
  unfoldable pub where_clause : Tokens → Result ((Option (List Pred) × List Post) × Tokens)
  unfolding conditions ranges
  where_clause ts = conditions (suc (length ts)) nothing_narrowed ts >>= λ (s, t1).
      ok (with_prefixes s.prefixes s.posts (ranges meta s.bounds), t1)

abbrev text_or_none : Option Text → Text
text_or_none none = 78 ∷ 111 ∷ 110 ∷ 101 ∷ []
text_or_none (some t) = t

abbrev text_of_field : Option Value → Text
unfolding text_of
text_of_field none = []
text_of_field (some v) = text_of v

abbrev is_text : Option Value → Text → Bool
is_text (some (text s)) t = text_eq s t
is_text _ t = false

-- The filters on a decrypted row. `str(None)` is "None".
unfoldable pub passes : Post → Stored → Bool
unfolding text_of
passes (handle c v) r = text_eq (text_or_none (find c r.plain)) (text_of v)
passes (equals c v) r = is_text (find c r.columns) v
passes (starts c v) r = starts_with (text_of_field (find c r.columns)) v
