-- ===== src/Sql/Insert.antt =====
-- INSERT of blindrange/sql.py: `_check_value`, the parsing of `_insert` and the records that it makes.
pub mod Filling
pub mod Handles
use blindrange.Prelude.{
  ℕ, zero, suc, ◌+◌, ◌-◌, ◌^◌, Bool, true, false, not, ◌&&◌, ◌||◌, List, [], ◌∷◌, ◌++◌, map, any,
  all, ltb, leb, ◌==◌, if◌then◌else◌, length, String, str_eq, Option, none, some, Result, ok, raise,
  unsupported, runtime_error, key_error, ◌>>=◌,
}
use blindrange.Sql.{
  Text, Tokens, next_kw, next_op, tail, eat_ident, eat_value, expect_op, expect_kw, done, Value,
  number, text, text_of, Column, key, stored, int, text_column, Columns, find, assign, skip_kws,
  Fields, Stored,
}

unfoldable pub check_value : Column → Value → Result (Unit {0})
check_value (int bits blur) (number v) = if ltb v (2 ^ bits) then ok tt else raise unsupported
check_value (int bits blur) (text s) = raise unsupported
check_value (text_column chars blur) (number v) = raise unsupported
check_value (text_column chars blur) (text s) = ok tt
check_value _ v = ok tt

-- A list in parentheses whose first one is read already, on fuel: a round reads tokens.
module _ {A : Type 0} (eat : Tokens → Result (A × Tokens)) where
  unfoldable pub items : ℕ → Tokens → Result (List A × Tokens)
  items zero ts = raise runtime_error
  items (suc f) ts = eat ts >>= λ (a, t1).
      if next_op ")" t1
      then ok (a ∷ [], tail t1)
      else (expect_op "," t1 >>= λ t2. items f t2 >>= λ (rest, t3). ok (a ∷ rest, t3))

-- `dict(zip(cols, vals))`
unfoldable pub zip_fields : Fields → List String → List Value → Fields
unfolding assign
zip_fields row (c ∷ cols) (v ∷ vals) = zip_fields (assign c v row) cols vals
zip_fields row _ _ = row

abbrev pub is_key : Column → Bool
is_key key = true
is_key _ = false

abbrev pub is_stored : Column → Bool
is_stored stored = true
is_stored _ = false

abbrev pub given : List String → String → Bool
given cols c = any (str_eq c) cols

-- `_check_value` of each indexed column of a row that is no KEY.
unfoldable pub check_row : Columns → Fields → Result (Unit {0})
unfolding check_value
check_row [] row = ok tt
check_row ((c, spec) ∷ rest) row =
    if is_stored spec || is_key spec
    then check_row rest row
    else (elim (find c row) [ none ↦ raise key_error | some v ↦ check_value spec v ] >>= λ _.
        check_row rest row)

unfoldable pub value_row : Columns → List String → List Value → Result Fields
unfolding zip_fields check_row
value_row meta cols vals =
    if not (length vals == length cols)
    then raise unsupported
    else (let row = zip_fields [] cols vals in check_row meta row >>= λ _. ok row)

-- The rows of VALUES, on fuel.
unfoldable pub value_rows : ℕ → Columns → List String → Tokens → Result (List Fields × Tokens)
unfolding items value_row eat_value
value_rows zero meta cols ts = raise runtime_error
value_rows (suc f) meta cols ts = expect_op "(" ts >>= λ t1.
    items eat_value (suc (length t1)) t1 >>= λ (vals, t2). value_row meta cols vals >>= λ row.
    (if next_op "," t2
      then (value_rows f meta cols (tail t2) >>= λ (rows, t3). ok (row ∷ rows, t3))
      else ok (row ∷ [], t2))

abbrev pub missing : Columns → List String → Bool
missing meta cols = any (λ p. not (is_stored p.1) && not (is_key p.1) && not (given cols p.0)) meta

abbrev pub unknown : Columns → List String → Bool
unknown meta cols = any (λ c. not (given (map (λ p. p.0) meta) c)) cols

-- `_insert` up to the rows; `columns_of` is `_meta`.
unfoldable pub insert_rows :
    (String → Result Columns) → Tokens → Result (String × Columns × List Fields)
unfolding items value_rows done
insert_rows columns_of ts = eat_ident (skip_kws ("INSERT" ∷ "INTO" ∷ []) ts) >>= λ (name, t1).
    columns_of name >>= λ meta. expect_op "(" t1 >>= λ t2.
    items eat_ident (suc (length t2)) t2 >>= λ (cols, t3).
    if unknown meta cols || missing meta cols
    then raise unsupported
    else (expect_kw "VALUES" t3 >>= λ t4.
        value_rows (suc (length t4)) meta cols t4 >>= λ (rows, t5).
        done t5 >>= λ _. ok (name, meta, rows))

-- `str(row.get(c) or "")`: nothing, 0 and the empty text all give the empty text.
unfoldable pub text_or_empty : Option Value → Text
unfolding text_of
text_or_empty none = []
text_or_empty (some (number zero)) = []
text_or_empty (some (number (suc n))) = text_of (number (suc n))
text_or_empty (some (text s)) = s

-- `... or os.urandom(12).hex()`
unfoldable pub or_random : Text → Text → Text
or_random [] random = random
or_random (x ∷ xs) random = x ∷ xs

-- `c not in row or row.get(c) in ("", None)`
unfoldable pub is_generated : Option Value → Bool
is_generated none = true
is_generated (some (number n)) = false
is_generated (some (text [])) = true
is_generated (some (text (x ∷ xs))) = false

abbrev without_keys : Columns → Fields → Fields
without_keys meta [] = []
without_keys meta ((c, v) ∷ rest) =
    if any (λ p. is_key p.1 && str_eq p.0 c) meta
    then without_keys meta rest
    else (c, v) ∷ without_keys meta rest

pub record Filled : Type 0 where
  pub row : Stored
  pub generated : List Text
  pub draws : ℕ

-- `random n` is what the n-th KEY column that is filled would draw.
module _ (key_bucket : String → Text → ℕ) (random : ℕ → Text) where
  -- The body of the loop over the KEY columns.
  unfoldable pub fill_key : String → Option Value → Filled → Filled
  unfolding text_or_empty or_random is_generated assign
  fill_key c v s =
      let plain = or_random (text_or_empty v) (random s.draws) in
      record {
        row = record {
          columns = assign c (number (key_bucket c plain)) s.row.columns;
          plain = assign c plain s.row.plain;
        };
        generated = if is_generated v then s.generated ++ plain ∷ [] else s.generated;
        draws = s.draws + 1;
      }

  unfoldable pub fill_keys : Columns → Fields → Filled → Filled
  unfolding fill_key
  fill_keys [] row s = s
  fill_keys ((c, key) ∷ rest) row s = fill_keys rest row (fill_key c (find c row) s)
  fill_keys ((c, spec) ∷ rest) row s = fill_keys rest row s

  unfoldable pub fill_rows : Columns → List Fields → List Text → ℕ → List Stored × List Text
  unfolding fill_keys
  fill_rows meta [] generated draws = ([], generated)
  fill_rows meta (row ∷ rows) generated draws =
      let start : Stored = record { columns = without_keys meta row; plain = [] } in
      let s = fill_keys meta row (record { row = start; generated = generated; draws = draws }) in
      let (rest, all_generated) = fill_rows meta rows s.generated s.draws in
      (s.row ∷ rest, all_generated)
