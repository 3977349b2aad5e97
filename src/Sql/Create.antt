-- ===== src/Sql/Create.antt =====
-- CREATE TABLE of blindrange/sql.py: `_check_blur` and the column list of `_create`.
pub mod Accepted
use blindrange.Prelude.{
  ℕ, zero, suc, ◌+◌, ◌-◌, ◌*◌, ◌^◌, bit_and, Bool, true, false, not, ◌&&◌, ◌||◌, List, [], ◌∷◌, ltb,
  leb, ◌==◌, if◌then◌else◌, length, String, str_eq, Option, none, some, Result, ok, raise,
  unsupported, runtime_error, ◌>>=◌,
}
use blindrange.Client.Index.{Spec, Schema}
use blindrange.Sql.{
  Tokens, next_kw, next_op, tail, assign, skip_kws, eat_num, eat_ident, expect_op, expect_kw, done,
  Column, key, stored, int, text_column, Columns, key_bits,
}

unfoldable pub check_blur : ℕ → ℕ → Result (Unit {0})
check_blur blur bits =
    if ltb blur 1 || not (bit_and blur (blur - 1) == 0)
    then raise unsupported
    else if ltb (2 ^ bits) blur
    then raise unsupported
    else ok tt

-- What a declaration says: the column, and how its values are indexed, if they are.
abbrev pub Declared : Type 0
Declared = Column × Option Spec

unfoldable pub int_column : ℕ → ℕ → Tokens → Result (Declared × Tokens)
unfolding check_blur
int_column bits blur ts = check_blur blur bits >>= λ _.
    ok ((int bits blur, some (record { bits = bits; leaf_width = blur })), ts)

unfoldable pub text_of_chars : ℕ → ℕ → Tokens → Result (Declared × Tokens)
unfolding check_blur
text_of_chars chars blur ts = check_blur blur (chars * 5) >>= λ _.
    ok ((text_column chars blur, some (record { bits = chars * 5; leaf_width = blur })), ts)

-- What follows the name of a column.
unfoldable pub declaration : Tokens → Result (Declared × Tokens)
unfolding check_blur
declaration ts =
    if next_kw "KEY" ts
    then ok ((key, some (record { bits = key_bits; leaf_width = 4 })), tail ts)
    else if next_kw "INT" ts
    then (expect_kw "BITS" (tail ts) >>= λ t1. eat_num t1 >>= λ (bits, t2).
        expect_kw "BLUR" t2 >>= λ t3. eat_num t3 >>= λ (blur, t4). int_column bits blur t4)
    else if next_kw "TEXT" ts
    then (expect_op "(" (tail ts) >>= λ t1. eat_num t1 >>= λ (chars, t2). expect_op ")" t2 >>= λ t3.
        expect_kw "BLUR" t3 >>= λ t4. eat_num t4 >>= λ (blur, t5). text_of_chars chars blur t5)
    else if next_kw "STORED" ts
    then ok ((stored, none), tail ts)
    else raise unsupported

unfoldable pub assign_spec : String → Option Spec → Schema → Schema
unfolding assign
assign_spec c none schema = schema
assign_spec c (some spec) schema = assign c spec schema

-- The loop over the columns, up to the closing parenthesis, on fuel: a round reads tokens.
unfoldable pub column_list : ℕ → Columns → Schema → Tokens → Result ((Columns × Schema) × Tokens)
unfolding declaration assign assign_spec
column_list zero columns schema ts = raise runtime_error
column_list (suc f) columns schema ts = eat_ident ts >>= λ (col, t1). declaration t1 >>= λ (d, t2).
    let columns' = assign col d.0 columns in
    let schema' = assign_spec col d.1 schema in
    if next_op ")" t2
    then ok ((columns', schema'), tail t2)
    else (expect_op "," t2 >>= column_list f columns' schema')

unfoldable pub some_indexed : Columns × Schema → Result (Columns × Schema)
some_indexed (columns, []) = raise unsupported
some_indexed (columns, s ∷ schema) = ok (columns, s ∷ schema)

-- `_create` up to the owner that it makes: the name of the table, its columns and their indexing.
unfoldable pub create_table : (String → Bool) → Tokens → Result (String × Columns × Schema)
unfolding column_list done
create_table exists ts = eat_ident (skip_kws ("CREATE" ∷ "TABLE" ∷ []) ts) >>= λ (name, t1).
    if exists name
    then raise unsupported
    else (expect_op "(" t1 >>= λ t2. column_list (suc (length t2)) [] [] t2 >>= λ (made, t3).
        done t3 >>= λ _. some_indexed made >>= λ (columns, schema). ok (name, columns, schema))
