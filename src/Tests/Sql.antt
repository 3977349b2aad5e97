-- ===== src/Tests/Sql.antt =====
-- Runs of the functions of blindrange/sql.py, and instances of the theorems about them.
use blindrange.Prelude.{
  ℕ, ◌^◌, ◌<◌, ◌≡◌, refl, true, false, List, [], ◌∷◌, Option, none, some, ok, raise, String, ◌↔◌,
  value_error,
}
use blindrange.Dyadic.{max_level}
use blindrange.Client.Index.{Schema}
use blindrange.Sql.{
  Text, Tokens, str, num, kw, ident, op, number, text, key, stored, int, text_column, Columns,
  key_bucket_of, refused, try_kws, eat_value, done, assign, find, Fields,
}
use blindrange.Sql.Where.{
  Pred, range, Post, where_clause, conditions, condition, on_column, comparison, narrow,
  narrow_bounds, ranges, top_of, passes,
}
use blindrange.Sql.Where.Bounds.{between, ge, lt, Condition, print_all, Means, all_hold}
use blindrange.Sql.Where.Exact.{where_clause-print}
use blindrange.Sql.Create.{
  int_column, text_of_chars, some_indexed, check_blur, declaration, column_list, assign_spec,
  create_table,
}
use blindrange.Sql.Create.Accepted.{
  IsIndexable, AllIndexable, check_blur_iff, create_table-AllIndexable,
}
use blindrange.Sql.Insert.{
  check_value, items, zip_fields, check_row, value_row, value_rows, insert_rows, text_or_empty,
  or_random, is_generated, Filled, fill_key, fill_keys, fill_rows,
}
use blindrange.Sql.Insert.Handles.{in_range, where_clause-fill_keys}

abbrev meta : Columns
meta =
    ("id", key)
    ∷ ("day", int 10 1)
    ∷ ("qty", int 6 4)
    ∷ ("name", text_column 3 4)
    ∷ ("note", stored)
    ∷ []

abbrev hash : String → Text → ℕ
hash c t = 7

-- WHERE day BETWEEN 3 AND 9 AND qty >= 5 AND qty < 100 LIMIT
abbrev first : Condition
first = ("day", between 3 9)

abbrev others : List Condition
others = ("qty", ge 5) ∷ ("qty", lt 100) ∷ []

where_clause_runs :
    where_clause (key_bucket_of hash) meta (print_all first others (kw "LIMIT" ∷ num 1 ∷ []))
    ≡ ok ((some (range "day" 3 9 ∷ range "qty" 5 63 ∷ []), []), kw "LIMIT" ∷ num 1 ∷ [])
unfolding where_clause conditions condition refused on_column comparison narrow narrow_bounds ranges
    top_of
where_clause_runs = refl

where_clause_contradicts :
    where_clause (key_bucket_of hash) meta (print_all ("qty", lt 0) [] []) ≡ ok ((none, []), [])
unfolding where_clause conditions condition refused on_column comparison narrow narrow_bounds ranges
    top_of
where_clause_contradicts = refl

where_clause-print_example :
    (preds : Option (List Pred)) × (where_clause
        (key_bucket_of hash)
        meta
        (print_all first others (kw "LIMIT" ∷ num 1 ∷ []))
      ≡ ok ((preds, []), kw "LIMIT" ∷ num 1 ∷ []))
    × ((v : String → ℕ)
        → ((d : String) → v d < top_of meta d)
        → Means preds v (all_hold (first ∷ others) v))
where_clause-print_example =
    where_clause-print (key_bucket_of hash) meta first others (kw "LIMIT" ∷ num 1 ∷ [])
      ((10, 1, refl), ((6, 4, refl), ((6, 4, refl), tt))) refl

check_blur_iff_example :
    ((check_blur 8 3 ≡ ok tt) ↔ IsIndexable 3 8) × (max_level 3 (2 ^ 3) ≡ raise value_error)
check_blur_iff_example = check_blur_iff 8 3

-- CREATE TABLE t (id KEY, day INT BITS 10 BLUR 1, name TEXT(3) BLUR 4, note STORED);
abbrev statement : Tokens
statement =
    kw "CREATE"
    ∷ kw "TABLE"
    ∷ ident "t"
    ∷ op "("
    ∷ ident "id"
    ∷ kw "KEY"
    ∷ op ","
    ∷ ident "day"
    ∷ kw "INT"
    ∷ kw "BITS"
    ∷ num 10
    ∷ kw "BLUR"
    ∷ num 1
    ∷ op ","
    ∷ ident "name"
    ∷ kw "TEXT"
    ∷ op "("
    ∷ num 3
    ∷ op ")"
    ∷ kw "BLUR"
    ∷ num 4
    ∷ op ","
    ∷ ident "note"
    ∷ kw "STORED"
    ∷ op ")"
    ∷ op ";"
    ∷ []

abbrev schema : Schema
schema =
    ("id", record { bits = 20; leaf_width = 4 })
    ∷ ("day", record { bits = 10; leaf_width = 1 })
    ∷ ("name", record { bits = 15; leaf_width = 4 })
    ∷ []

abbrev columns : Columns
columns = ("id", key) ∷ ("day", int 10 1) ∷ ("name", text_column 3 4) ∷ ("note", stored) ∷ []

create_table_runs : create_table (λ name. false) statement ≡ ok ("t", columns, schema)
unfolding create_table try_kws column_list declaration check_blur assign assign_spec done int_column
    text_of_chars some_indexed
create_table_runs = refl

create_table-AllIndexable_example : AllIndexable schema × (0 < 3)
create_table-AllIndexable_example =
    create_table-AllIndexable (λ name. false) statement "t" columns schema create_table_runs

-- INSERT INTO t (id, day, name) VALUES ('a', 5, 'b'), (0, 6, 'c')
abbrev insertion : Tokens
insertion =
    kw "INSERT"
    ∷ kw "INTO"
    ∷ ident "t"
    ∷ op "("
    ∷ ident "id"
    ∷ op ","
    ∷ ident "day"
    ∷ op ","
    ∷ ident "name"
    ∷ op ")"
    ∷ kw "VALUES"
    ∷ op "("
    ∷ str (97 ∷ [])
    ∷ op ","
    ∷ num 5
    ∷ op ","
    ∷ str (98 ∷ [])
    ∷ op ")"
    ∷ op ","
    ∷ op "("
    ∷ num 0
    ∷ op ","
    ∷ num 6
    ∷ op ","
    ∷ str (99 ∷ [])
    ∷ op ")"
    ∷ []

abbrev row_a : Fields
row_a = ("id", text (97 ∷ [])) ∷ ("day", number 5) ∷ ("name", text (98 ∷ [])) ∷ []

abbrev row_0 : Fields
row_0 = ("id", number 0) ∷ ("day", number 6) ∷ ("name", text (99 ∷ [])) ∷ []

insert_rows_runs :
    insert_rows (λ name. ok columns) insertion ≡ ok ("t", columns, row_a ∷ row_0 ∷ [])
unfolding insert_rows try_kws items value_rows value_row zip_fields check_row check_value eat_value
    done assign
insert_rows_runs = refl

-- The handle 0 is replaced by a random one, which is not among those that are returned.
fill_rows_runs :
    fill_rows (key_bucket_of hash) (λ n. 200 ∷ []) columns (row_a ∷ row_0 ∷ []) [] 0 ≡ (
      record {
        columns = ("day", number 5) ∷ ("name", text (98 ∷ [])) ∷ ("id", number 7) ∷ [];
        plain = ("id", 97 ∷ []) ∷ [];
      }
          ∷ record {
            columns = ("day", number 6) ∷ ("name", text (99 ∷ [])) ∷ ("id", number 7) ∷ [];
            plain = ("id", 200 ∷ []) ∷ [];
          }
          ∷ [],
      [],
    )
unfolding fill_rows fill_keys fill_key text_or_empty or_random is_generated assign key_bucket_of
fill_rows_runs = refl

abbrev start : Filled
start = record { row = record { columns = []; plain = [] }; generated = []; draws = 0 }

where_clause-fill_keys_example :
    (lo : ℕ) × (hi : ℕ) × (post : Post) × (where_clause
        (key_bucket_of hash)
        columns
        (ident "id" ∷ op "=" ∷ str (97 ∷ []) ∷ kw "LIMIT" ∷ [])
      ≡ ok ((some (range "id" lo hi ∷ []), post ∷ []), kw "LIMIT" ∷ []))
    × (in_range
          (find "id" (fill_keys (key_bucket_of hash) (λ n. []) columns row_a start).row.columns)
          lo
          hi
        ≡ true)
    × (passes post (fill_keys (key_bucket_of hash) (λ n. []) columns row_a start).row ≡ true)
unfolding text_or_empty
where_clause-fill_keys_example =
    where_clause-fill_keys hash (λ n. []) columns row_a start "id" (text (97 ∷ [])) 97 []
      (kw "LIMIT" ∷ []) refl refl refl refl
