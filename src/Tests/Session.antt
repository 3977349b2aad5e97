-- ===== src/Tests/Session.antt =====
-- Runs of the statements of blindrange/sql.py on a session, and instances of the theorems about them.
use blindrange.Prelude.{
  filter, ℕ, ◌≡◌, refl, true, List, [], ◌∷◌, ◌++◌, map, Option, none, some, ok, raise, unsupported,
  String, take, length, max, arith, key_error,
}
use blindrange.Sql.{
  Text, Tokens, str, num, kw, ident, op, number, text, text_of, key, stored, int, Columns,
  key_bucket_of, refused, try_kws, eat_value, done, assign, find, Fields, Stored,
}
use blindrange.Sql.Where.{
  range, handle, where_clause, conditions, condition, on_column, on_key, comparison, narrow,
  narrow_bounds, ranges, top_of, passes, like_prefix, prefix, nothing_narrowed,
}
use blindrange.Sql.Select.{
  columns, Query, Row, Engine, rows, projection, name_list, where_if, order_by, limit_to,
  after_where, read_select, or_first, with_order, collect, passes_all, project, select_rows,
  run_goal,
}
use blindrange.Sql.Select.Rows.{limited, select_rows_lem}
use blindrange.Sql.Session.{Session, on_owner, with_owner, ask, columns_of, flush, discard}
use blindrange.Sql.Session.Writes.{Flushed, flush_lem}
use blindrange.Sql.Update.{update_columns, rekey, kept_part, replacement}
use blindrange.Sql.Update.Kept.{replacement_lem}
use blindrange.Sql.Reads.{Reads}
use blindrange.Sql.Statements.{execute, select, answer_query}

abbrev meta : Columns
meta = ("id", key) ∷ ("day", int 10 1) ∷ ("note", stored) ∷ []

abbrev kb : String → Text → ℕ
kb = key_bucket_of (λ c t. 7)

abbrev limit_rows : Option ℕ → List Row → List Row
limit_rows none rs = rs
limit_rows (some n) rs = take (max 1 n) rs

-- An owner that keeps its rows in a list; its walk returns a row before it looks at the limit.
abbrev Kept : Type 0
Kept = List Row

abbrev toy : Engine Kept
toy = record {
  query_stream = λ preds limit order s. ok (limit_rows limit s);
  query_multi = λ preds s. ok s;
  count = λ c lo hi s. ok (length s);
  approx_sum = λ c lo hi s. ok (0, 0, 0);
  insert_many = λ new s. (ok (length new), s ++ map (λ r. record { rid = []; row = r }) new);
  delete_many = λ rids s. (ok (length rids), []);
  replace_many = λ rids new s. (ok tt, map (λ r. record { rid = []; row = r }) new);
  drain = λ s. (ok tt, s);
  drop = λ s. (ok tt, []);
  compact = λ s. (ok tt, s);
  count_deleted = λ s. ok 0;
  next_value = λ name s. (ok 1, s);
  create = λ schema. ok [];
}

abbrev stored_a : Stored
stored_a = record {
  columns = ("day", number 5) ∷ ("id", number 7) ∷ [];
  plain = ("id", 97 ∷ []) ∷ [];
}

abbrev stored_b : Stored
stored_b = record {
  columns = ("day", number 6) ∷ ("id", number 7) ∷ [];
  plain = ("id", 98 ∷ []) ∷ [];
}

abbrev kept : Kept
kept = record { rid = 1 ∷ []; row = stored_a } ∷ record { rid = 2 ∷ []; row = stored_b } ∷ []

abbrev session : Session Kept
session = record {
  tables = ("t", meta) ∷ [];
  owners = ("t", kept) ∷ [];
  dirty = "t" ∷ [];
  compacting = [];
  autocompact = true;
  threshold = 50000;
}

-- SELECT day FROM t WHERE id = 'b' LIMIT 0: the limit of 0 returns a row.
abbrev by_handle : Tokens
by_handle =
    kw "SELECT"
    ∷ ident "day"
    ∷ kw "FROM"
    ∷ ident "t"
    ∷ kw "WHERE"
    ∷ ident "id"
    ∷ op "="
    ∷ str (98 ∷ [])
    ∷ kw "LIMIT"
    ∷ num 0
    ∷ []

by_handle_runs :
    (execute toy kb (λ n. []) (λ s. s) by_handle session).0
    ≡ ok (rows ((("day", some (number 6)) ∷ []) ∷ []))
unfolding execute select answer_query read_select projection name_list where_if where_clause
    conditions condition refused on_column on_key narrow narrow_bounds ranges top_of eat_value
    text_of key_bucket_of after_where order_by limit_to try_kws done columns_of flush with_owner
    on_owner ask discard run_goal select_rows or_first with_order collect passes passes_all project
    assign
by_handle_runs = refl

-- Conditions that contradict each other are refused where LIMIT follows them.
abbrev contradictory : Tokens
contradictory =
    kw "SELECT"
    ∷ op "*"
    ∷ kw "FROM"
    ∷ ident "t"
    ∷ kw "WHERE"
    ∷ ident "day"
    ∷ op "<"
    ∷ num 3
    ∷ kw "AND"
    ∷ ident "day"
    ∷ op ">"
    ∷ num 5
    ∷ kw "LIMIT"
    ∷ num 1
    ∷ []

contradictory_raises :
    (execute toy kb (λ n. []) (λ s. s) contradictory session).0 ≡ raise unsupported
unfolding execute select answer_query read_select projection where_if where_clause conditions
    condition refused on_column comparison narrow narrow_bounds ranges top_of after_where try_kws
    done columns_of
contradictory_raises = refl

abbrev filtered : Query
filtered = record {
  goal = columns ("day" ∷ []);
  table = "t";
  meta = meta;
  preds = range "id" 7 7 ∷ [];
  posts = handle "id" (text (98 ∷ [])) ∷ [];
  order = none;
  limit = some 1;
}

select_rows_lem_example :
    select_rows toy filtered kept
    ≡ ok (
        rows (
          map
            (λ r. project filtered.goal meta r.row)
            (limited 1 filtered.posts (some 1) (filter (passes_all filtered.posts) kept))))
unfolding or_first with_order
select_rows_lem_example =
    select_rows_lem toy filtered kept (range "id" 7 7 ∷ []) (range "id" 7 7 ∷ [])
      (λ limit. limit_rows limit kept) 1 (omega arith) refl refl (λ limit. refl) (λ n. refl)

-- LIMIT 0 without filters: the owner's walk returns a row before it looks at the limit.
limit_zero_runs :
    select_rows toy (record filtered { posts = []; limit = some 0 }) kept
    ≡ select_rows toy (record filtered { posts = []; limit = some 1 }) kept
unfolding select_rows or_first with_order collect passes_all project
limit_zero_runs = refl

flush_runs : flush toy "t" session ≡ (ok tt, record session { dirty = [] })
unfolding flush with_owner on_owner discard assign
flush_runs = refl

flush_lem_example : Flushed toy "t" "t" session (record session { dirty = [] })
flush_lem_example = flush_lem toy "t" "t" session (record session { dirty = [] }) flush_runs

abbrev changes : Fields
changes = ("day", number 9) ∷ ("id", text (99 ∷ [])) ∷ []

replacement_runs :
    replacement kb meta changes stored_a
    ≡ record { columns = ("day", number 9) ∷ ("id", number 7) ∷ []; plain = ("id", 99 ∷ []) ∷ [] }
unfolding replacement kept_part update_columns rekey assign key_bucket_of text_of
replacement_runs = refl

-- The column `_x` and the handle of `_id` are lost by an UPDATE of another column.
replacement_loses :
    replacement kb
      (("_x", stored) ∷ ("_id", key) ∷ ("day", int 10 1) ∷ [])
      (("day", number 9) ∷ [])
      (record {
        columns = ("_x", number 1) ∷ ("_id", number 7) ∷ ("day", number 3) ∷ [];
        plain = ("_id", 99 ∷ []) ∷ [];
      })
    ≡ record { columns = ("day", number 9) ∷ []; plain = [] }
unfolding replacement kept_part update_columns rekey assign key_bucket_of text_of
replacement_loses = refl

-- LIKE on an INT column.
like_raises :
    comparison "day" (int 10 1) nothing_narrowed (kw "LIKE" ∷ str (97 ∷ 37 ∷ []) ∷ [])
    ≡ raise key_error
unfolding comparison like_prefix prefix
like_raises = refl

replacement_lem_example :
    (find "id" (replacement kb meta changes stored_a).columns ≡ some (number (kb "id" (99 ∷ []))))
    × (find "id" (replacement kb meta changes stored_a).plain ≡ some (99 ∷ []))
unfolding text_of
replacement_lem_example =
    replacement_lem kb meta changes stored_a "id" (refl, (refl, (refl, tt))) (refl, (refl, tt))
