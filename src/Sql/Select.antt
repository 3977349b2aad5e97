-- ===== src/Sql/Select.antt =====
-- SELECT of blindrange/sql.py: its parsing, `_project`, `_count`, `_approx_sum`, and the rows of a query.
pub mod Rows
use blindrange.Prelude.{
  ℕ, zero, suc, ◌+◌, ◌-◌, ◌*◌, ◌^◌, Bool, true, false, not, ◌&&◌, ◌||◌, List, [], ◌∷◌, ◌++◌, map,
  any, all, ltb, leb, ◌==◌, if◌then◌else◌, length, String, str_eq, Option, none, some, Result, ok,
  raise, unsupported, runtime_error, key_error, stop_iteration, ◌>>=◌,
}
use blindrange.Sql.{
  Text, Tokens, next_kw, next_op, tail, try_kws, skip_kws, eat_num, eat_ident, expect_op, expect_kw,
  done, Value, number, text, Column, key, stored, int, text_column, Columns, find, get_column,
  Fields, Stored, key_bits,
}
use blindrange.Client.Index.{Schema}
use blindrange.Sql.Where.{Pred, range, begins, Post, passes, where_clause}

pub data Goal : Type 0 where
  everything : Goal
  columns : List String → Goal
  count_rows : Goal
  sum_of : String → Goal

-- `p.eat("ident", ...)` until there is no comma, on fuel.
unfoldable pub name_list : ℕ → Tokens → Result (List String × Tokens)
name_list zero ts = raise runtime_error
name_list (suc f) ts = eat_ident ts >>= λ (c, t1).
    if next_op "," t1
    then (name_list f (tail t1) >>= λ (cs, t2). ok (c ∷ cs, t2))
    else ok (c ∷ [], t1)

unfoldable pub projection : Tokens → Result (Goal × Tokens)
unfolding name_list
projection ts =
    if next_kw "COUNT" ts
    then (expect_op "(" (tail ts) >>= λ t1.
        expect_op "*" t1 >>= λ t2. expect_op ")" t2 >>= λ t3. ok (count_rows, t3))
    else elim (try_kws ("APPROX" ∷ "SUM" ∷ []) ts) [
      | some t1 ↦
          (expect_op "(" t1 >>= λ t2.
          eat_ident t2 >>= λ (c, t3). expect_op ")" t3 >>= λ t4. ok (sum_of c, t4))
      | none ↦
          (if next_kw "SUM" ts
            then raise unsupported
            else if next_op "*" ts
            then ok (everything, tail ts)
            else (name_list (suc (length ts)) ts >>= λ (cs, t1). ok (columns cs, t1)))
    ]

abbrev pub Clause : Type 0
Clause = Option (List Pred) × List Post

module _ (key_bucket : String → Text → ℕ) (meta : Columns) where
  -- `if p.try_kw("WHERE")`
  unfoldable pub where_if : Tokens → Result (Clause × Tokens)
  unfolding where_clause
  where_if ts =
      if next_kw "WHERE" ts then where_clause key_bucket meta (tail ts) else ok ((some [], []), ts)

unfoldable pub check_order : Column → Result (Unit {0})
check_order key = raise unsupported
check_order stored = raise unsupported
check_order _ = ok tt

-- ORDER BY: the column, and whether it is descending.
unfoldable pub order_by : Columns → Tokens → Result (Option (String × Bool) × Tokens)
unfolding try_kws check_order
order_by meta ts = elim (try_kws ("ORDER" ∷ "BY" ∷ []) ts) [
  | none ↦ ok (none, ts)
  | some t1 ↦
      (eat_ident t1 >>= λ (c, t2). get_column c meta >>= λ spec. check_order spec >>= λ _.
      (if next_kw "DESC" t2
        then ok (some (c, true), tail t2)
        else ok (some (c, false), skip_kws ("ASC" ∷ []) t2)))
]

unfoldable pub limit_to : Tokens → Result (Option ℕ × Tokens)
limit_to ts =
    if next_kw "LIMIT" ts then (eat_num (tail ts) >>= λ (n, t1). ok (some n, t1)) else ok (none, ts)

pub record Query : Type 0 where
  pub goal : Goal
  pub table : String
  pub meta : Columns
  pub preds : List Pred
  pub posts : List Post
  pub order : Option (String × Bool)
  pub limit : Option ℕ

-- A SELECT that was read: a query, or one whose conditions contradict each other.
pub data Reading : Type 0 where
  query : Query → Reading
  nothing : Goal → Reading

module _ (key_bucket : String → Text → ℕ) (columns_of : String → Result Columns) where
  unfoldable pub after_where : Goal → String → Columns → Clause → Tokens → Result Reading
  unfolding order_by limit_to done
  after_where goal name meta (none, posts) ts = done ts >>= λ _. ok (nothing goal)
  after_where goal name meta (some preds, posts) ts = order_by meta ts >>= λ (order, t1).
      limit_to t1 >>= λ (limit, t2). done t2 >>= λ _. ok (
        query (record {
          goal = goal;
          table = name;
          meta = meta;
          preds = preds;
          posts = posts;
          order = order;
          limit = limit;
        }))

  -- `_select` after SELECT, up to the reads.
  unfoldable pub read_select : Tokens → Result Reading
  unfolding projection where_if after_where
  read_select ts = projection ts >>= λ (goal, t1). expect_kw "FROM" t1 >>= λ t2.
      eat_ident t2 >>= λ (name, t3). columns_of name >>= λ meta.
      where_if key_bucket meta t3 >>= λ (clause, t4). after_where goal name meta clause t4

pub record Row : Type 0 where
  pub rid : Text
  pub row : Stored

-- What the statements ask of the owner of a table. `replace_many` is a batch with a delete and an insert.
pub record Engine (St : Type 0) : Type 0 where
  pub query_stream : List Pred → Option ℕ → Option (String × Bool) → St → Result (List Row)
  pub query_multi : List Pred → St → Result (List Row)
  pub count : String → ℕ → ℕ → St → Result ℕ
  pub approx_sum : String → ℕ → ℕ → St → Result (ℕ × ℕ × ℕ)
  pub insert_many : List Stored → St → Result ℕ × St
  pub delete_many : List Text → St → Result ℕ × St
  pub replace_many : List Text → List Stored → St → Result (Unit {0}) × St
  pub drain : St → Result (Unit {0}) × St
  pub drop : St → Result (Unit {0}) × St
  pub compact : St → Result (Unit {0}) × St
  pub count_deleted : St → Result ℕ
  pub next_value : String → St → Result ℕ × St
  pub create : Schema → Result St

-- `meta[c].get("bits") or meta[c]["chars"] * 5`
unfoldable pub width_of : Column → Result ℕ
width_of key = ok key_bits
width_of stored = raise key_error
width_of (int zero blur) = raise key_error
width_of (int (suc bits) blur) = ok (suc bits)
width_of (text_column chars blur) = ok (chars * 5)

unfoldable pub whole : String → Column → Result Pred
unfolding width_of
whole c spec = width_of spec >>= λ bits. ok (range c 0 (2 ^ bits - 1))

-- The whole domain of the first indexed column.
unfoldable pub first_indexed : Columns → Result Pred
unfolding whole
first_indexed [] = raise stop_iteration
first_indexed ((c, stored) ∷ rest) = first_indexed rest
first_indexed ((c, spec) ∷ rest) = whole c spec

-- `if not preds`
unfoldable pub or_first : Columns → List Pred → Result (List Pred)
unfolding first_indexed
or_first meta [] = first_indexed meta >>= λ p. ok (p ∷ [])
or_first meta (p ∷ preds) = ok (p ∷ preds)

abbrev field_of : Pred → String
field_of (range c lo hi) = c
field_of (begins c t) = c

-- The column of ORDER BY must be among the predicates.
unfoldable pub with_order : Columns → Option (String × Bool) → List Pred → Result (List Pred)
unfolding whole
with_order meta none preds = ok preds
with_order meta (some (c, desc)) preds =
    if any (λ p. str_eq (field_of p) c) preds
    then ok preds
    else (get_column c meta >>= λ spec. whole c spec >>= λ p. ok (preds ++ p ∷ []))

unfoldable pub passes_all : List Post → Row → Bool
unfolding passes
passes_all posts r = all (λ p. passes p r.row) posts

abbrev reached : Option ℕ → ℕ → Bool
reached none n = false
reached (some limit) n = leb limit n

-- The loop over the stream; `n` rows are in `out` already.
unfoldable pub collect : List Post → Option ℕ → ℕ → List Row → List Row
unfolding passes
collect posts limit n [] = []
collect posts limit n (r ∷ rs) =
    let more = collect posts limit (n + 1) rs in
    let others = collect posts limit n rs in
    if passes_all posts r then r ∷ (if reached limit (n + 1) then [] else more) else others

abbrev to_stream : List Post → Option ℕ → Option ℕ
to_stream [] limit = limit
to_stream (p ∷ posts) limit = none

abbrev plain_value : Option Text → Option Value
plain_value none = none
plain_value (some t) = some (text t)

abbrev value_of : Columns → Stored → String → Option Value
value_of meta r c = elim (find c meta) [
  | some key ↦ plain_value (find c r.plain)
  | _ ↦ find c r.columns
]

unfoldable pub project : Goal → Columns → Stored → List (String × Option Value)
project (columns cs) meta r = map (λ c. (c, value_of meta r c)) cs
project _ meta r = map (λ p. (p.0, value_of meta r p.0)) meta

pub data Answer : Type 0 where
  rows : List (List (String × Option Value)) → Answer
  counted : ℕ → Answer
  summed : ℕ → ℕ → ℕ → Answer
  affected : ℕ → List Text → Answer
  next : ℕ → Answer
  names : List String → Answer
  described : Columns → Answer
  switched : Bool → Answer
  at_least : ℕ → Answer
  noted : Answer

module _ {St : Type 0} (e : Engine St) where
  unfoldable pub count_by : Pred → St → Result Answer
  count_by (range c lo hi) s = e.count c lo hi s >>= λ n. ok (counted n)
  count_by (begins c t) s = raise key_error

  unfoldable pub count_filtered : List Pred → List Post → St → Result Answer
  unfolding collect
  count_filtered preds posts s =
      e.query_multi preds s >>= λ rs. ok (counted (length (collect posts none 0 rs)))

  -- `_count`: one range and no filter is answered by the index.
  unfoldable pub count_query : Columns → List Pred → List Post → St → Result Answer
  unfolding count_by count_filtered first_indexed
  count_query meta (range c lo hi ∷ []) [] s = count_by (range c lo hi) s
  count_query meta [] posts s = first_indexed meta >>= λ p. count_by p s
  count_query meta preds posts s = count_filtered preds posts s

  unfoldable pub sum_in : String → ℕ → List Pred → St → Result Answer
  sum_in c bits [] s = e.approx_sum c 0 (2 ^ bits - 1) s >>= λ (est, err, n). ok (summed est err n)
  sum_in c bits (range d lo hi ∷ preds) s =
      e.approx_sum c lo hi s >>= λ (est, err, n). ok (summed est err n)
  sum_in c bits (begins d t ∷ preds) s = raise key_error

  unfoldable pub sum_column : String → Option Column → List Pred → List Post → St → Result Answer
  unfolding sum_in
  sum_column c (some (int bits blur)) preds [] s =
      if any (λ p. not (str_eq (field_of p) c)) preds
      then raise unsupported
      else sum_in c bits preds s
  sum_column c spec preds posts s = raise unsupported

  unfoldable pub select_rows : Query → St → Result Answer
  unfolding or_first with_order collect project
  select_rows q s = or_first q.meta q.preds >>= λ preds.
      with_order q.meta q.order preds >>= λ all_preds.
      e.query_stream all_preds (to_stream q.posts q.limit) q.order s >>= λ rs.
      ok (rows (map (λ r. project q.goal q.meta r.row) (collect q.posts q.limit 0 rs)))

  unfoldable pub run_goal : Goal → Query → St → Result Answer
  unfolding count_query sum_column select_rows
  run_goal count_rows q s = count_query q.meta q.preds q.posts s
  run_goal (sum_of c) q s = sum_column c (find c q.meta) q.preds q.posts s
  run_goal everything q s = select_rows q s
  run_goal (columns cs) q s = select_rows q s

-- The answer to contradictory conditions.
unfoldable pub none_match : Goal → Answer
none_match count_rows = counted 0
none_match _ = rows []
