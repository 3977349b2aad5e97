-- ===== src/Sql/Session.antt =====
-- The connection of blindrange/sql.py: its tables, `_flush`, `_maybe_compact` and the statements.
-- The owner of a table is the state that its file keeps; opening it is left out. The thread of a
-- compaction is the step `compacted`, which may come at any later time.
pub mod Writes
use blindrange.Prelude.{
  ℕ, zero, suc, ◌+◌, Bool, true, false, not, ◌&&◌, ◌||◌, List, [], ◌∷◌, ◌++◌, map, any, all, ltb,
  if◌then◌else◌, length, String, str_eq, Option, none, some, Result, ok, raise, unsupported,
  runtime_error, file_not_found, ◌>>=◌,
}
use blindrange.Sql.{
  Text, Token, Tokens, kw, ident, next_kw, next_op, tail, try_kws, skip_kws, eat_num, eat_ident,
  eat_value, expect_op, expect_kw, done, refused, Value, number, text, text_of, Column, key, stored,
  int, text_column, Columns, find, assign, Fields, Stored, get_column,
}
use blindrange.Client.Index.{Schema}
use blindrange.Sql.Where.{Pred, Post, passes}
use blindrange.Sql.Create.{create_table}
use blindrange.Sql.Insert.{check_value, insert_rows, fill_rows}
use blindrange.Sql.Select.{
  Goal, Clause, where_if, Query, Reading, query, nothing, read_select, Row, Engine, or_first,
  collect, passes_all, Answer, affected, next, noted, run_goal, none_match,
}

pub record Session (St : Type 0) : Type 0 where
  pub tables : List (String × Columns)
  pub owners : List (String × St)
  pub dirty : List String
  pub compacting : List String
  pub autocompact : Bool
  pub threshold : ℕ

abbrev pub contains : String → List String → Bool
contains name names = any (λ n. str_eq n name) names

unfoldable pub discard : String → List String → List String
discard name [] = []
discard name (n ∷ names) = let rest = discard name names in if str_eq n name then rest else n ∷ rest

unfoldable pub add : String → List String → List String
add name names = if contains name names then names else name ∷ names

unfoldable pub remove {ℓ} : {A : Type ℓ} → String → List (String × A) → List (String × A)
remove name [] = []
remove name ((n, a) ∷ rest) =
    let others = remove name rest in if str_eq n name then others else (n, a) ∷ others

module _ {St : Type 0} where
  -- The next step, unless the first one raised.
  abbrev pub after :
      {A B : Type 0}
      → Result A × Session St
      → (A → Session St → Result B × Session St)
      → Result B × Session St
  after (ok a, s) f = f a s
  after (raise x, s) f = (raise x, s)

  unfoldable pub on_owner :
      {A : Type 0} → String → (St → Result A × St) → Option St → Session St → Result A × Session St
  unfolding assign
  on_owner name f none s = (raise file_not_found, s)
  on_owner name f (some o) s = ((f o).0, record s { owners = assign name (f o).1 s.owners })

  unfoldable pub with_owner :
      {A : Type 0} → String → (St → Result A × St) → Session St → Result A × Session St
  unfolding on_owner
  with_owner name f s = on_owner name f (find name s.owners) s

  -- A call that reads.
  unfoldable pub ask : {A : Type 0} → String → (St → Result A) → Session St → Result A × Session St
  ask name f s = elim (find name s.owners) [ none ↦ (raise file_not_found, s) | some o ↦ (f o, s) ]

  unfoldable pub columns_of : Session St → String → Result Columns
  columns_of s name = elim (find name s.tables) [ none ↦ raise unsupported | some meta ↦ ok meta ]

module _ {St : Type 0} (e : Engine St) where
  unfoldable pub flush : String → Session St → Result (Unit {0}) × Session St
  unfolding with_owner discard
  flush name s =
      if contains name s.dirty
      then after (with_owner name e.drain s)
          (λ _ s'. (ok tt, record s' { dirty = discard name s'.dirty }))
      else (ok tt, s)

  abbrev start_compact : String → Result ℕ → Session St → Session St
  start_compact name (raise x) s = s
  start_compact name (ok pending) s =
      if ltb pending s.threshold || contains name s.compacting
      then s
      else record s { compacting = name ∷ s.compacting }

  unfoldable pub maybe_compact : String → Session St → Session St
  unfolding ask
  maybe_compact name s =
      if s.autocompact then start_compact name (ask name e.count_deleted s).0 s else s

  -- The thread that `_maybe_compact` started.
  unfoldable pub compacted : String → Session St → Session St
  unfolding with_owner discard
  compacted name s =
      let s' = (with_owner name e.compact s).1 in
      record s' { compacting = discard name s'.compacting }

  unfoldable pub wrote : String → Session St → Session St
  unfolding add
  wrote name s = record s { dirty = add name s.dirty }

  module _ (key_bucket : String → Text → ℕ) (random : ℕ → Text) where
    -- `_insert`
    unfoldable pub insert : Tokens → Session St → Result Answer × Session St
    unfolding columns_of fill_rows with_owner wrote insert_rows
    insert ts s = elim (insert_rows (columns_of s) ts) [
      | raise x ↦ (raise x, s)
      | ok (name, meta, rows) ↦
          (let (final, generated) = fill_rows key_bucket random meta rows [] 0 in
            after (with_owner name (e.insert_many final) s)
              (λ _ s'. (ok (affected (length rows) generated), wrote name s')))
    ]

  -- `_match`
  unfoldable pub match_rows : Columns → List Pred → List Post → St → Result (List Row)
  unfolding or_first collect
  match_rows meta preds posts o = or_first meta preds >>= λ walked.
      e.query_stream walked none none o >>= λ rs. ok (collect posts none 0 rs)

  -- The calls of `_delete` after its parsing.
  unfoldable pub delete_rows : String → List Row → Session St → Result Answer × Session St
  unfolding with_owner wrote maybe_compact
  delete_rows name [] s = (ok (affected 0 []), s)
  delete_rows name (r ∷ rs) s =
      after (with_owner name (e.delete_many (map (λ x. x.rid) (r ∷ rs))) s)
        (λ _ s'. (ok (affected (length (r ∷ rs)) []), maybe_compact name (wrote name s')))

  unfoldable pub delete_where : String → Columns → Clause → Session St → Result Answer × Session St
  unfolding flush ask match_rows delete_rows
  delete_where name meta (none, posts) s = (ok (affected 0 []), s)
  delete_where name meta (some preds, posts) s =
      after (flush name s)
        (λ _ s1. after (ask name (match_rows meta preds posts) s1) (delete_rows name))
