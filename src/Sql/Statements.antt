-- ===== src/Sql/Statements.antt =====
-- `execute` of blindrange/sql.py: the statements on the session, from their tokens.
-- `upper` is `str.upper`, `random` what the KEY columns of an INSERT would draw.
use Prim.Native.String.{compare}
use Prim.Native.Nat.{Ordering}
use blindrange.Prelude.{
  ℕ, Bool, true, false, List, [], ◌∷◌, if◌then◌else◌, String, str_eq, none, some, Result, ok, raise,
  unsupported, ◌>>=◌,
}
use blindrange.Sql.{
  Text, Tokens, next_kw, tail, try_kws, skip_kws, eat_num, eat_ident, done, refused, Columns, find,
  assign,
}
use blindrange.Sql.Create.{create_table}
use blindrange.Sql.Select.{
  Reading, query, nothing, read_select, Engine, Answer, next, names, described, switched, at_least,
  noted, run_goal, none_match, where_if, Clause,
}
use blindrange.Sql.Session.{
  Session, after, with_owner, ask, columns_of, flush, insert, delete_where, remove,
}
use blindrange.Sql.Update.{read_update, update_where}

abbrev in_order : String → String → Bool
in_order s t = elim (compare s t) [ Ordering.gt ↦ false | _ ↦ true ]

-- `_names`: the tables in the order of their names.
unfoldable pub insert_name : String → List String → List String
insert_name n [] = n ∷ []
insert_name n (m ∷ ms) =
    let rest = insert_name n ms in if in_order n m then n ∷ m ∷ ms else m ∷ rest

unfoldable pub sorted_names : List (String × Columns) → List String
unfolding insert_name
sorted_names [] = []
sorted_names ((n, meta) ∷ rest) = insert_name n (sorted_names rest)

abbrev pub exists : List (String × Columns) → String → Bool
exists tables name = elim (find name tables) [ none ↦ false | some meta ↦ true ]

module _ {St : Type 0} (e : Engine St) (key_bucket : String → Text → ℕ) (random : ℕ → Text)
    (upper : String → String) where
  abbrev created : String → Columns → Result St → Session St → Result Answer × Session St
  unfolding assign
  created name columns (raise x) s = (raise x, s)
  created name columns (ok o) s = (
    ok noted,
    record s { owners = assign name o s.owners; tables = assign name columns s.tables },
  )

  -- `_create`
  unfoldable pub create : Tokens → Session St → Result Answer × Session St
  unfolding create_table created
  create ts s = elim (create_table (exists s.tables) ts) [
    | raise x ↦ (raise x, s)
    | ok (name, columns, schema) ↦ created name columns (e.create schema) s
  ]

  -- A statement that is a table's name and nothing else.
  unfoldable pub on_table :
      Tokens
      → (String → Session St → Result Answer × Session St)
      → Session St
      → Result Answer × Session St
  unfolding done columns_of
  on_table ts act s = elim (eat_ident ts >>= λ (name, t1). done t1 >>= λ _. ok name) [
    | raise x ↦ (raise x, s)
    | ok name ↦ act name s
  ]

  abbrev forget : String → Session St → Session St
  unfolding remove
  forget name s = record s { owners = remove name s.owners; tables = remove name s.tables }

  -- `_drop`
  unfoldable pub drop_table : Tokens → Session St → Result Answer × Session St
  unfolding on_table flush with_owner columns_of forget
  drop_table ts = on_table (skip_kws ("DROP" ∷ "TABLE" ∷ []) ts) (λ name s.
      elim (columns_of s name) [
        | raise x ↦ (raise x, s)
        | ok meta ↦
            after (flush e name s)
              (λ _ s1. after (with_owner name e.drop s1) (λ _ s2. (ok noted, forget name s2)))
      ])

  unfoldable pub show_tables : Tokens → Session St → Result Answer × Session St
  unfolding done sorted_names
  show_tables ts s =
      (done (skip_kws ("SHOW" ∷ "TABLES" ∷ []) ts) >>= λ _. ok (names (sorted_names s.tables)), s)

  unfoldable pub describe : Tokens → Session St → Result Answer × Session St
  unfolding on_table columns_of
  describe ts =
      on_table (tail ts) (λ name s. (columns_of s name >>= λ meta. ok (described meta), s))

  unfoldable pub compact : Tokens → Session St → Result Answer × Session St
  unfolding on_table flush with_owner
  compact ts = on_table (tail ts) (λ name s.
      after (flush e name s)
        (λ _ s1. after (with_owner name e.compact s1) (λ _ s2. (ok noted, s2))))

  -- The switch is set before the rest of the statement is looked at.
  abbrev switch : Bool → Tokens → Session St → Result Answer × Session St
  unfolding done
  switch on ts s = (done ts >>= λ _. ok (switched on), record s { autocompact = on })

  abbrev set_threshold : Result (ℕ × Tokens) → Session St → Result Answer × Session St
  unfolding done
  set_threshold (raise x) s = (raise x, s)
  set_threshold (ok (n, ts)) s = (done ts >>= λ _. ok (at_least n), record s { threshold = n })

  -- `_pragma`
  unfoldable pub pragma : Tokens → Session St → Result Answer × Session St
  unfolding switch set_threshold
  pragma ts s = elim (eat_ident (tail ts)) [
    | raise x ↦ (raise x, s)
    | ok (which, t1) ↦
        (if str_eq (upper which) "AUTOCOMPACT"
          then (if next_kw "ON" t1
              then switch true (tail t1) s
              else if next_kw "OFF" t1
              then switch false (tail t1) s
              else (raise unsupported, s))
          else if str_eq (upper which) "AUTOCOMPACT_THRESHOLD"
          then set_threshold (eat_num t1) s
          else (raise unsupported, s))
  ]

  abbrev next_of : List String → String → Session St → Result Answer × Session St
  unfolding flush with_owner
  next_of [] seq s = (raise unsupported, s)
  next_of (table ∷ tables) seq s =
      after (flush e table s)
        (λ _ s1. after (with_owner table (e.next_value seq) s1) (λ n s2. (ok (next n), s2)))

  -- SELECT NEXT VALUE FOR: the counter lives with the first table.
  unfoldable pub next_value : Tokens → Session St → Result Answer × Session St
  unfolding next_of sorted_names done
  next_value ts s =
      elim (eat_ident ts >>= λ (seq, t1). done (skip_kws ("FROM" ∷ []) t1) >>= λ _. ok seq) [
        | raise x ↦ (raise x, s)
        | ok seq ↦ next_of (sorted_names s.tables) seq s
      ]

  unfoldable pub answer_query : Result Reading → Session St → Result Answer × Session St
  unfolding flush ask run_goal none_match
  answer_query (raise x) s = (raise x, s)
  answer_query (ok (nothing goal)) s = (ok (none_match goal), s)
  answer_query (ok (query q)) s =
      after (flush e q.table s) (λ _ s1. ask q.table (run_goal e q.goal q) s1)

  -- `_select`
  unfoldable pub select : Tokens → Session St → Result Answer × Session St
  unfolding next_value answer_query read_select columns_of
  select ts s = elim (try_kws ("NEXT" ∷ "VALUE" ∷ "FOR" ∷ []) ts) [
    | some t1 ↦ next_value t1 s
    | none ↦ answer_query (read_select key_bucket (columns_of s) ts) s
  ]

  -- `_update`
  unfoldable pub update : Tokens → Session St → Result Answer × Session St
  unfolding read_update update_where columns_of
  update ts s = elim (read_update key_bucket (columns_of s) ts) [
    | raise x ↦ (raise x, s)
    | ok (name, meta, changes, clause) ↦ update_where e key_bucket name meta changes clause s
  ]

  -- `_delete` up to the reads.
  unfoldable pub read_delete :
      (String → Result Columns) → Tokens → Result (String × Columns × Clause)
  unfolding where_if done
  read_delete columns ts = eat_ident ts >>= λ (name, t1). columns name >>= λ meta.
      where_if key_bucket meta t1 >>= λ (clause, t2). done t2 >>= λ _. ok (name, meta, clause)

  unfoldable pub delete : Tokens → Session St → Result Answer × Session St
  unfolding read_delete delete_where columns_of
  delete ts s = elim (read_delete (columns_of s) (skip_kws ("DELETE" ∷ "FROM" ∷ []) ts)) [
    | raise x ↦ (raise x, s)
    | ok (name, meta, clause) ↦ delete_where e name meta clause s
  ]

  -- `execute`, from the tokens of the statement.
  unfoldable pub execute : Tokens → Session St → Result Answer × Session St
  unfolding create drop_table show_tables describe insert select update delete compact pragma
  execute ts s =
      if refused ts
      then (raise unsupported, s)
      else if next_kw "CREATE" ts
      then create ts s
      else if next_kw "DROP" ts
      then drop_table ts s
      else if next_kw "SHOW" ts
      then show_tables ts s
      else if next_kw "DESCRIBE" ts
      then describe ts s
      else if next_kw "INSERT" ts
      then insert e key_bucket random ts s
      else if next_kw "SELECT" ts
      then select (tail ts) s
      else if next_kw "UPDATE" ts
      then update (tail ts) s
      else if next_kw "DELETE" ts
      then delete ts s
      else if next_kw "COMPACT" ts
      then compact ts s
      else if next_kw "PRAGMA" ts
      then pragma ts s
      else (raise unsupported, s)
