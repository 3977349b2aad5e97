-- ===== src/Sql/Update.antt =====
-- UPDATE of blindrange/sql.py: the changes that it reads, and the rows that it writes.
pub mod Kept
use Prim.Native.Char.{code}
use blindrange.Prelude.{
  ℕ, zero, suc, Bool, true, false, not, ◌&&◌, ◌==◌, filter, List, [], ◌∷◌, map, if◌then◌else◌,
  length, String, str_eq, Option, none, some, Result, ok, raise, unsupported, runtime_error, ◌>>=◌,
}
use blindrange.Sql.{
  Text, Tokens, next_op, tail, eat_ident, eat_value, expect_op, expect_kw, done, Value, number,
  text, text_of, Column, key, stored, int, text_column, Columns, find, assign, Fields, Stored,
  get_column,
}
use blindrange.Sql.Insert.{check_value}
use blindrange.Sql.Select.{Clause, where_if, Row, Engine, Answer, affected}
use blindrange.Sql.Session.{
  Session, after, with_owner, ask, flush, wrote, maybe_compact, match_rows,
}

unfoldable pub check_change : Column → Value → Result (Unit {0})
unfolding check_value
check_change stored v = ok tt
check_change spec v = check_value spec v

-- The list of SET, on fuel: a round reads tokens.
unfoldable pub set_list : ℕ → Columns → Fields → Tokens → Result (Fields × Tokens)
unfolding eat_value check_change assign
set_list zero meta changes ts = raise runtime_error
set_list (suc f) meta changes ts = eat_ident ts >>= λ (col, t1). get_column col meta >>= λ spec.
    expect_op "=" t1 >>= λ t2. eat_value t2 >>= λ (v, t3). check_change spec v >>= λ _.
    (if next_op "," t3
      then set_list f meta (assign col v changes) (tail t3)
      else ok (assign col v changes, t3))

-- `_update` up to the reads: the table, the changes and the conditions.
unfoldable pub read_update :
    (String → Text → ℕ)
    → (String → Result Columns)
    → Tokens
    → Result (String × Columns × Fields × Clause)
unfolding set_list where_if done
read_update key_bucket columns_of ts = eat_ident ts >>= λ (name, t1). columns_of name >>= λ meta.
    expect_kw "SET" t1 >>= λ t2. set_list (suc (length t2)) meta [] t2 >>= λ (changes, t3).
    where_if key_bucket meta t3 >>= λ (clause, t4).
    done t4 >>= λ _. ok (name, meta, changes, clause)

abbrev pub is_key_column : Option Column → Bool
is_key_column (some key) = true
is_key_column _ = false

-- The changed columns of an UPDATE that are no KEY, written into a row.
unfoldable pub update_columns : Columns → Fields → Fields → Fields
unfolding assign
update_columns meta [] row = row
update_columns meta ((c, v) ∷ changes) row =
    update_columns meta changes (if is_key_column (find c meta) then row else assign c v row)

-- `k.startswith("_")`; the name of a handle's field is that of its column with "@plain" after it.
abbrev pub is_hidden : String → Bool
is_hidden String.[] = false
is_hidden (String.◌∷◌ c s) = code c == b'_'

abbrev is_some {ℓ} : {A : Type ℓ} → Option A → Bool
is_some none = false
is_some (some a) = true

-- `k in meta and not k.startswith("_")`, for the columns.
abbrev pub keeps_column : Columns → String → Bool
keeps_column meta c = is_some (find c meta) && not (is_hidden c)

abbrev pub keeps_handle : String → Bool
keeps_handle c = not (is_hidden c)

-- The fields of a row that UPDATE takes over into the new one. A row's fields whose names end with
-- "@plain" are its handles.
unfoldable pub kept_part : Columns → Stored → Stored
kept_part meta r = record {
  columns = filter (λ p. keeps_column meta p.0) r.columns;
  plain = filter (λ p. keeps_handle p.0) r.plain;
}

-- The loop over the columns of the set `key_cols & set(changes)`.
module _ (key_bucket : String → Text → ℕ) where
  abbrev rekey_one : String → Option Value → Stored → Stored
  unfolding text_of assign
  rekey_one c none r = r
  rekey_one c (some v) r = record {
    columns = assign c (number (key_bucket c (text_of v))) r.columns;
    plain = assign c (text_of v) r.plain;
  }

  unfoldable pub rekey : Columns → Fields → Stored → Stored
  unfolding rekey_one
  rekey [] changes r = r
  rekey ((c, key) ∷ rest) changes r = rekey rest changes (rekey_one c (find c changes) r)
  rekey ((c, spec) ∷ rest) changes r = rekey rest changes r

  -- What `_update` writes for a row.
  unfoldable pub replacement : Columns → Fields → Stored → Stored
  unfolding update_columns rekey kept_part
  replacement meta changes r =
      let kept = kept_part meta r in
      rekey meta changes
        (record { columns = update_columns meta changes kept.columns; plain = kept.plain })

module _ {St : Type 0} (e : Engine St) (key_bucket : String → Text → ℕ) where
  -- The writes of `_update`, in one batch.
  unfoldable pub update_rows :
      String → Columns → Fields → List Row → Session St → Result Answer × Session St
  unfolding replacement with_owner wrote maybe_compact
  update_rows name meta changes [] s = (ok (affected 0 []), s)
  update_rows name meta changes (r ∷ rs) s =
      let rids = map (λ x. x.rid) (r ∷ rs) in
      let new = map (λ x. replacement key_bucket meta changes x.row) (r ∷ rs) in
      after (with_owner name (e.replace_many rids new) s)
        (λ _ s'. (ok (affected (length (r ∷ rs)) []), maybe_compact e name (wrote e name s')))

  unfoldable pub update_where :
      String → Columns → Fields → Clause → Session St → Result Answer × Session St
  unfolding flush ask match_rows update_rows
  update_where name meta changes (none, posts) s = (ok (affected 0 []), s)
  update_where name meta changes (some preds, posts) s =
      after (flush e name s) (λ _ s1.
        after (ask name (match_rows e meta preds posts) s1) (update_rows name meta changes))
