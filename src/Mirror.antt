-- ===== src/Mirror.antt =====
-- blindrange/mirror.py: the local copy of a database's keys. The tables kv and meta are the fields of a
-- record; keys and values are numbers, and times are whole numbers of one unit. A statement for a
-- chunk of 512 keys is run for each chunk, on fuel: the number of keys is enough.
pub mod Reads
use blindrange.Prelude.{
  ℕ, zero, suc, ◌+◌, ◌-◌, ◌*◌, max, Bool, true, false, not, List, [], ◌∷◌, ltb, if◌then◌else◌,
  Option, some, none, length, take, drop, contains, filter, assign,
}

abbrev pub Items : Type 0
Items = List (ℕ × ℕ)

pub record Mirror : Type 0 where
  pub rows : Items
  pub synced_at : Option ℕ
  pub last_pass_s : ℕ
  pub complete_once : Bool
  pub hits : ℕ
  pub misses : ℕ

-- `dict.update`
unfoldable pub update : Items → Items → Items
update d [] = d
update d ((k, v) ∷ items) = update (assign d k v) items

-- `SELECT k, v FROM kv WHERE k IN (chunk)`
unfoldable pub select_in : List ℕ → Items → Items
select_in chunk rows = filter (λ item. contains item.0 chunk) rows

unfoldable pub get_chunks : ℕ → List ℕ → Items → Items → Items
unfolding update select_in
get_chunks zero keys rows out = out
get_chunks (suc f) [] rows out = out
get_chunks (suc f) (k ∷ keys) rows out =
    get_chunks f (drop 512 (k ∷ keys)) rows (update out (select_in (take 512 (k ∷ keys)) rows))

unfoldable pub get_many : List ℕ → Mirror → Items
unfolding get_chunks
get_many keys m = get_chunks (length keys) keys m.rows []

-- `INSERT OR REPLACE` of each pair.
unfoldable pub put_many : Items → Mirror → Mirror
unfolding update
put_many pairs m = record m { rows = update m.rows pairs }

-- `DELETE FROM kv WHERE k IN (chunk)`
unfoldable pub delete_in : List ℕ → Items → Items
delete_in chunk rows = filter (λ item. not (contains item.0 chunk)) rows

unfoldable pub delete_chunks : ℕ → List ℕ → Items → Items
unfolding delete_in
delete_chunks zero keys rows = rows
delete_chunks (suc f) [] rows = rows
delete_chunks (suc f) (k ∷ keys) rows =
    delete_chunks f (drop 512 (k ∷ keys)) (delete_in (take 512 (k ∷ keys)) rows)

unfoldable pub delete_many : List ℕ → Mirror → Mirror
unfolding delete_chunks
delete_many keys m = record m { rows = delete_chunks (length keys) keys m.rows }

unfoldable pub count : Mirror → ℕ
count m = length m.rows

unfoldable pub mark_synced : ℕ → ℕ → Mirror → Mirror
mark_synced now duration_s m = record m {
  synced_at = some now;
  last_pass_s = duration_s;
  complete_once = true;
}

unfoldable pub in_window : ℕ → ℕ → ℕ → Option ℕ → Bool
in_window now stale_s last_pass_s none = false
in_window now stale_s last_pass_s (some synced) = ltb (now - synced) (max stale_s (3 * last_pass_s))

unfoldable pub fresh : ℕ → ℕ → Bool → Mirror → Bool
unfolding in_window
fresh now stale_s single_writer m =
    if not m.complete_once
    then false
    else (if single_writer then true else in_window now stale_s m.last_pass_s m.synced_at)
