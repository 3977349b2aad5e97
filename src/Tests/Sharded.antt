-- ===== src/Tests/Sharded.antt =====
-- Runs of the functions of blindrange/sharded.py, and instances of the theorems about them.
use mathlib.Core.List.{Perm}
use blindrange.Prelude.{
  ℕ, ◌+◌, ◌/◌, ◌%◌, ◌≤◌, ◌≡◌, refl, ap, true, ◌==◌, List, [], ◌∷◌, ◌++◌, map, leb, ltb,
  if◌then◌else◌, length, get_elem?, none, some, ok, raise, value_error, arith, show, read,
  bit_length,
}
use blindrange.Client.Index.{
  Bar, reduce_bars, group_bars, join_bars, Spec, Row, Index, insert_many as index_many,
  count as index_count, index_fields, index_field, index_value, index_word, chain_total,
}
use blindrange.Client.Index.Bars.{records}
use blindrange.Sharded.{
  Text, Owner, tag, untag, partition, deal, push_at, shard_for_insert, empty_buckets, fan, fan_read,
  fan_reads, inserted, delete_grouped, collect, insert_call, insert_many, delete_many,
  delete_groups, group_handles, set_default, set_at, count,
}
use blindrange.Sharded.Deal.{weight}
use blindrange.Sharded.Even.{deal_even}
use blindrange.Sharded.Refine.{sharded-Counts}
use blindrange.Sharded.Refine.Indexed.{indexed, Fits, matching as matching_rows, indexed-Counts}
use blindrange.Dyadic.{max_level, levels_for, dyadic_cover}
use blindrange.Dyadic.Cover.{overlaps}
use blindrange.Sharded.Streams.{
  Found, interleave, heads, still_live, concat, histogram, add_bar, add_bars, add_parts,
  query_stream, merged, limited, tag_all, tagged,
}
use blindrange.Sharded.Streams.Interleave.{interleave-Perm}
use blindrange.Sharded.Streams.Merge.{IsSorted, asked, with_sign, query_stream-IsSorted}
use blindrange.Tests.Merging.{merging, merging-Merges, sorted, put_in_order}
use blindrange.Sharded.Streams.Bars.{records-histogram}

untag_runs : untag (b's' ∷ b'1' ∷ b'2' ∷ b':' ∷ 97 ∷ []) ≡ ok (12, 97 ∷ [])
unfolding untag partition read
untag_runs = refl

untag_raises : untag (97 ∷ b':' ∷ 97 ∷ []) ≡ raise value_error
unfolding untag partition read
untag_raises = refl

abbrev handles : List Text
handles =
    (b's' ∷ b'1' ∷ b':' ∷ 97 ∷ [])
    ∷ (b's' ∷ b'0' ∷ b':' ∷ 98 ∷ [])
    ∷ (b's' ∷ b'1' ∷ b':' ∷ 99 ∷ [])
    ∷ []

abbrev grouped : List (ℕ × List Text)
grouped = (1, (97 ∷ []) ∷ (99 ∷ []) ∷ []) ∷ (0, (98 ∷ []) ∷ []) ∷ []

group_handles_runs : group_handles handles [] ≡ ok grouped
unfolding group_handles untag partition set_default read
group_handles_runs = refl

deal_runs :
    deal {A = ℕ} 3 0 (10 ∷ 11 ∷ 12 ∷ 13 ∷ []) (empty_buckets 3)
    ≡ (10 ∷ 13 ∷ []) ∷ (11 ∷ []) ∷ (12 ∷ []) ∷ []
unfolding deal push_at shard_for_insert empty_buckets
deal_runs = refl

deal_even_example : length {A = ℕ} (10 ∷ 13 ∷ []) ≡ 4 / 3 + (if ltb 0 (4 % 3) then 1 else 0)
deal_even_example =
    deal_even {A = ℕ} 3 (10 ∷ 11 ∷ 12 ∷ 13 ∷ []) 0 (10 ∷ 13 ∷ []) (omega arith)
      (ap (λ b. get_elem? b 0) deal_runs)

-- A shard that keeps numbers and counts those up to a bound.
abbrev matching : ℕ → ℕ → ℕ
matching q r = if leb r q then 1 else 0

abbrev toy_bars : ℕ → List ℕ → List Bar
toy_bars q s = map (λ (r : ℕ). record { lo = r; hi = r; number = matching q r }) s

abbrev toy : Owner (List ℕ) ℕ ℕ
toy = record {
  insert_many = λ rows s. (ok (length rows), s ++ rows);
  delete_many = λ rids s. (ok (length rids), s);
  count = λ q s. ok (weight (matching q) s);
  approx_sum = λ q s. ok (0, 0, 0);
  histogram = λ q s. ok (toy_bars q s);
}

abbrev shards : List (List ℕ)
shards = (5 ∷ []) ∷ (60 ∷ []) ∷ []

insert_many_runs :
    insert_many toy (1 ∷ 2 ∷ 99 ∷ []) shards ≡ (ok 3, (5 ∷ 1 ∷ 99 ∷ []) ∷ (60 ∷ 2 ∷ []) ∷ [])
unfolding insert_many deal push_at shard_for_insert empty_buckets fan insert_call collect inserted
insert_many_runs = refl

count_runs : count toy 50 shards ≡ ok 1
unfolding count fan_read fan_reads collect
count_runs = refl

-- Shards that are indexes of client.py, of records with a field "n" of 2 bits.
abbrev spec : Spec
spec = record { bits = 2; leaf_width = 1 }

abbrev indexes : Owner Index (ℕ × Row) (ℕ × ℕ)
indexes = indexed (λ rids s. (ok (length rids), s)) [] [] "n" spec 1 7

abbrev empty : Index
empty = record { chains = λ w. 0; puts = [] }

abbrev numbers : List (ℕ × Row)
numbers = (700, λ name. some 1) ∷ (701, λ name. some 3) ∷ (702, λ name. some 2) ∷ []

three_inserted : (insert_many indexes numbers (empty ∷ empty ∷ [])).0 ≡ ok 3
unfolding insert_many deal push_at shard_for_insert empty_buckets fan insert_call collect inserted
    index_many index_fields index_field index_value index_word max_level levels_for bit_length
three_inserted = refl

none_counted : count indexes (1, 2) (empty ∷ empty ∷ []) ≡ ok 0
unfolding count fan_read fan_reads collect index_count chain_total max_level dyadic_cover bit_length
none_counted = refl

sharded-Counts_example :
    (◌≡◌ {A = ℕ} 3 3)
    × (count indexes (1, 2) (insert_many indexes numbers (empty ∷ empty ∷ [])).1 ≡ ok 2)
unfolding overlaps
sharded-Counts_example =
    sharded-Counts indexes (Fits (λ rids s. (ok (length rids), s)) [] [] "n" spec 1 7)
      (matching_rows (λ rids s. (ok (length rids), s)) [] [] "n" spec 1 7)
      (indexed-Counts (λ rids s. (ok (length rids), s)) [] [] "n" spec 1 7 tt tt) numbers
      (empty ∷ empty ∷ []) 3 (1, 2) 0 (omega arith, (omega arith, (omega arith, tt))) three_inserted
      none_counted

insert_many_of_none : insert_many toy [] shards ≡ (raise value_error, shards)
unfolding insert_many deal push_at shard_for_insert empty_buckets fan insert_call collect inserted
insert_many_of_none = refl

delete_many_of_none : delete_many toy [] shards ≡ (raise value_error, shards)
unfolding delete_many delete_grouped group_handles
delete_many_of_none = refl

delete_many_runs : delete_many toy handles shards ≡ (ok 3, shards)
unfolding delete_many delete_grouped group_handles untag partition set_default delete_groups set_at
    collect read
delete_many_runs = refl

interleave-Perm_example :
    Perm (interleave {A = ℕ} 6 ((1 ∷ 2 ∷ 3 ∷ []) ∷ [] ∷ (4 ∷ 5 ∷ []) ∷ [])) (1 ∷ 2 ∷ 3 ∷ 4 ∷ 5 ∷ [])
interleave-Perm_example = interleave-Perm ((1 ∷ 2 ∷ 3 ∷ []) ∷ [] ∷ (4 ∷ 5 ∷ []) ∷ [])

interleave_runs :
    interleave {A = ℕ} 6 ((1 ∷ 2 ∷ 3 ∷ []) ∷ [] ∷ (4 ∷ 5 ∷ []) ∷ []) ≡ 1 ∷ 4 ∷ 2 ∷ 5 ∷ 3 ∷ []
unfolding interleave heads still_live
interleave_runs = refl

abbrev row : ℕ → Found ℕ
row n = record { rid = n ∷ []; shard = none; body = n }

-- The field "n" of a row is its number, and any other field is 0.
abbrev value : Text → ℕ → ℕ
value [] n = 0
value (c ∷ name) n = if c == 110 then n else 0

-- Two shards that fall by the field "n".
abbrev falling : List (List (Found ℕ))
falling = (row 9 ∷ row 4 ∷ []) ∷ (row 8 ∷ row 4 ∷ row 1 ∷ []) ∷ []

falling_runs :
    map (λ r. r.body) (query_stream merging value (some (b'-' ∷ 110 ∷ [])) (some 3) falling)
    ≡ 9 ∷ 8 ∷ 4 ∷ []
unfolding query_stream merged limited tag_all tagged sorted put_in_order
falling_runs = refl

query_stream-IsSorted_example :
    (rows : List (Found ℕ)) × Perm rows (concat (tag_all 0 falling))
    × IsSorted (asked merging merging-Merges value true (110 ∷ [])) rows
    × (query_stream merging value (some (with_sign true (110 ∷ []))) (some 3) falling
        ≡ limited (some 3) rows)
query_stream-IsSorted_example =
    query_stream-IsSorted merging merging-Merges value true 110 [] (some 3) falling refl
      (ground arith)

query_stream_runs :
    map
      (λ r. r.rid)
      (query_stream merging value none (some 2) ((row 1 ∷ row 2 ∷ []) ∷ (row 3 ∷ []) ∷ []))
    ≡ (b's' ∷ b'0' ∷ b':' ∷ 1 ∷ []) ∷ (b's' ∷ b'1' ∷ b':' ∷ 3 ∷ []) ∷ []
unfolding query_stream merged limited tag_all tagged interleave heads still_live tag show
query_stream_runs = refl

abbrev bars_of : ℕ → List ℕ → List Bar
bars_of buckets s = reduce_bars buckets (add_bars (toy_bars 100 s) [])

records-histogram_example :
    (records (bars_of 2 (5 ∷ 60 ∷ 7 ∷ [])) ≡ 3) × (length (bars_of 2 (5 ∷ 60 ∷ 7 ∷ [])) ≤ 2)
unfolding histogram fan_read fan_reads collect add_bar add_bars add_parts reduce_bars group_bars
    join_bars
records-histogram_example =
    records-histogram toy 100 2 ((5 ∷ 60 ∷ []) ∷ (7 ∷ []) ∷ []) (omega arith)
      (toy_bars 100 (5 ∷ 60 ∷ []) ∷ toy_bars 100 (7 ∷ []) ∷ []) (bars_of 2 (5 ∷ 60 ∷ 7 ∷ [])) refl
      refl
