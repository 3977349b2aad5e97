-- ===== src/Client/Index.antt =====
-- The index of blindrange/client.py: what an insert writes, and what is read from chain lengths.
-- A word names one label of one field; the chain of a word has the entries 1, 2, ….
-- The PRF and the cipher are not modelled: `entry w i rid` stands for the pair of the key
-- `_ut(k_w, E, me, i)` and the masked record id, `blob rid` for the sealed record.
pub mod Dense
pub mod Chains
pub mod Count
pub mod Returns
pub mod Bars
use mathlib.Core.List.{foldl}
use blindrange.Prelude.{
  ℕ, zero, suc, ◌+◌, ◌-◌, ◌*◌, ◌/◌, Bool, ◌&&◌, List, [], ◌∷◌, ◌++◌, map, ◌==◌, if◌then◌else◌,
  String, str_eq, Option, none, some, Result, ok, raise, ◌>>=◌, sum, range_from, length, take, drop,
  ltb,
}
use blindrange.Dyadic.{Label, max_level, levels_for, dyadic_cover}

abbrev pub Word : Type 0
Word = String × Label

abbrev pub same_word : Word → Word → Bool
same_word (f, (l, i)) (g, (m, j)) = str_eq f g && (l == m && i == j)

-- `schema[field]`
pub record Spec : Type 0 where
  pub bits : ℕ
  pub leaf_width : ℕ

abbrev pub Schema : Type 0
Schema = List (String × Spec)

pub data Put : Type 0 where
  blob : ℕ → Put
  entry : Word → ℕ → ℕ → Put

-- `chains.get(w, 0)`, and the puts made so far.
pub record Index : Type 0 where
  pub chains : Word → ℕ
  pub puts : List Put

-- The body of the innermost loop of `insert_many`.
unfoldable pub index_word : ℕ → Index → Word → Index
index_word rid s w = record {
  chains = λ x. if same_word w x then s.chains w + 1 else s.chains x;
  puts = s.puts ++ entry w (s.chains w + 1) rid ∷ [];
}

unfoldable pub index_value : ℕ → String → Spec → ℕ → Index → Result Index
unfolding index_word
index_value rid field spec v s = do
  mlvl ← max_level spec.bits spec.leaf_width
  ok (foldl (index_word rid) s (map (λ c. (field, c)) (levels_for v spec.bits mlvl)))

-- A record gives the encoded value of each field that it has.
abbrev pub Row : Type 0
Row = String → Option ℕ

-- `if field not in rec: continue`
unfoldable pub index_field : ℕ → String → Spec → Option ℕ → Index → Result Index
unfolding index_value
index_field rid field spec none s = ok s
index_field rid field spec (some v) s = index_value rid field spec v s

unfoldable pub index_fields : ℕ → Row → Schema → Index → Result Index
unfolding index_field
index_fields rid rec [] s = ok s
index_fields rid rec ((field, spec) ∷ rest) s =
    index_field rid field spec (rec field) s >>= index_fields rid rec rest

-- The loop of `insert_many`; each record comes with the random id that is drawn for it.
unfoldable pub insert_many : Schema → List (ℕ × Row) → Index → Result Index
unfolding index_fields
insert_many schema [] s = ok s
insert_many schema ((rid, rec) ∷ rest) s =
    index_fields rid rec schema (record s { puts = s.puts ++ blob rid ∷ [] })
    >>= insert_many schema rest

-- `_chain_lengths` summed as `count` sums it: `ends` is what `_discover_ends` returns.
unfoldable pub chain_total : (ℕ → ℕ → Label → ℕ) → List ℕ → List ℕ → List Label → ℕ
chain_total ends epochs writers intervals =
    sum (map (λ c. sum (map (λ ep. sum (map (λ u. ends ep u c) writers)) epochs)) intervals)

unfoldable pub count : (ℕ → ℕ → Label → ℕ) → List ℕ → List ℕ → Spec → ℕ → ℕ → Result ℕ
unfolding chain_total
count ends epochs writers spec a b = do
  mlvl ← max_level spec.bits spec.leaf_width
  ok (chain_total ends epochs writers (dyadic_cover a b spec.bits mlvl))

pub record Bar : Type 0 where
  pub lo : ℕ
  pub hi : ℕ
  pub number : ℕ

-- `range(a // w, b // w + 1)`, with the level of the leaves.
unfoldable pub leaves : ℕ → ℕ → ℕ → ℕ → List Label
leaves mlvl w a b = map (λ idx. (mlvl, idx)) (range_from (a / w) (b / w + 1 - a / w))

abbrev last_hi : ℕ → List Bar → ℕ
last_hi hi [] = hi
last_hi hi (b ∷ bs) = last_hi b.hi bs

-- One bar for a group of adjacent bars.
unfoldable pub join_bars : List Bar → List Bar
join_bars [] = []
join_bars (b ∷ bs) =
    record { lo = b.lo; hi = last_hi b.hi bs; number = sum (map (λ c. c.number) (b ∷ bs)) } ∷ []

-- The groups `bars[i:i + step]`, on fuel: as many as there are bars are enough.
unfoldable pub group_bars : ℕ → ℕ → List Bar → List Bar
unfolding join_bars
group_bars fuel step [] = []
group_bars zero step (b ∷ bs) = []
group_bars (suc f) step (b ∷ bs) =
    join_bars (take step (b ∷ bs)) ++ group_bars f step (drop step (b ∷ bs))

-- `if buckets and len(bars) > buckets`
unfoldable pub reduce_bars : ℕ → List Bar → List Bar
unfolding group_bars
reduce_bars buckets bars =
    if ltb 0 buckets && ltb buckets (length bars)
    then group_bars (length bars) ((length bars + buckets - 1) / buckets) bars
    else bars

-- `buckets` is 0 when no reduction is asked for.
unfoldable pub histogram :
    (ℕ → ℕ → Label → ℕ) → List ℕ → List ℕ → Spec → ℕ → ℕ → ℕ → Result (List Bar)
unfolding leaves chain_total reduce_bars
histogram ends epochs writers spec a b buckets = do
  mlvl ← max_level spec.bits spec.leaf_width
  let w = spec.leaf_width
  ok (
      reduce_bars buckets (
        map
          (λ c. record {
            lo = c.1 * w;
            hi = c.1 * w + w - 1;
            number = chain_total ends epochs writers (c ∷ []);
          })
          (leaves mlvl w a b)))

-- The estimate and its error in halves, so that the midpoints stay whole; and the count.
unfoldable pub approx_sum :
    (ℕ → ℕ → Label → ℕ) → List ℕ → List ℕ → Spec → ℕ → ℕ → Result (ℕ × ℕ × ℕ)
unfolding histogram
approx_sum ends epochs writers spec a b = do
  bars ← histogram ends epochs writers spec a b 0
  let n = sum (map (λ bar. bar.number) bars)
  ok (sum (map (λ bar. bar.number * (bar.lo + bar.hi)) bars), n * spec.leaf_width, n)
