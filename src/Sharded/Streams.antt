-- ===== src/Sharded/Streams.antt =====
-- The merged reads of blindrange/sharded.py. What each shard's `query_stream` yields is a list, and
-- the threads that fetch ahead do not change it.
-- heapq.merge is a parameter: its key function, `reverse` and the streams give the merged rows.
pub mod Interleave
pub mod Merge
pub mod Bars
use blindrange.Prelude.{
  ℕ, zero, suc, ◌+◌, ◌-◌, ◌*◌, ◌/◌, ◌≤◌, Bool, true, false, ◌&&◌, ◌||◌, List, [], ◌∷◌, ◌++◌, map,
  ltb, leb, ◌==◌, if◌then◌else◌, length, take, drop, sum, Option, none, some, Result, ok, ◌>>=◌,
}
use blindrange.Client.Index.{Bar, reduce_bars}
use blindrange.Sharded.{Text, tag, Owner, fan_read}

pub record Found (A : Type 0) : Type 0 where
  pub rid : Text
  pub shard : Option ℕ
  pub body : A

module _ {A : Type 0} where
  unfoldable pub tagged : ℕ → List (Found A) → List (Found A)
  tagged n = map (λ r. record { rid = tag n r.rid; shard = some n; body = r.body })

  unfoldable pub tag_all : ℕ → List (List (Found A)) → List (List (Found A))
  unfolding tagged
  tag_all n [] = []
  tag_all n (rows ∷ rest) = tagged n rows ∷ tag_all (n + 1) rest

abbrev pub concat {ℓ} : {A : Type ℓ} → List (List A) → List A
concat [] = []
concat (xs ∷ xss) = xs ++ concat xss

module _ {ℓ} {A : Type ℓ} where
  -- One round of `_interleave`: what it yields, and the streams that stay live.
  unfoldable pub heads : List (List A) → List A
  heads [] = []
  heads ([] ∷ live) = heads live
  heads ((x ∷ xs) ∷ live) = x ∷ heads live

  unfoldable pub still_live : List (List A) → List (List A)
  still_live [] = []
  still_live ([] ∷ live) = still_live live
  still_live ((x ∷ xs) ∷ live) = xs ∷ still_live live

  -- `_interleave`, on fuel: one round more than there are rows is enough.
  unfoldable pub interleave : ℕ → List (List A) → List A
  unfolding heads still_live
  interleave fuel [] = []
  interleave zero (s ∷ live) = []
  interleave (suc f) (s ∷ live) = heads (s ∷ live) ++ interleave f (still_live (s ∷ live))

  unfoldable pub limited : Option ℕ → List A → List A
  limited none rows = rows
  limited (some limit) rows = take limit rows

-- `str(order).startswith("-")`
abbrev pub is_desc : Text → Bool
is_desc [] = false
is_desc (c ∷ order) = c == b'-'

-- `str(order)[1:] if desc else order`
abbrev pub key_field : Text → Text
key_field order = if is_desc order then drop 1 order else order

-- `value field row` is the place of the row's value of the field in the order of its values; each row
-- has the field of the order.
module _ {A : Type 0} (heapq_merge : (Found A → ℕ) → Bool → List (List (Found A)) → List (Found A))
    (value : Text → A → ℕ) where
  -- An empty `order` is falsy, as None is.
  unfoldable pub merged : Option Text → List (List (Found A)) → List (Found A)
  unfolding interleave
  merged none streams = interleave (suc (length (concat streams))) streams
  merged (some []) streams = interleave (suc (length (concat streams))) streams
  merged (some (c ∷ order)) streams =
      heapq_merge (λ r. value (key_field (c ∷ order)) r.body) (is_desc (c ∷ order)) streams

  unfoldable pub query_stream : Option Text → Option ℕ → List (List (Found A)) → List (Found A)
  unfolding merged limited tag_all
  query_stream order limit streams = limited limit (merged order (tag_all 0 streams))

module _ {A : Type 0} where
  unfoldable pub query_multi : List (List (Found A)) → List (Found A)
  unfolding tag_all
  query_multi answers = concat (tag_all 0 answers)

-- `totals[key] = totals.get(key, 0) + count`, with the keys in order.
unfoldable pub add_bar : Bar → List Bar → List Bar
add_bar b [] = b ∷ []
add_bar b (c ∷ cs) =
    let rest = add_bar b cs in
    if b.lo == c.lo && b.hi == c.hi
    then record c { number = c.number + b.number } ∷ cs
    else if ltb b.lo c.lo || (b.lo == c.lo && ltb b.hi c.hi)
    then b ∷ c ∷ cs
    else c ∷ rest

unfoldable pub add_bars : List Bar → List Bar → List Bar
unfolding add_bar
add_bars [] totals = totals
add_bars (b ∷ bs) totals = add_bars bs (add_bar b totals)

unfoldable pub add_parts : List (List Bar) → List Bar → List Bar
unfolding add_bars
add_parts [] totals = totals
add_parts (part ∷ parts) totals = add_parts parts (add_bars part totals)

module _ {St Rec Query : Type 0} (o : Owner St Rec Query) where
  unfoldable pub histogram : Query → ℕ → List St → Result (List Bar)
  unfolding fan_read add_parts reduce_bars
  histogram q buckets shards =
      fan_read (o.histogram q) shards >>= λ parts. ok (reduce_bars buckets (add_parts parts []))
