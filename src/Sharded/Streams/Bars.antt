-- ===== src/Sharded/Streams/Bars.antt =====
-- The histogram of blindrange/sharded.py: no record is lost between the shards' bars and the result.
use blindrange.Prelude.{
  ℕ, ◌+◌, ◌≤◌, ◌<◌, ◌≡◌, refl, List, [], ◌∷◌, map, length, sum, arith, ok, bind-returns,
}
use blindrange.Client.Index.{Bar, reduce_bars}
use blindrange.Client.Index.Bars.{records, reduce_bars_lem}
use blindrange.Sharded.{Owner, fan_read}
use blindrange.Sharded.Streams.{add_bar, add_bars, add_parts, histogram}

records-add_bar : (b : Bar) (cs : List Bar) → records (add_bar b cs) ≡ b.number + records cs
unfolding add_bar
records-add_bar b [] = refl
records-add_bar b (c ∷ cs) = ground (arith, records-add_bar b cs)

records-add_bars :
    (bs totals : List Bar) → records (add_bars bs totals) ≡ records bs + records totals
unfolding add_bars
records-add_bars [] totals = omega arith
records-add_bars (b ∷ bs) totals =
    omega (arith, records-add_bars bs (add_bar b totals), records-add_bar b totals)

records-add_parts :
    (parts : List (List Bar)) (totals : List Bar)
    → records (add_parts parts totals) ≡ sum (map records parts) + records totals
unfolding add_parts
records-add_parts [] totals = omega arith
records-add_parts (part ∷ parts) totals =
    omega (arith, records-add_parts parts (add_bars part totals), records-add_bars part totals)

-- The bars of the sharded histogram stand for the records that the bars of all the shards stand for,
-- and they are at most as many as were asked for.
pub records-histogram :
    {St Rec Query : Type 0} (o : Owner St Rec Query) (q : Query) (buckets : ℕ) (shards : List St)
    → 0 < buckets
    → (parts : List (List Bar)) (bars : List Bar) → fan_read (o.histogram q) shards ≡ ok parts
    → histogram o q buckets shards ≡ ok bars
    → (records bars ≡ sum (map records parts)) × (length bars ≤ buckets)
unfolding histogram
records-histogram o q buckets shards pos parts bars e h =
    let (parts', e1, e2) = bind-returns (fan_read (o.histogram q) shards) _ h in
    let one : parts' ≡ parts = cc in
    let same : bars ≡ reduce_bars buckets (add_parts parts []) = cc in
    let (a, b) = reduce_bars_lem buckets (add_parts parts []) pos in
    rw same (omega (arith, a, records-add_parts parts []), b)
