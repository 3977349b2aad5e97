-- ===== src/Client/Index/Bars.antt =====
-- `histogram` of blindrange/client.py: what the reduction to a number of bars keeps.
use native.Mathlib.Nat.{lt-div-mul-add, mul_comm, suc-mul}
use blindrange.Prelude.{
  ℕ, zero, suc, ◌+◌, ◌-◌, ◌*◌, ◌/◌, ◌≤◌, ◌<◌, ◌≡◌, refl, sym, ap, ◌∙◌, ◌&&◌, List, [], ◌∷◌, ◌++◌,
  map, ltb, length, length-drop, take, drop, take-append-drop, sum, sum-append, arith, Bool-cases,
  inl, inr,
}
use mathlib.Core.List.{map-append}
use blindrange.Client.Index.{Bar, join_bars, group_bars, reduce_bars}

-- The records that the bars stand for.
abbrev pub records : List Bar → ℕ
records bars = sum (map (λ b. b.number) bars)

pub records-append : (xs ys : List Bar) → records (xs ++ ys) ≡ records xs + records ys
records-append xs ys = rw map-append (sum-append (map (λ b. b.number) xs) (map (λ b. b.number) ys))

records-join_bars : (bs : List Bar) → records (join_bars bs) ≡ records bs
unfolding join_bars
records-join_bars [] = refl
records-join_bars (b ∷ bs) = omega arith

records-group_bars :
    (fuel step : ℕ) (bs : List Bar)
    → 1 ≤ step
    → length bs ≤ fuel
    → records (group_bars fuel step bs) ≡ records bs
unfolding group_bars
records-group_bars fuel step [] h le = refl
records-group_bars zero step (b ∷ bs) h le = absurd (omega arith)
records-group_bars (suc f) step (b ∷ bs) h le =
    let front = take step (b ∷ bs) in
    let back = drop step (b ∷ bs) in
    let whole : records front + records back ≡ records (b ∷ bs) =
      sym (records-append front back) ∙ ap records (take-append-drop step (b ∷ bs)) in
    records-append (join_bars front) (group_bars f step back)
    ∙ omega (
      arith,
      records-join_bars front,
      records-group_bars f step back h (omega (arith, length-drop step (b ∷ bs))),
      whole,
    )

length-group_bars :
    (fuel step m : ℕ) (bs : List Bar) → length bs ≤ m * step → length (group_bars fuel step bs) ≤ m
unfolding group_bars join_bars
length-group_bars fuel step m [] h = omega arith
length-group_bars zero step m (b ∷ bs) h = omega arith
length-group_bars (suc f) zero zero (b ∷ bs) h = absurd (omega (arith, h))
length-group_bars (suc f) zero (suc m) (b ∷ bs) h = absurd (omega (arith, h))
length-group_bars (suc f) (suc s) zero (b ∷ bs) h = absurd (omega (arith, h))
length-group_bars (suc f) (suc s) (suc m) (b ∷ bs) h =
    let fewer =
      length-group_bars f (suc s) m (drop s bs)
        (omega (arith, h, length-drop s bs, suc-mul m (suc s))) in
    omega (arith, fewer)

ceil_covers : (n b : ℕ) → 0 < b → n ≤ b * ((n + b - 1) / b)
ceil_covers n b h = omega (arith, h, lt-div-mul-add {a = n + b - 1} h, mul_comm ((n + b - 1) / b) b)

-- The reduction keeps the records that the bars stand for, and leaves at most as many bars as were
-- asked for.
pub reduce_bars_lem :
    (buckets : ℕ) (bars : List Bar)
    → 0 < buckets
    → (records (reduce_bars buckets bars) ≡ records bars)
      × (length (reduce_bars buckets bars) ≤ buckets)
unfolding reduce_bars
reduce_bars_lem buckets bars h = elim (Bool-cases (ltb 0 buckets && ltb buckets (length bars))) [
  | inl many ↦
      let step = (length bars + buckets - 1) / buckets in
      let covers = ceil_covers (length bars) buckets h in
      let some_step : 1 ≤ step = positive step covers (ground arith) in
      rw many (
        records-group_bars (length bars) step bars some_step (omega arith),
        length-group_bars (length bars) step buckets bars covers,
      )
  | inr few ↦ rw few (refl, ground (arith, h))
]
  where
    positive : (step : ℕ) → length bars ≤ buckets * step → 0 < length bars → 1 ≤ step
    positive zero c p = absurd (omega (arith, c, p))
    positive (suc s) c p = omega arith
