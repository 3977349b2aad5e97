-- ===== src/Dyadic.antt =====
-- blindrange/dyadic.py: the dyadic intervals of a field's domain [0, 2 ^ bits).
-- A label is a pair of a level and an index; the label (l, i) stands for the interval of width
-- 2 ^ (bits - l) that starts at i * 2 ^ (bits - l). `text` encodings are in Dyadic/Text.
pub mod Bounds
pub mod Cover
pub mod Query
pub mod Text
use blindrange.Prelude.{
  ℕ, zero, suc, ◌+◌, ◌-◌, ◌*◌, ◌/◌, ◌^◌, bit_and, Bool, ◌&&◌, ◌||◌, List, [], ◌∷◌, ◌++◌, map, not,
  ltb, leb, ◌==◌, if◌then◌else◌, range_from, Result, ok, raise, value_error, bit_length,
}

-- `bits - (leaf_width.bit_length() - 1) < 1` is tested before the subtraction, which stops at 0.
unfoldable pub max_level : ℕ → ℕ → Result ℕ
max_level bits leaf_width =
    if ltb leaf_width 1 || not (bit_and leaf_width (leaf_width - 1) == 0)
    then raise value_error
    else if ltb (bits - (bit_length leaf_width - 1)) 1
    then raise value_error
    else ok (bits - (bit_length leaf_width - 1))

abbrev pub Label : Type 0
Label = ℕ × ℕ

unfoldable pub levels_for : ℕ → ℕ → ℕ → List Label
levels_for value bits mlvl = map (λ lvl. (lvl, value / 2 ^ (bits - lvl))) (range_from 1 mlvl)

-- The inner `rec` of `dyadic_cover`, on fuel: the tests in the order of the source.
unfoldable pub cover_rec : ℕ → ℕ → ℕ → ℕ → ℕ → ℕ → ℕ → ℕ → List Label
cover_rec a b mlvl zero lo hi lvl idx = []
cover_rec a b mlvl (suc fuel) lo hi lvl idx =
    let mid = (lo + hi) / 2 in
    let left = cover_rec a b mlvl fuel lo mid (lvl + 1) (idx * 2) in
    let right = cover_rec a b mlvl fuel (mid + 1) hi (lvl + 1) (idx * 2 + 1) in
    if ltb hi a || ltb b lo
    then []
    else if (leb a lo && leb hi b && leb 1 lvl) || lvl == mlvl
    then (lvl, idx) ∷ []
    else left ++ right

-- The recursion is at most `mlvl` levels deep, so `mlvl + 1` rounds are enough.
unfoldable pub dyadic_cover : ℕ → ℕ → ℕ → ℕ → List Label
unfolding cover_rec
dyadic_cover a b bits mlvl = cover_rec a b mlvl (suc mlvl) 0 (2 ^ bits - 1) 0 0
