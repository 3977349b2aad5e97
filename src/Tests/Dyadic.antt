-- ===== src/Tests/Dyadic.antt =====
-- Runs of the functions of blindrange/dyadic.py, and instances of the theorems about them.
use blindrange.Prelude.{
  ℕ, ◌+◌, ◌-◌, ◌^◌, ◌≤◌, ◌≡◌, refl, ◌↔◌, List, [], ◌∷◌, take, any, if◌then◌else◌, ◌==◌, leb, ◌&&◌,
  ok, raise, type_error, arith, true, bit_length,
}
use blindrange.Dyadic.{max_level, levels_for, dyadic_cover}
use blindrange.Dyadic.Bounds.{max_level-ok_iff}
use blindrange.Dyadic.Cover.{overlaps}
use blindrange.Dyadic.Query.{common, range_query_exact}
use blindrange.Dyadic.Text.{encode_str, prefix_range}
use blindrange.Dyadic.Text.Prefix.{Agree, prefix_query_exact}
use blindrange.Dyadic.Text.Raises.{expands, encode_str_raises}

-- A field of 6 bits with leaves of width 4.
max_level_runs : max_level 6 4 ≡ ok 4
unfolding max_level bit_length
max_level_runs = refl

cover_runs : dyadic_cover 10 40 6 4 ≡ (4, 2) ∷ (4, 3) ∷ (2, 1) ∷ (3, 4) ∷ (4, 10) ∷ []
unfolding dyadic_cover
cover_runs = refl

levels_run : levels_for 13 6 4 ≡ (1, 0) ∷ (2, 0) ∷ (3, 1) ∷ (4, 3) ∷ []
unfolding levels_for
levels_run = refl

max_level-ok_iff_example : (max_level 6 4 ≡ ok 4) ↔ ((4 ≡ 2 ^ (6 - 4)) × (1 ≤ 4) × (4 ≤ 6))
max_level-ok_iff_example = max_level-ok_iff 6 4 4

range_query_exact_example :
    common (levels_for 13 6 4) (dyadic_cover 10 40 6 4) ≡ (if overlaps 10 40 4 13 then 1 else 0)
range_query_exact_example = range_query_exact 6 4 4 10 40 13 max_level_runs (omega arith)

-- `str.lower` on the ASCII letters and on U+0130, and the identity elsewhere.
abbrev lower : ℕ → List ℕ
lower c =
    if c == 304 then 105 ∷ 775 ∷ [] else if leb 65 c && leb c 90 then (c + 32) ∷ [] else c ∷ []

-- "Sa" and "sal".
abbrev prefix : List ℕ
prefix = b'S' ∷ b'a' ∷ []

abbrev sal : List ℕ
sal = b's' ∷ b'a' ∷ b'l' ∷ []

prefix_range_runs : prefix_range lower prefix 3 ≡ ok (19488, 19519)
unfolding prefix_range
prefix_range_runs = refl

encode_str_runs : encode_str lower sal 3 ≡ ok 19500
unfolding encode_str
encode_str_runs = refl

prefix_query_exact_example : ((19488 ≤ 19500) × (19500 ≤ 19519)) ↔ Agree lower 3 prefix sal
prefix_query_exact_example =
    prefix_query_exact lower prefix sal 3 19500 19488 19519 prefix_range_runs encode_str_runs

encode_str_raises_example :
    (encode_str lower (304 ∷ []) 4 ≡ raise type_error)
    ↔ (any (λ c. expands (lower c)) (take 4 (304 ∷ [])) ≡ true)
encode_str_raises_example = encode_str_raises lower (304 ∷ []) 4
