-- ===== src/Tests/Schema.antt =====
-- Runs of the functions of blindrange/schema.py, and instances of the theorems about them.
use blindrange.Prelude.{◌≡◌, refl, none, bit_length, arith}
use blindrange.Schema.{
  bits_for, leaf_for, pow2_floor, number_field, money_field, date_field, text_field,
}
use blindrange.Schema.Limits.{Indexable, makers-accepted}

-- Amounts up to 10,000.00 in buckets of 25.00.
bits_run : bits_for 1000000 ≡ 20
unfolding bits_for
bits_run = refl

leaf_run : leaf_for 20 2500 ≡ 2048
unfolding leaf_for pow2_floor bit_length
leaf_run = refl

makers-accepted_example :
    Indexable (number_field 1000 16 none)
    × Indexable (money_field 1000 16 none)
    × Indexable (date_field 1000 16 "2024-01-01" none)
    × Indexable (text_field 4 16 none)
makers-accepted_example = makers-accepted none "2024-01-01" 1000 16 4 (omega arith)
