-- ===== src/Schema.antt =====
-- blindrange/schema.py: the makers of field specifications.
-- The amounts of a money field are the numbers of cents that the source rounds to, the years of a
-- date field are whole; the specification keeps every key that the source writes.
pub mod Limits
use blindrange.Prelude.{
  ℕ, zero, suc, ◌+◌, ◌-◌, ◌*◌, ◌^◌, Bool, leb, if◌then◌else◌, min, max, Option, none, some, String,
  bit_length,
}

pub data Kind : Type 0 where
  number money date text : Kind

pub record FieldSpec : Type 0 where
  pub kind : Kind
  pub bits : ℕ
  pub leaf_width : ℕ
  pub scale : Option ℕ
  pub epoch : Option String
  pub chars : Option ℕ
  pub label : Option String

abbrev pub max_bits : ℕ
max_bits = 36

-- `math.ceil(math.log2(n))`: the first power of two that is not below `n`, on fuel; `n` rounds
-- are enough.
unfoldable pub ceil_log2_from : ℕ → ℕ → ℕ → ℕ
ceil_log2_from zero k n = k
ceil_log2_from (suc f) k n =
    let rest = ceil_log2_from f (k + 1) n in if leb n (2 ^ k) then k else rest

unfoldable pub ceil_log2 : ℕ → ℕ
unfolding ceil_log2_from
ceil_log2 n = ceil_log2_from n 0 n

unfoldable pub bits_for : ℕ → ℕ
unfolding ceil_log2
bits_for max_value = max 1 (min max_bits (ceil_log2 (max 1 max_value + 1)))

unfoldable pub pow2_floor : ℕ → ℕ
pow2_floor n = if leb 1 n then 2 ^ max 0 (bit_length n - 1) else 1

unfoldable pub leaf_for : ℕ → ℕ → ℕ
unfolding pow2_floor
leaf_for bits bucket = max 1 (min (pow2_floor bucket) (2 ^ max 0 (bits - 1)))

unfoldable pub number_field : ℕ → ℕ → Option String → FieldSpec
unfolding bits_for leaf_for
number_field max_value bucket label = record {
  kind = number;
  bits = bits_for max_value;
  leaf_width = leaf_for (bits_for max_value) bucket;
  scale = some 1;
  epoch = none;
  chars = none;
  label = label;
}

unfoldable pub money_field : ℕ → ℕ → Option String → FieldSpec
unfolding bits_for leaf_for
money_field max_cents bucket_cents label = record {
  kind = money;
  bits = bits_for max_cents;
  leaf_width = leaf_for (bits_for max_cents) (max 1 bucket_cents);
  scale = some 100;
  epoch = none;
  chars = none;
  label = label;
}

unfoldable pub date_field : ℕ → ℕ → String → Option String → FieldSpec
unfolding bits_for leaf_for
date_field years bucket_days epoch label = record {
  kind = date;
  bits = bits_for (years * 366);
  leaf_width = leaf_for (bits_for (years * 366)) bucket_days;
  scale = some 1;
  epoch = some epoch;
  chars = none;
  label = label;
}

unfoldable pub text_field : ℕ → ℕ → Option String → FieldSpec
unfolding leaf_for
text_field chars blur label = record {
  kind = text;
  bits = chars * 5;
  leaf_width = leaf_for (chars * 5) blur;
  scale = none;
  epoch = none;
  chars = some chars;
  label = label;
}
