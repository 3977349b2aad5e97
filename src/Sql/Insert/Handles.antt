-- ===== src/Sql/Insert/Handles.antt =====
-- The KEY columns of an INSERT of blindrange/sql.py: a row is found by its handle.
use blindrange.Prelude.{
  ℕ, zero, suc, ◌+◌, ◌-◌, ◌^◌, ◌<◌, ◌≡◌, refl, ap, ◌∙◌, Bool, true, false, ◌&&◌, List, [], ◌∷◌,
  ◌++◌, leb, String, Option, some, arith, inl, ok, ◌>>=◌, bit_and_le, length,
}
use blindrange.Sql.{
  Text, Token, Tokens, num, str, ident, op, next_kw, tail, refused, get_column, eat_value, text_eq,
  Value, number, text, text_of, key, Columns, find, Fields, key_bits, key_bucket_of,
}
use blindrange.Sql.Where.{
  Pred, range, Post, handle, Narrowed, narrow, narrow_bounds, on_key, on_column, condition,
  conditions, where_clause, nothing_narrowed, passes, ranges, top_of, with_prefixes,
}
use blindrange.Sql.Where.Exact.{stop}
use blindrange.Sql.Insert.Filling.{fill_keys-Holds}
use blindrange.Sql.Insert.{text_or_empty, or_random, Filled, fill_keys}

text_eq_refl : (t : Text) → text_eq t t ≡ true
text_eq_refl [] = refl
text_eq_refl (x ∷ xs) = ground (arith, text_eq_refl xs)

-- The token of a value.
abbrev pub token_of : Value → Token
token_of (number n) = num n
token_of (text s) = str s

abbrev pub in_range : Option Value → ℕ → ℕ → Bool
in_range (some (number n)) lo hi = leb lo n && leb n hi
in_range _ lo hi = false

read_key :
    (key_bucket : String → Text → ℕ) (meta : Columns) (c : String) (v : Value) (s : Narrowed)
    (rest : Tokens)
    → find c meta ≡ some key
    → condition key_bucket meta s (ident c ∷ op "=" ∷ token_of v ∷ rest)
      ≡ ok (
        record {
          bounds =
              narrow_bounds c
                (some (key_bucket c (text_of v)))
                (some (key_bucket c (text_of v) + 1))
                s.bounds;
          prefixes = s.prefixes;
          posts = s.posts ++ handle c v ∷ [];
        },
        rest,
      )
unfolding condition refused on_column on_key narrow eat_value
read_key key_bucket meta c v s rest e =
    let got : get_column c meta ≡ ok key = rw (e, get_column) refl in
    ap (λ r. r >>= λ spec. on_column key_bucket meta c spec s (op "=" ∷ token_of v ∷ rest)) got
    ∙ value v
  where
    value :
        (v : Value)
        → on_column key_bucket meta c key s (op "=" ∷ token_of v ∷ rest)
          ≡ ok (
            record {
              bounds =
                  narrow_bounds c
                    (some (key_bucket c (text_of v)))
                    (some (key_bucket c (text_of v) + 1))
                    s.bounds;
              prefixes = s.prefixes;
              posts = s.posts ++ handle c v ∷ [];
            },
            rest,
          )
    value (number n) = refl
    value (text t) = refl

key_bucket_of_lt :
    (hash : String → Text → ℕ) (c : String) (t : Text) → key_bucket_of hash c t < 2 ^ key_bits
unfolding key_bucket_of
key_bucket_of_lt hash c t = omega (arith, bit_and_le (hash c t) (2 ^ key_bits - 1))

-- The predicates of one condition on a KEY column.
one_range :
    (meta : Columns) (c : String) (b : ℕ)
    → find c meta ≡ some key
    → b < 2 ^ key_bits
    → ranges meta (narrow_bounds c (some b) (some (b + 1)) []) ≡ some (range c b b ∷ [])
unfolding ranges narrow_bounds top_of
one_range meta c b e h =
    let top : top_of meta c ≡ 2 ^ key_bits = rw (top_of, e) refl in rw top (ground (arith, h))

where_clause-handle :
    (hash : String → Text → ℕ) (meta : Columns) (c : String) (v : Value) (rest : Tokens)
    → find c meta ≡ some key
    → next_kw "AND" rest ≡ false
    → where_clause (key_bucket_of hash) meta (ident c ∷ op "=" ∷ token_of v ∷ rest)
      ≡ ok (
        (
          some (range c (key_bucket_of hash c (text_of v)) (key_bucket_of hash c (text_of v)) ∷ []),
          handle c v ∷ [],
        ),
        rest,
      )
unfolding where_clause conditions
where_clause-handle hash meta c v rest e h =
    let kb = key_bucket_of hash in
    rw
      (
        read_key kb meta c v nothing_narrowed rest e,
        stop (next_kw "AND" rest) (conditions kb meta (suc (suc (suc (length rest)))) _ (tail rest))
            _ h,
      )
      (ap (λ (r : Option (List Pred)). ok ((with_prefixes [] (handle c v ∷ []) r), rest))
        (one_range meta c (kb c (text_of v)) e (key_bucket_of_lt hash c (text_of v))))

-- A handle that is not empty is stored as it is.
given_handle :
    (o : Option Value) (v : Value) (x : ℕ) (xs random : Text)
    → o ≡ some v
    → text_or_empty (some v) ≡ x ∷ xs
    → or_random (text_or_empty o) random ≡ text_of v
unfolding text_or_empty or_random
given_handle o (number zero) x xs random e h = cc
given_handle o (number (suc n)) x xs random e h = rw e (rw h refl)
given_handle o (text t) x xs random e h = rw e (rw h refl)

-- A row that is inserted with a handle for a KEY column, not empty and not 0, is found by it: the
-- condition `c = v` asks the index for the bucket that is stored for the row, and its filter passes.
pub where_clause-fill_keys :
    (hash : String → Text → ℕ) (random : ℕ → Text) (meta : Columns) (row : Fields) (s : Filled)
    → (c : String) (v : Value) (x : ℕ) (xs : Text) (rest : Tokens) → find c meta ≡ some key
    → find c row ≡ some v
    → text_or_empty (some v) ≡ x ∷ xs
    → next_kw "AND" rest ≡ false
    → (lo : ℕ) × (hi : ℕ) × (post : Post) × (where_clause
          (key_bucket_of hash)
          meta
          (ident c ∷ op "=" ∷ token_of v ∷ rest)
        ≡ ok ((some (range c lo hi ∷ []), post ∷ []), rest))
      × (in_range (find c (fill_keys (key_bucket_of hash) random meta row s).row.columns) lo hi
          ≡ true)
      × (passes post (fill_keys (key_bucket_of hash) random meta row s).row ≡ true)
unfolding passes
where_clause-fill_keys hash random meta row s c v x xs rest e i t h =
    let b = key_bucket_of hash c (text_of v) in
    let (col, plain) =
      fill_keys-Holds (key_bucket_of hash) random c meta row (text_of v) s
        (λ n. given_handle (find c row) v x xs (random n) i t) (inl e) in
    (
      b,
      b,
      handle c v,
      where_clause-handle hash meta c v rest e h,
      rw col (ground arith),
      rw plain (text_eq_refl (text_of v)),
    )
