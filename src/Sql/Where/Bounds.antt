-- ===== src/Sql/Where/Bounds.antt =====
-- Comparisons with numbers in a WHERE clause of blindrange/sql.py, and the bounds that hold for them.
use blindrange.Prelude.{
  ℕ, ◌+◌, ◌-◌, ◌<◌, ◌≡◌, refl, Bool, true, false, ◌&&◌, List, [], ◌∷◌, ◌++◌, all, ltb, leb, ◌==◌,
  String, str_eq, str_eq_iff, Option, none, some, arith, Bool-cases, inl, inr,
}
use blindrange.Sql.{Tokens, num, kw, ident, op, Columns}
use blindrange.Sql.Where.{
  Pred, range, begins, Bounds, narrow_bounds, raised, lowered, ranges, top_of, low, high, add_pred,
}

-- A comparison of a column with numbers.
pub data Comparison : Type 0 where
  between : ℕ → ℕ → Comparison
  eq ge gt le lt : ℕ → Comparison

abbrev pub Condition : Type 0
Condition = String × Comparison

abbrev pub print : Comparison → Tokens
print (between a b) = kw "BETWEEN" ∷ num a ∷ kw "AND" ∷ num b ∷ []
print (eq v) = op "=" ∷ num v ∷ []
print (ge v) = op ">=" ∷ num v ∷ []
print (gt v) = op ">" ∷ num v ∷ []
print (le v) = op "<=" ∷ num v ∷ []
print (lt v) = op "<" ∷ num v ∷ []

-- A clause, with the tokens after it.
abbrev pub print_all : Condition → List Condition → Tokens → Tokens
print_all (c, k) [] rest = ident c ∷ (print k ++ rest)
print_all (c, k) (d ∷ ds) rest = ident c ∷ (print k ++ kw "AND" ∷ print_all d ds rest)

abbrev pub holds : Comparison → ℕ → Bool
holds (between a b) v = leb a v && leb v b
holds (eq n) v = v == n
holds (ge n) v = leb n v
holds (gt n) v = ltb n v
holds (le n) v = leb v n
holds (lt n) v = ltb v n

abbrev pub from_of : Comparison → Option ℕ
from_of (between a b) = some a
from_of (eq v) = some v
from_of (ge v) = some v
from_of (gt v) = some (v + 1)
from_of (le v) = none
from_of (lt v) = none

abbrev pub end_of : Comparison → Option ℕ
end_of (between a b) = some (b + 1)
end_of (eq v) = some (v + 1)
end_of (ge v) = none
end_of (gt v) = none
end_of (le v) = some (v + 1)
end_of (lt v) = some v

abbrev pub from_holds : Option ℕ → ℕ → Bool
from_holds none v = true
from_holds (some lo) v = leb lo v

abbrev pub end_holds : Option ℕ → ℕ → Bool
end_holds none v = true
end_holds (some end) v = ltb v end

abbrev pub within : Bounds → (String → ℕ) → Bool
within [] v = true
within ((c, lo, end) ∷ rest) v = (from_holds lo (v c) && end_holds end (v c)) && within rest v

abbrev pub all_hold : List Condition → (String → ℕ) → Bool
all_hold cs v = all (λ c. holds c.1 (v c.0)) cs

abbrev pub matches : (String → ℕ) → Pred → Bool
matches v (range c lo hi) = leb lo (v c) && leb (v c) hi
matches v (begins c p) = true

holds_bounds :
    (k : Comparison) (v : ℕ) → holds k v ≡ (from_holds (from_of k) v && end_holds (end_of k) v)
holds_bounds (between a b) v = ground arith
holds_bounds (eq n) v = ground arith
holds_bounds (ge n) v = ground arith
holds_bounds (gt n) v = ground arith
holds_bounds (le n) v = ground arith
holds_bounds (lt n) v = ground arith

raised_holds :
    (old lo : Option ℕ) (v : ℕ)
    → from_holds (raised old lo) v ≡ (from_holds old v && from_holds lo v)
raised_holds none none v = refl
raised_holds (some l) none v = ground arith
raised_holds none (some m) v = ground arith
raised_holds (some l) (some m) v = ground arith

lowered_holds :
    (old end : Option ℕ) (v : ℕ)
    → end_holds (lowered old end) v ≡ (end_holds old v && end_holds end v)
lowered_holds none none v = refl
lowered_holds (some l) none v = ground arith
lowered_holds none (some m) v = ground arith
lowered_holds (some l) (some m) v = ground arith

within-narrow_bounds :
    (col : String) (lo end : Option ℕ) (bounds : Bounds) (v : String → ℕ)
    → within (narrow_bounds col lo end bounds) v
      ≡ ((from_holds lo (v col) && end_holds end (v col)) && within bounds v)
unfolding narrow_bounds
within-narrow_bounds col lo end [] v =
    ground (arith, raised_holds none lo (v col), lowered_holds none end (v col))
within-narrow_bounds col lo end ((c, l, e) ∷ rest) v = elim (Bool-cases (str_eq c col)) [
  | inl here ↦
      let same : c ≡ col = (str_eq_iff c col).0 here in
      rw (here, same) (ground (arith, raised_holds l lo (v col), lowered_holds e end (v col)))
  | inr other ↦ rw other (ground (arith, within-narrow_bounds col lo end rest v))
]

-- What a clause of number comparisons does to the bounds.
abbrev pub narrow_all : List Condition → Bounds → Bounds
narrow_all [] bounds = bounds
narrow_all ((c, k) ∷ ks) bounds = narrow_all ks (narrow_bounds c (from_of k) (end_of k) bounds)

pub within-narrow_all :
    (cs : List Condition) (bounds : Bounds) (v : String → ℕ)
    → within (narrow_all cs bounds) v ≡ (all_hold cs v && within bounds v)
within-narrow_all [] bounds v = refl
within-narrow_all ((c, k) ∷ ks) bounds v = ground (
  arith,
  within-narrow_all ks (narrow_bounds c (from_of k) (end_of k) bounds) v,
  within-narrow_bounds c (from_of k) (end_of k) bounds v,
  holds_bounds k (v c),
)

-- What `ranges` returns says of values whether they lie within the bounds.
abbrev pub Means : Option (List Pred) → (String → ℕ) → Bool → Type 0
Means none v b = b ≡ false
Means (some ps) v b = all (matches v) ps ≡ b

add_pred-Means :
    (p : Pred) (more : Option (List Pred)) (v : String → ℕ) (a b : Bool)
    → matches v p ≡ a
    → Means more v b
    → Means (add_pred p more) v (a && b)
add_pred-Means p none v a b h m = ground (arith, m)
add_pred-Means p (some ps) v a b h m = rw (h, m) refl

module _ (meta : Columns) (v : String → ℕ) (fits : (c : String) → v c < top_of meta c) where
  empty_range :
      (lo end : Option ℕ) (x top : ℕ)
      → x < top
      → leb (high end top) (low lo) ≡ true
      → (from_holds lo x && end_holds end x) ≡ false
  empty_range none none x top h e = ground arith
  empty_range none (some n) x top h e = ground arith
  empty_range (some m) none x top h e = ground arith
  empty_range (some m) (some n) x top h e = ground arith

  full_range :
      (lo end : Option ℕ) (x top : ℕ)
      → x < top
      → leb (high end top) (low lo) ≡ false
      → (leb (low lo) x && leb x (high end top - 1)) ≡ (from_holds lo x && end_holds end x)
  full_range none none x top h e = ground arith
  full_range none (some n) x top h e = ground arith
  full_range (some m) none x top h e = ground arith
  full_range (some m) (some n) x top h e = ground arith

  pub ranges-Means : (bounds : Bounds) → Means (ranges meta bounds) v (within bounds v)
  unfolding ranges
  ranges-Means [] = refl
  ranges-Means ((c, lo, end) ∷ rest) =
      let more = ranges-Means rest in
      elim (Bool-cases (leb (high end (top_of meta c)) (low lo))) [
        | inl none_left ↦
            rw (none_left, empty_range lo end (v c) (top_of meta c) (fits c) none_left) refl
        | inr some_left ↦ rw some_left (
            add_pred-Means _ (ranges meta rest) v _ _
              (full_range lo end (v c) (top_of meta c) (fits c) some_left) more)
      ]
