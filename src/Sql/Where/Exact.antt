-- ===== src/Sql/Where/Exact.antt =====
-- The WHERE clause of blindrange/sql.py: comparisons with numbers, and the ranges they become.
use blindrange.Prelude.{
  ℕ, zero, suc, ◌≤◌, ◌<◌, ◌≡◌, refl, ap, ◌∙◌, Bool, true, false, List, [], ◌∷◌, ◌++◌, All, length,
  String, Option, none, some, Result, ok, ◌>>=◌, arith, subst,
}
use mathlib.Core.List.{append-nil}
use blindrange.Sql.{Text, Tokens, kw, ident, next_kw, refused, int, Columns, find, get_column}
use blindrange.Sql.Where.Bounds.{
  Comparison, between, eq, ge, gt, le, lt, Condition, print, print_all, from_of, end_of, all_hold,
  narrow_all, within-narrow_all, Means, ranges-Means,
}
use blindrange.Sql.Where.{
  Pred, Post, Narrowed, narrow_bounds, narrow, equality, comparison, on_column, condition,
  conditions, ranges, top_of, with_prefixes, nothing_narrowed, where_clause,
}

-- A column of numbers.
abbrev pub IsInt : Columns → String → Type 0
IsInt meta c = (bits : ℕ) × (blur : ℕ) × (find c meta ≡ some (int bits blur))

pub stop : {A : Type 0} (b : Bool) (x y : A) → b ≡ false → elim b [ true ↦ x | false ↦ y ] ≡ y
stop true x y e = cc
stop false x y e = refl

module _ (key_bucket : String → Text → ℕ) (meta : Columns) where
  narrowed_by : Narrowed → String → Comparison → Narrowed
  narrowed_by s c k = record s { bounds = narrow_bounds c (from_of k) (end_of k) s.bounds }

  comparison-print :
      (c : String) (k : Comparison) (bits blur : ℕ) (s : Narrowed) (rest : Tokens)
      → comparison c (int bits blur) s (print k ++ rest) ≡ ok (narrowed_by s c k, rest)
  unfolding comparison equality narrow narrowed_by
  comparison-print c (between a b) bits blur s rest = refl
  comparison-print c (eq v) bits blur s rest = refl
  comparison-print c (ge v) bits blur s rest = refl
  comparison-print c (gt v) bits blur s rest = refl
  comparison-print c (le v) bits blur s rest = refl
  comparison-print c (lt v) bits blur s rest = refl

  condition-print :
      (c : String) (k : Comparison) (s : Narrowed) (rest : Tokens)
      → IsInt meta c
      → condition key_bucket meta s (ident c ∷ (print k ++ rest)) ≡ ok (narrowed_by s c k, rest)
  unfolding condition on_column refused
  condition-print c k s rest (bits, blur, e) =
      let got : get_column c meta ≡ ok (int bits blur) = rw (e, get_column) refl in
      ap (λ r. r >>= λ spec. on_column key_bucket meta c spec s (print k ++ rest)) got
      ∙ comparison-print c k bits blur s rest

  conditions-print :
      (c : Condition) (ks : List Condition) (f : ℕ) (s : Narrowed) (rest : Tokens)
      → length ks ≤ f
      → All (λ d. IsInt meta d.0) (c ∷ ks)
      → next_kw "AND" rest ≡ false
      → conditions key_bucket meta (suc f) s (print_all c ks rest)
        ≡ ok (record s { bounds = narrow_all (c ∷ ks) s.bounds }, rest)
  unfolding conditions narrowed_by
  conditions-print (c, k) [] f s rest h (i, is) e =
      rw (condition-print c k s rest i) (stop (next_kw "AND" rest) _ _ e)
  conditions-print (c, k) (d ∷ ds) zero s rest h i e = absurd (omega (arith, h))
  conditions-print (c, k) (d ∷ ds) (suc f) s rest h (i, is) e =
      rw (condition-print c k s (kw "AND" ∷ print_all d ds rest) i)
        (conditions-print d ds f (narrowed_by s c k) rest (omega (arith, h)) is e)

  length-print_all :
      (c : Condition) (ks : List Condition) (rest : Tokens)
      → length ks ≤ length (print_all c ks rest)
  length-print_all (c, k) [] rest = omega arith
  length-print_all (c, between a b) (d ∷ ds) rest = omega (arith, length-print_all d ds rest)
  length-print_all (c, eq v) (d ∷ ds) rest = omega (arith, length-print_all d ds rest)
  length-print_all (c, ge v) (d ∷ ds) rest = omega (arith, length-print_all d ds rest)
  length-print_all (c, gt v) (d ∷ ds) rest = omega (arith, length-print_all d ds rest)
  length-print_all (c, le v) (d ∷ ds) rest = omega (arith, length-print_all d ds rest)
  length-print_all (c, lt v) (d ∷ ds) rest = omega (arith, length-print_all d ds rest)

  -- A clause of comparisons of INT columns with numbers, joined by AND, is read up to the token after
  -- it. If it gives predicates, then values in the domains of their columns meet all of them exactly
  -- if all the comparisons hold; if it gives none, then the comparisons hold for no such values.
  pub where_clause-print :
      (c : Condition) (ks : List Condition) (rest : Tokens)
      → All (λ d. IsInt meta d.0) (c ∷ ks)
      → next_kw "AND" rest ≡ false
      → (preds : Option (List Pred)) × (where_clause key_bucket meta (print_all c ks rest)
          ≡ ok ((preds, []), rest))
        × ((v : String → ℕ)
            → ((d : String) → v d < top_of meta d)
            → Means preds v (all_hold (c ∷ ks) v))
  unfolding where_clause
  where_clause-print c ks rest i e =
      let bounds = narrow_all (c ∷ ks) [] in
      (
        ranges meta bounds,
        rw
            (conditions-print c ks (length (print_all c ks rest)) nothing_narrowed rest
              (length-print_all c ks rest) i e)
            (plain (ranges meta bounds)),
        λ v fits.
            subst (Means (ranges meta bounds) v) (within-narrow_all (c ∷ ks) [] v ∙ ground arith)
              (ranges-Means meta v fits bounds),
      )
    where
      plain :
          (r : Option (List Pred))
          → ◌≡◌ {A = Result ((Option (List Pred) × List Post) × Tokens)}
              (ok (with_prefixes [] [] r, rest))
              (ok ((r, []), rest))
      plain none = refl
      plain (some ps) = rw (append-nil ps) refl
