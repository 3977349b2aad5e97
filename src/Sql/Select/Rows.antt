-- ===== src/Sql/Select/Rows.antt =====
-- The rows that SELECT of blindrange/sql.py returns.
use blindrange.Prelude.{
  filter, ℕ, zero, suc, ◌+◌, ◌-◌, ◌≤◌, ◌≡◌, refl, ap, ◌∙◌, max, true, false, List, [], ◌∷◌, map,
  leb, take, Option, none, some, ok, arith, Bool-cases, inl, inr,
}
use blindrange.Sql.Where.{Pred, Post}
use blindrange.Sql.Select.{
  Query, Row, Engine, collect, passes_all, to_stream, or_first, with_order, project, select_rows,
  rows,
}

-- The rows that a limit leaves: where there are filters, the first row is returned whatever the limit;
-- without filters the walk alone stops, after `least` rows at the earliest.
abbrev pub limited {ℓ} : {A : Type ℓ} → ℕ → List Post → Option ℕ → List A → List A
limited least posts none xs = xs
limited least [] (some n) xs = take (max least n) xs
limited least (p ∷ posts) (some n) xs = take (max 1 n) xs

collect-none :
    (posts : List Post) (n : ℕ) (rs : List Row)
    → collect posts none n rs ≡ filter (passes_all posts) rs
unfolding collect
collect-none posts n [] = refl
collect-none posts n (r ∷ rs) = rw (collect-none posts (n + 1) rs, collect-none posts n rs) refl

collect-some :
    (posts : List Post) (limit n k : ℕ) (rs : List Row)
    → n + suc k ≡ max 1 limit
    → collect posts (some limit) n rs ≡ take (suc k) (filter (passes_all posts) rs)
unfolding collect
collect-some posts limit n k [] h = refl
collect-some posts limit n zero (r ∷ rs) h = elim (Bool-cases (passes_all posts r)) [
  | inr out ↦ rw out (collect-some posts limit n zero rs h)
  | inl inside ↦ let last : leb limit (n + 1) ≡ true = ground (arith, h) in rw (inside, last) refl
]
collect-some posts limit n (suc k) (r ∷ rs) h = elim (Bool-cases (passes_all posts r)) [
  | inr out ↦ rw out (collect-some posts limit n (suc k) rs h)
  | inl inside ↦
      let more : leb limit (n + 1) ≡ false = ground (arith, h) in
      rw (inside, more) (ap (◌∷◌ r) (collect-some posts limit (n + 1) k rs (omega (arith, h))))
]

filter_without : (rs : List Row) → filter (passes_all []) rs ≡ rs
unfolding passes_all
filter_without [] = refl
filter_without (r ∷ rs) = ap (◌∷◌ r) (filter_without rs)

take-take {ℓ} : {A : Type ℓ} (n m : ℕ) (xs : List A) → m ≤ n → take n (take m xs) ≡ take m xs
take-take zero zero xs h = refl
take-take (suc n) zero xs h = refl
take-take zero (suc m) xs h = absurd (omega (arith, h))
take-take (suc n) (suc m) [] h = refl
take-take (suc n) (suc m) (x ∷ xs) h = ap (◌∷◌ x) (take-take n m xs (omega (arith, h)))

collect-to_stream :
    (least : ℕ) (posts : List Post) (limit : Option ℕ) (stream : Option ℕ → List Row)
    → least ≤ 1
    → ((n : ℕ) → stream (some n) ≡ take (max least n) (stream none))
    → collect posts limit 0 (stream (to_stream posts limit))
      ≡ limited least posts limit (filter (passes_all posts) (stream none))
collect-to_stream least [] none stream l h = collect-none [] 0 (stream none)
collect-to_stream least (p ∷ posts) none stream l h = collect-none (p ∷ posts) 0 (stream none)
collect-to_stream least [] (some n) stream l h =
    let walked = take (max least n) (stream none) in
    let rows : max 1 n ≡ suc (n - 1) = ground arith in
    rw (h n, filter_without (stream none))
      (collect-some [] n 0 (n - 1) walked (omega (arith, rows))
        ∙ rw (filter_without walked)
            (take-take (suc (n - 1)) (max least n) (stream none) (ground (arith, l))))
collect-to_stream least (p ∷ posts) (some n) stream l h =
    let rows : max 1 n ≡ suc (n - 1) = ground arith in
    rw rows (collect-some (p ∷ posts) n 0 (n - 1) (stream none) (omega (arith, rows)))

-- SELECT returns the projection of the rows of the walk that pass the filters, as many as the limit
-- says, when a walk with a limit returns the first rows of the walk without. But a limit of 0 returns
-- one row where there are filters, and without them the `least` rows that such a walk returns (1 for
-- an Owner, which yields a row before it looks at the limit).
pub select_rows_lem :
    {St : Type 0} (e : Engine St) (q : Query) (s : St) (preds walked : List Pred)
    (stream : Option ℕ → List Row) (least : ℕ)
    → least ≤ 1
    → or_first q.meta q.preds ≡ ok preds
    → with_order q.meta q.order preds ≡ ok walked
    → ((limit : Option ℕ) → e.query_stream walked limit q.order s ≡ ok (stream limit))
    → ((n : ℕ) → stream (some n) ≡ take (max least n) (stream none))
    → select_rows e q s
      ≡ ok (
          rows (
            map
              (λ r. project q.goal q.meta r.row)
              (limited least q.posts q.limit (filter (passes_all q.posts) (stream none)))))
unfolding select_rows
select_rows_lem e q s preds walked stream least l h1 h2 h3 h4 = rw h1 (
    rw h2 (
      rw (h3 (to_stream q.posts q.limit)) (
        ap (λ t. ok (rows (map (λ r. project q.goal q.meta r.row) t)))
          (collect-to_stream least q.posts q.limit stream l h4))))
