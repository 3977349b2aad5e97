-- ===== src/Client/Index/Count.antt =====
-- `count` of blindrange/client.py after `insert_many`: the records that a range query matches.
use blindrange.Prelude.{
  ℕ, ◌+◌, ◌^◌, ◌<◌, ◌≡◌, refl, ap, ◌∙◌, sym, false, List, [], ◌∷◌, ◌++◌, map, if◌then◌else◌, String,
  str_eq, str_eq_iff, Option, none, some, ok, ◌>>=◌, bind-returns, arith, sum, All, Result, raise,
}
use mathlib.Core.List.{foldl}
use blindrange.Dyadic.{Label, max_level, levels_for, dyadic_cover}
use blindrange.Dyadic.Cover.{overlaps}
use blindrange.Dyadic.Query.{range_query_exact}
use blindrange.Client.Index.{
  Spec, Schema, Index, index_word, index_value, Row, index_field, index_fields, insert_many,
  chain_total, count,
}
use blindrange.Client.Index.Chains.{times, times-common, sum-map_add, chains-index_words}

-- The entries of a field on the labels `cs`, as `count` adds them up.
abbrev pub total : String → List Label → Index → ℕ
total g cs s = sum (map (λ c. s.chains (g, c)) cs)

-- A field of the schema that is not `g`.
abbrev pub Other : String → String × Spec → Type 0
Other g entry = str_eq entry.0 g ≡ false

-- The values of a field are in its domain.
abbrev pub InDomain : Spec → Option ℕ → Type 0
InDomain spec none = Unit
InDomain spec (some v) = v < 2 ^ spec.bits

abbrev pub matches : ℕ → ℕ → ℕ → Option ℕ → ℕ
matches a b w none = 0
matches a b w (some v) = if overlaps a b w v then 1 else 0

total-index_field :
    (rid : ℕ) (field : String) (spec : Spec) (mlvl : ℕ) (o : Option ℕ) (s s' : Index) (a b : ℕ)
    → max_level spec.bits spec.leaf_width ≡ ok mlvl
    → InDomain spec o
    → index_field rid field spec o s ≡ ok s'
    → total field (dyadic_cover a b spec.bits mlvl) s'
      ≡ total field (dyadic_cover a b spec.bits mlvl) s + matches a b spec.leaf_width o
unfolding index_field index_value
total-index_field rid field spec mlvl none s s' a b h d e =
    let same : s' ≡ s = cc in rw same (omega arith)
total-index_field rid field spec mlvl (some v) s s' a b h d e =
    let cs = dyadic_cover a b spec.bits mlvl in
    let ls = levels_for v spec.bits mlvl in
    let (m, level, done) = bind-returns (max_level spec.bits spec.leaf_width) _ e in
    let one : m ≡ mlvl = cc in
    let same : s' ≡ foldl (index_word rid) s (map (λ l. (field, l)) ls) = cc in
    rw same (
      sum-map_add _ (λ c. s.chains (field, c)) (λ c. times c ls) cs
        (λ c. chains-index_words rid field field c ls s ∙ rw ((str_eq_iff field field).1 refl) refl)
      ∙ rw
          (
            times-common v spec.bits mlvl cs,
            range_query_exact spec.bits spec.leaf_width mlvl a b v h d,
          )
          refl)

kept-index_field :
    (rid : ℕ) (g field : String) (spec : Spec) (o : Option ℕ) (s s' : Index) (c : Label)
    → str_eq field g ≡ false
    → index_field rid field spec o s ≡ ok s'
    → s'.chains (g, c) ≡ s.chains (g, c)
unfolding index_field index_value
kept-index_field rid g field spec none s s' c h e = let same : s' ≡ s = cc in rw same refl
kept-index_field rid g field spec (some v) s s' c h e =
    let (m, level, done) = bind-returns (max_level spec.bits spec.leaf_width) _ e in
    let ls = levels_for v spec.bits m in
    let same : s' ≡ foldl (index_word rid) s (map (λ l. (field, l)) ls) = cc in
    rw (same, chains-index_words rid field g c ls s, h) (omega arith)

kept-index_fields :
    (rid : ℕ) (g : String) (rec : Row) (schema : Schema) (s s' : Index) (c : Label)
    → All (Other g) schema
    → index_fields rid rec schema s ≡ ok s'
    → s'.chains (g, c) ≡ s.chains (g, c)
unfolding index_fields
kept-index_fields rid g rec [] s s' c h e = let same : s' ≡ s = cc in rw same refl
kept-index_fields rid g rec ((field, spec) ∷ rest) s s' c (h, hs) e =
    let (s1, e1, e2) = bind-returns (index_field rid field spec (rec field) s) _ e in
    kept-index_fields rid g rec rest s1 s' c hs e2
    ∙ kept-index_field rid g field spec (rec field) s s1 c h e1

total_same :
    (g : String) (cs : List Label) (s s' : Index)
    → ((c : Label) → s'.chains (g, c) ≡ s.chains (g, c))
    → total g cs s' ≡ total g cs s
total_same g [] s s' e = refl
total_same g (c ∷ cs) s s' e = omega (arith, e c, total_same g cs s s' e)

resume_fields :
    (rid : ℕ) (rec : Row) (xs ys : Schema)
    → ((t : Index)
        → index_fields rid rec (xs ++ ys) t
          ≡ (index_fields rid rec xs t >>= index_fields rid rec ys))
    → (first : Result Index)
    → (first >>= index_fields rid rec (xs ++ ys))
      ≡ (first >>= index_fields rid rec xs >>= index_fields rid rec ys)
resume_fields rid rec xs ys later (ok t) = later t
resume_fields rid rec xs ys later (raise e) = refl

index_fields-append :
    (rid : ℕ) (rec : Row) (xs ys : Schema) (s : Index)
    → index_fields rid rec (xs ++ ys) s ≡ (index_fields rid rec xs s >>= index_fields rid rec ys)
unfolding index_fields
index_fields-append rid rec [] ys s = refl
index_fields-append rid rec ((field, spec) ∷ rest) ys s =
    resume_fields rid rec rest ys (λ t. index_fields-append rid rec rest ys t)
      (index_field rid field spec (rec field) s)

module _ (before after : Schema) (field : String) (spec : Spec) (mlvl : ℕ)
    (hb : All (Other field) before) (ha : All (Other field) after)
    (h : max_level spec.bits spec.leaf_width ≡ ok mlvl) (a b : ℕ) where
  total-index_fields :
      (rid : ℕ) (rec : Row) (s s' : Index)
      → InDomain spec (rec field)
      → index_fields rid rec (before ++ (field, spec) ∷ after) s ≡ ok s'
      → total field (dyadic_cover a b spec.bits mlvl) s'
        ≡ total field (dyadic_cover a b spec.bits mlvl) s + matches a b spec.leaf_width (rec field)
  unfolding index_fields
  total-index_fields rid rec s s' d e =
      let (s1, e1, r1) =
        bind-returns (index_fields rid rec before s) _
          (sym (index_fields-append rid rec before ((field, spec) ∷ after) s) ∙ e) in
      let (s2, e2, r2) = bind-returns (index_field rid field spec (rec field) s1) _ r1 in
      omega (
        arith,
        total_same field (dyadic_cover a b spec.bits mlvl) s s1
            (λ c. kept-index_fields rid field rec before s s1 c hb e1),
        total-index_field rid field spec mlvl (rec field) s1 s2 a b h d e2,
        total_same field (dyadic_cover a b spec.bits mlvl) s2 s'
            (λ c. kept-index_fields rid field rec after s2 s' c ha r2),
      )

  pub total-insert_many :
      (rows : List (ℕ × Row)) (s s' : Index)
      → All (λ row. InDomain spec (row.1 field)) rows
      → insert_many (before ++ (field, spec) ∷ after) rows s ≡ ok s'
      → total field (dyadic_cover a b spec.bits mlvl) s'
        ≡ total field (dyadic_cover a b spec.bits mlvl) s
          + sum (map (λ row. matches a b spec.leaf_width (row.1 field)) rows)
  unfolding insert_many
  total-insert_many [] s s' d e = let same : s' ≡ s = cc in rw same (omega arith)
  total-insert_many ((rid, rec) ∷ rest) s s' (d, ds) e =
      let (s1, e1, e2) =
        bind-returns (index_fields rid rec (before ++ (field, spec) ∷ after) _) _ e in
      omega (arith, total-index_fields rid rec _ s1 d e1, total-insert_many rest s1 s' ds e2)

-- What `count` adds label by label is what it adds writer by writer in each epoch.
sum-map_zero : {A : Type 0} (xs : List A) → sum (map (λ (x : A). 0) xs) ≡ 0
sum-map_zero [] = refl
sum-map_zero (x ∷ xs) = omega (arith, sum-map_zero xs)

sum_swap :
    {A : Type 0} (f : A → Label → ℕ) (xs : List A) (cs : List Label)
    → sum (map (λ c. sum (map (λ x. f x c) xs)) cs) ≡ sum (map (λ x. sum (map (f x) cs)) xs)
sum_swap f [] cs = sum-map_zero cs
sum_swap f (x ∷ xs) cs =
    sum-map_add _ (f x) (λ c. sum (map (λ y. f y c) xs)) cs (λ c. refl)
    ∙ omega (arith, sum_swap f xs cs)

sum_same :
    {A : Type 0} (f g : A → ℕ) (xs : List A)
    → ((x : A) → f x ≡ g x)
    → sum (map f xs) ≡ sum (map g xs)
sum_same f g [] e = refl
sum_same f g (x ∷ xs) e = omega (arith, e x, sum_same f g xs e)

pub chain_total-writers :
    (ends : ℕ → ℕ → Label → ℕ) (epochs writers : List ℕ) (cs : List Label)
    → chain_total ends epochs writers cs
      ≡ sum (map (λ ep. sum (map (λ u. sum (map (ends ep u) cs)) writers)) epochs)
unfolding chain_total
chain_total-writers ends epochs writers cs =
    sum_swap (λ ep c. sum (map (λ u. ends ep u c) writers)) epochs cs
    ∙ sum_same _ _ epochs (λ ep. sum_swap (ends ep) writers cs)

total_empty :
    (field : String) (s : Index) (cs : List Label)
    → ((c : Label) → s.chains (field, c) ≡ 0)
    → total field cs s ≡ 0
total_empty field s [] z = refl
total_empty field s (c ∷ cs) z = omega (arith, z c, total_empty field s cs z)

-- The rows that a writer inserted in an epoch, over all of them.
abbrev pub matched : String → Spec → ℕ → ℕ → (ℕ → ℕ → List (ℕ × Row)) → List ℕ → List ℕ → ℕ
matched field spec a b rows epochs writers = sum (
    map
      (λ ep. sum (
        map (λ u. sum (map (λ row. matches a b spec.leaf_width (row.1 field)) (rows ep u)))
          writers))
      epochs)

-- Each writer's index of each epoch is what its inserts made of one without entries of the field. The
-- count of a range, with the counters of all these indexes as the ends of their chains, is the number
-- of the records of all writers in all epochs whose value has a leaf that meets the range. The values of
-- the field are in its domain, and its name stands once in the schema.
pub count_exact :
    (before after : Schema) (field : String) (spec : Spec) (mlvl : ℕ)
    → All (Other field) before
    → All (Other field) after
    → max_level spec.bits spec.leaf_width ≡ ok mlvl
    → (rows : ℕ → ℕ → List (ℕ × Row)) (s s' : ℕ → ℕ → Index)
    → ((ep u : ℕ) → All (λ row. InDomain spec (row.1 field)) (rows ep u))
    → ((ep u : ℕ) (c : Label) → (s ep u).chains (field, c) ≡ 0)
    → ((ep u : ℕ)
        → insert_many (before ++ (field, spec) ∷ after) (rows ep u) (s ep u) ≡ ok (s' ep u))
    → (epochs writers : List ℕ) (a b : ℕ)
    → count (λ ep u c. (s' ep u).chains (field, c)) epochs writers spec a b
      ≡ ok (matched field spec a b rows epochs writers)
unfolding count
count_exact before after field spec mlvl hb ha h rows s s' d z e epochs writers a b =
    let cs = dyadic_cover a b spec.bits mlvl in
    rw h (
      ap ok (
        chain_total-writers (λ ep u c. (s' ep u).chains (field, c)) epochs writers cs
        ∙ sum_same _ _ epochs (λ ep. sum_same _ _ writers (λ u.
          total-insert_many before after field spec mlvl hb ha h a b (rows ep u) (s ep u) (s' ep u)
            (d ep u) (e ep u)
          ∙ rw (total_empty field (s ep u) cs (z ep u)) (omega arith)))))
