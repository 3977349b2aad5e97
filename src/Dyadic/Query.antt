-- ===== src/Dyadic/Query.antt =====
-- `dyadic_cover` beside `levels_for`: which of a stored value's labels a range query looks up.
use blindrange.Prelude.{
  ℕ, zero, suc, ◌+◌, ◌-◌, ◌*◌, ◌/◌, ◌^◌, ◌≤◌, ◌<◌, ◌≡◌, refl, ◌∙◌, Bool, true, false, ◌&&◌, ◌||◌,
  List, [], ◌∷◌, map, any, ltb, leb, ◌==◌, if◌then◌else◌, range_from, All, All-append, arith, ok,
}
use blindrange.Dyadic.{Label, max_level, levels_for, cover_rec, dyadic_cover}
use blindrange.Dyadic.Bounds.{max_level-ok_iff}
use blindrange.Dyadic.Cover.{holds, hits, overlaps, hits-dyadic_cover}

abbrev pub same_label : Label → Label → Bool
same_label (l, i) (m, j) = l == m && i == j

-- How many labels of a query are among the labels under which a value is stored.
unfoldable pub common : List Label → List Label → ℕ
common stored [] = 0
common stored (c ∷ cs) = (if any (same_label c) stored then 1 else 0) + common stored cs

-- The label's level is one at which values are stored.
abbrev pub Stored : ℕ → Label → Type 0
Stored mlvl c = (1 ≤ c.0) × (c.0 ≤ mlvl)

All-if {ℓ} :
    {A : Type 0} (P : A → Type ℓ) (t : Bool) (xs ys : List A)
    → (t ≡ true → All P xs)
    → (t ≡ false → All P ys)
    → All P (if t then xs else ys)
All-if P true xs ys f g = f refl
All-if P false xs ys f g = g refl

Stored-cover_rec :
    (a b mlvl fuel lo hi lvl idx : ℕ)
    → 1 ≤ mlvl
    → lvl ≤ mlvl
    → All (Stored mlvl) (cover_rec a b mlvl fuel lo hi lvl idx)
unfolding cover_rec
Stored-cover_rec a b mlvl zero lo hi lvl idx h low = tt
Stored-cover_rec a b mlvl (suc fuel) lo hi lvl idx h low =
    All-if (Stored mlvl) (ltb hi a || ltb b lo) [] _ (λ _. tt)
      λ near.
        All-if (Stored mlvl) (leb a lo && leb hi b && leb 1 lvl || lvl == mlvl) _ _
          (λ stop. (ground arith, tt))
          λ deeper.
            All-append (Stored mlvl) _ _
              (Stored-cover_rec a b mlvl fuel lo ((lo + hi) / 2) (lvl + 1) (idx * 2) h
                (ground arith))
              (Stored-cover_rec a b mlvl fuel ((lo + hi) / 2 + 1) hi (lvl + 1) (idx * 2 + 1) h
                (ground arith))

-- A label is among those of the levels `s`, …, `s + n - 1` if its level is and it holds the value.
pub any-levels :
    (v bits s n l i : ℕ)
    → any (same_label (l, i)) (map (λ lvl. (lvl, v / 2 ^ (bits - lvl))) (range_from s n))
      ≡ (leb s l && ltb l (s + n) && v / 2 ^ (bits - l) == i)
any-levels v bits s zero l i = ground arith
any-levels v bits s (suc n) l i = ground (arith, any-levels v bits (suc s) n l i)

common-hits :
    (v bits mlvl : ℕ) (cs : List Label)
    → All (Stored mlvl) cs
    → common (levels_for v bits mlvl) cs ≡ hits bits v cs
unfolding common hits holds levels_for
common-hits v bits mlvl [] h = refl
common-hits v bits mlvl ((l, i) ∷ cs) (h, hs) =
    ground (arith, any-levels v bits 1 mlvl l i, common-hits v bits mlvl cs hs)

pub Stored-dyadic_cover :
    (a b bits mlvl : ℕ) → 1 ≤ mlvl → All (Stored mlvl) (dyadic_cover a b bits mlvl)
unfolding dyadic_cover
Stored-dyadic_cover a b bits mlvl low =
    Stored-cover_rec a b mlvl (suc mlvl) 0 (2 ^ bits - 1) 0 0 low (omega arith)

-- For a leaf width that `max_level` accepts and a value of the domain, a query on [a, b] looks up
-- exactly one of the value's labels if the value's leaf meets [a, b], and none otherwise.
pub range_query_exact :
    (bits leaf mlvl a b v : ℕ)
    → max_level bits leaf ≡ ok mlvl
    → v < 2 ^ bits
    → common (levels_for v bits mlvl) (dyadic_cover a b bits mlvl)
      ≡ (if overlaps a b leaf v then 1 else 0)
range_query_exact bits leaf mlvl a b v h lt =
    let (e, low, high) = (max_level-ok_iff bits leaf mlvl).0 h in
    rw e (
      common-hits v bits mlvl _ (Stored-dyadic_cover a b bits mlvl low)
      ∙ hits-dyadic_cover a b bits mlvl v high lt)
