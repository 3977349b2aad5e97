-- ===== src/Client/Index/Chains.antt =====
-- The chains of blindrange/client.py after one value is indexed: which counters it moves.
use blindrange.Prelude.{
  ℕ, zero, suc, ◌+◌, ◌-◌, ◌/◌, ◌^◌, ◌≡◌, refl, List, [], ◌∷◌, map, if◌then◌else◌, String, str_eq,
  range_from, Bool-cases, inl, inr, arith, ◌&&◌, ◌==◌, leb, ltb, sum,
}
use mathlib.Core.List.{foldl}
use blindrange.Dyadic.{Label, levels_for}
use blindrange.Dyadic.Query.{same_label, common, any-levels}
use blindrange.Client.Index.{Word, same_word, Index, index_word}
use blindrange.Client.Index.Dense.{same_word_eq}

-- How often a label is in a list.
unfoldable pub times : Label → List Label → ℕ
times c [] = 0
times c (l ∷ ls) = (if same_label l c then 1 else 0) + times c ls

times-levels :
    (v bits s n l i : ℕ)
    → times (l, i) (map (λ lvl. (lvl, v / 2 ^ (bits - lvl))) (range_from s n))
      ≡ (if leb s l && ltb l (s + n) && v / 2 ^ (bits - l) == i then 1 else 0)
unfolding times
times-levels v bits s zero l i = ground arith
times-levels v bits s (suc n) l i = ground (arith, times-levels v bits (suc s) n l i)

pub times-common :
    (v bits mlvl : ℕ) (cs : List Label)
    → sum (map (λ c. times c (levels_for v bits mlvl)) cs) ≡ common (levels_for v bits mlvl) cs
unfolding common levels_for
times-common v bits mlvl [] = refl
times-common v bits mlvl ((l, i) ∷ cs) =
    rw (times-levels v bits 1 mlvl l i, any-levels v bits 1 mlvl l i)
      (omega (arith, times-common v bits mlvl cs))

pub sum-map_add :
    (f g h : Label → ℕ) (cs : List Label)
    → ((c : Label) → f c ≡ g c + h c)
    → sum (map f cs) ≡ sum (map g cs) + sum (map h cs)
sum-map_add f g h [] e = omega arith
sum-map_add f g h (c ∷ cs) e = omega (arith, e c, sum-map_add f g h cs e)

chains-index_word :
    (rid : ℕ) (s : Index) (w x : Word)
    → (index_word rid s w).chains x ≡ s.chains x + (if same_word w x then 1 else 0)
unfolding index_word
chains-index_word rid s w x = elim (Bool-cases (same_word w x)) [
  | inl e ↦ rw (e, same_word_eq w x e) refl
  | inr e ↦ rw e (omega arith)
]

-- Indexing one value counts each of its labels once, in its own field.
pub chains-index_words :
    (rid : ℕ) (field g : String) (c : Label) (ls : List Label) (s : Index)
    → (foldl (index_word rid) s (map (λ l. (field, l)) ls)).chains (g, c)
      ≡ s.chains (g, c) + (if str_eq field g then times c ls else 0)
unfolding times
chains-index_words rid field g c [] s = ground arith
chains-index_words rid field g c (l ∷ ls) s = ground (
  arith,
  chains-index_words rid field g c ls (index_word rid s (field, l)),
  chains-index_word rid s (field, l) (g, c),
)
