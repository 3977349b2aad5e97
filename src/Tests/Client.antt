-- ===== src/Tests/Client.antt =====
-- Runs of the functions of blindrange/client.py, and instances of the theorems about them.
use blindrange.Prelude.{
  ℕ, min, ◌+◌, zero, suc, ◌≡◌, refl, List, [], ◌∷◌, leb, if◌then◌else◌, arith, All, str_eq, some,
  none, ok, bit_length,
}
use blindrange.Dyadic.{max_level}
use blindrange.Client.Gallop.{advance, next_probe, Answer, hit, miss, discover_ends}
use blindrange.Client.Index.{Spec, Schema, Index, Row, insert_many, count}
use blindrange.Dyadic.Cover.{overlaps}
use blindrange.Client.Index.Dense.{IsDense, insert_many-IsDense}
use blindrange.Client.Index.Count.{count_exact}
use blindrange.Client.Index.Returns.{Accepted, insert_many_returns}

-- Chain 0 has 5 entries, chain 1 none.
abbrev end : ℕ → ℕ
end zero = 5
end (suc cid) = 0

abbrev answers : ℕ → ℕ → ℕ → Answer
answers round cid i = if leb i (end cid) then hit else miss

discover_ends_runs :
    discover_ends answers 7 ((0, 2) ∷ (1, 0) ∷ []) ≡ some (ok ((1, 0) ∷ (0, 5) ∷ []))
unfolding discover_ends advance next_probe
discover_ends_runs = refl

abbrev qty : Spec
qty = record { bits = 6; leaf_width = 4 }

abbrev schema : Schema
schema = ("day", record { bits = 3; leaf_width = 1 }) ∷ ("qty", qty) ∷ []

abbrev row : Row
row name = if str_eq name "qty" then some 13 else none

abbrev rows : List (ℕ × Row)
rows = (700, row) ∷ (701, λ name. some 2) ∷ []

abbrev empty : Index
empty = record { chains = λ w. 0; puts = [] }

empty-IsDense : IsDense empty
unfolding IsDense
empty-IsDense = λ w. refl

schema-Accepted : All Accepted schema
unfolding max_level bit_length
schema-Accepted = ((3, refl), ((4, refl), tt))

filled_run : (s : Index) × (insert_many schema rows empty ≡ ok s)
filled_run = insert_many_returns schema rows empty schema-Accepted

abbrev filled : Index
filled = filled_run.0

filled_eq : insert_many schema rows empty ≡ ok filled
filled_eq = filled_run.1

insert_many-IsDense_example : IsDense filled
insert_many-IsDense_example = insert_many-IsDense schema rows empty filled empty-IsDense filled_eq

max_level_runs : max_level 6 4 ≡ ok 4
unfolding max_level bit_length
max_level_runs = refl

-- Two epochs and three writers, each with records of its own.
abbrev rows_of : ℕ → ℕ → List (ℕ × Row)
rows_of epoch writer = (700, row) ∷ (701 + epoch, λ name. some (min writer 63)) ∷ []

abbrev filled_of :
    (epoch writer : ℕ) → (s : Index) × (insert_many schema (rows_of epoch writer) empty ≡ ok s)
filled_of epoch writer = insert_many_returns schema (rows_of epoch writer) empty schema-Accepted

count_exact_example :
    count (λ ep u c. (filled_of ep u).0.chains ("qty", c)) (1 ∷ 2 ∷ []) (3 ∷ 20 ∷ 50 ∷ []) qty 10 40
    ≡ ok 8
unfolding overlaps
count_exact_example =
    count_exact (("day", record { bits = 3; leaf_width = 1 }) ∷ []) [] "qty" qty 4 (refl, tt) tt
      max_level_runs rows_of (λ ep u. empty) (λ ep u. (filled_of ep u).0)
      (λ ep u. (omega arith, (omega arith, tt))) (λ ep u c. refl) (λ ep u. (filled_of ep u).1)
      (1 ∷ 2 ∷ []) (3 ∷ 20 ∷ 50 ∷ []) 10 40
