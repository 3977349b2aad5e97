-- ===== src/Tests/Ring.antt =====
-- Runs of the functions of blindrange/ring.py, and instances of the theorems about them.
use blindrange.Prelude.{ℕ, ◌+◌, ◌*◌, ◌%◌, ◌≡◌, refl, [], ◌∷◌, none, ok, arith}
use blindrange.Ring.{Ring, Groups, init, route, wanted, visit, diversify, group_of, clashes, noted}
use blindrange.Ring.Choice.{Choice, diversify-Choice}
use blindrange.Ring.Build.{IsValid, init-IsValid}
use blindrange.Ring.Route.{Placement, route-Placement}

abbrev place : ℕ → ℕ → ℕ
place a v = (a * 37 + v * 53) % 100

-- Nodes 1, 2 and 4 are in one group, node 3 in another, node 5 in none.
abbrev groups : Groups
groups = (1, 70) ∷ (2, 70) ∷ (4, 70) ∷ (3, 71) ∷ []

diversify_runs : diversify groups (1 ∷ 2 ∷ 3 ∷ 4 ∷ 5 ∷ []) 2 ≡ 1 ∷ 3 ∷ []
unfolding diversify group_of clashes noted
diversify_runs = refl

diversify-Choice_example :
    Choice groups (1 ∷ 2 ∷ 3 ∷ 4 ∷ 5 ∷ []) 2 (diversify groups (1 ∷ 2 ∷ 3 ∷ 4 ∷ 5 ∷ []) 2)
diversify-Choice_example =
    diversify-Choice groups (1 ∷ 2 ∷ 3 ∷ 4 ∷ 5 ∷ []) 2 (refl, (refl, (refl, (refl, (refl, tt)))))
      (omega arith)

abbrev ring : Ring
ring = record {
  addrs = 1 ∷ 2 ∷ 3 ∷ [];
  replicas = 2;
  groups = groups;
  ring = (11, 3) ∷ (27, 2) ∷ (37, 1) ∷ (64, 3) ∷ (74, 2) ∷ (90, 1) ∷ [];
}

init_runs : init place (3 ∷ 1 ∷ 2 ∷ 1 ∷ []) 2 2 groups ≡ ok ring
unfolding init
init_runs = refl

ring-IsValid : IsValid ring
ring-IsValid = init-IsValid place (3 ∷ 1 ∷ 2 ∷ 1 ∷ []) 2 2 groups ring (omega arith) init_runs

init-IsValid_example : IsValid ring
init-IsValid_example =
    init-IsValid place (3 ∷ 1 ∷ 2 ∷ 1 ∷ []) 2 2 groups ring (omega arith) init_runs

route_runs : route ring 30 none ≡ 1 ∷ 3 ∷ []
unfolding route visit group_of clashes noted
route_runs = refl

route-Placement_example : Placement ring (wanted ring none) (route ring 30 none)
route-Placement_example = route-Placement ring 30 none ring-IsValid
