-- ===== src/Ring.antt =====
-- blindrange/ring.py: the placement of keys on nodes by consistent hashing.
-- A node id is a number, ordered as the ids are; a failure group is a number too, since both are
-- only compared. `point a v` stands for `_h(f"{a}#{v}")`, and a key is given by its hash.
pub mod Diversity
pub mod Spread
pub mod Choice
pub mod Walk
pub mod Build
pub mod Route
use blindrange.Prelude.{
  ℕ, zero, suc, ◌+◌, ◌%◌, Bool, true, false, ◌&&◌, ◌||◌, List, [], ◌∷◌, ◌++◌, map, not, ltb, leb,
  ◌==◌, if◌then◌else◌, length, take, get_elem?, contains, min, Option, none, some, Result, ok,
  raise, value_error, range_from,
}

abbrev pub reorder_window : ℕ
reorder_window = 3

-- The dict from nodes to their groups, and its `get`.
abbrev pub Groups : Type 0
Groups = List (ℕ × ℕ)

unfoldable pub group_of : Groups → ℕ → Option ℕ
group_of [] node = none
group_of ((a, g) ∷ rest) node = if a == node then some g else group_of rest node

-- `g is not None and g in seen_groups`
unfoldable pub clashes : Option ℕ → List ℕ → Bool
clashes none seen = false
clashes (some g) seen = contains g seen

-- `if g is not None: seen_groups.add(g)`
unfoldable pub noted : Option ℕ → List ℕ
noted none = []
noted (some g) = g ∷ []

-- The first loop of `_diversify`.
unfoldable pub pick : Groups → ℕ → List ℕ → List ℕ → List ℕ → List ℕ
unfolding clashes noted
pick groups want [] picked seen = picked
pick groups want (node ∷ window) picked seen =
    let g = group_of groups node in
    let skip = pick groups want window picked seen in
    let use_it = pick groups want window (picked ++ node ∷ []) (seen ++ noted g) in
    if leb want (length picked) then picked else if clashes g seen then skip else use_it

-- The second loop of `_diversify`.
unfoldable pub complete : ℕ → List ℕ → List ℕ → List ℕ
complete want [] picked = picked
complete want (node ∷ order) picked =
    let skip = complete want order picked in
    let use_it = complete want order (picked ++ node ∷ []) in
    if leb want (length picked) then picked else if contains node picked then skip else use_it

unfoldable pub diversify : Groups → List ℕ → ℕ → List ℕ
unfolding pick complete
diversify groups order want =
    take want (complete want order (pick groups want (take (want + reorder_window) order) [] []))

pub record Ring : Type 0 where
  pub addrs : List ℕ
  pub replicas : ℕ
  pub groups : Groups
  pub ring : List (ℕ × ℕ)

-- `sorted(set(addrs))`
unfoldable pub insert_addr : ℕ → List ℕ → List ℕ
insert_addr x [] = x ∷ []
insert_addr x (y ∷ ys) =
    let rest = insert_addr x ys in
    if x == y then y ∷ ys else if ltb x y then x ∷ y ∷ ys else y ∷ rest

unfoldable pub sorted_set : List ℕ → List ℕ
unfolding insert_addr
sorted_set [] = []
sorted_set (x ∷ xs) = insert_addr x (sorted_set xs)

-- `sorted` on the pairs of a hash and a node.
unfoldable pub insert_point : ℕ × ℕ → List (ℕ × ℕ) → List (ℕ × ℕ)
insert_point p [] = p ∷ []
insert_point p (q ∷ qs) =
    let rest = insert_point p qs in
    if ltb p.0 q.0 || (p.0 == q.0 && leb p.1 q.1) then p ∷ q ∷ qs else q ∷ rest

unfoldable pub sorted_points : List (ℕ × ℕ) → List (ℕ × ℕ)
unfolding insert_point
sorted_points [] = []
sorted_points (p ∷ ps) = insert_point p (sorted_points ps)

-- The points of all the nodes, node by node.
unfoldable pub points : (ℕ → ℕ → ℕ) → ℕ → List ℕ → List (ℕ × ℕ)
points point vnodes [] = []
points point vnodes (a ∷ addrs) =
    map (λ v. (point a v, a)) (range_from 0 vnodes) ++ points point vnodes addrs

unfoldable pub init : (ℕ → ℕ → ℕ) → List ℕ → ℕ → ℕ → Groups → Result Ring
unfolding sorted_set sorted_points points
init point addrs vnodes replicas groups =
    if length (sorted_set addrs) == 0
    then raise value_error
    else ok (record {
      addrs = sorted_set addrs;
      replicas = min replicas (length (sorted_set addrs));
      groups = groups;
      ring = sorted_points (points point vnodes (sorted_set addrs));
    })

-- `bisect.bisect` of the hashes: how many stand before the first that is greater.
unfoldable pub bisect : List (ℕ × ℕ) → ℕ → ℕ
bisect [] h = 0
bisect (p ∷ ps) h = let rest = bisect ps h in if leb p.0 h then 1 + rest else 0

-- `if addr not in out: out.append(addr)`, at a position of the ring.
unfoldable pub visit : Option (ℕ × ℕ) → List ℕ → List ℕ
visit none out = out
visit (some p) out = if contains p.1 out then out else out ++ p.1 ∷ []

-- The walk of `route` along the ring, from position `at`, with `n` points left to see.
unfoldable pub gather_from : List (ℕ × ℕ) → ℕ → ℕ → ℕ → List ℕ → List ℕ
unfolding visit
gather_from ring gather at zero out = out
gather_from ring gather at (suc n) out =
    let rest = gather_from ring gather (at + 1) n (visit (get_elem? ring (at % length ring)) out) in
    if ltb (length out) gather then rest else out

-- `count or self.replicas`
unfoldable pub wanted : Ring → Option ℕ → ℕ
wanted r none = min r.replicas (length r.addrs)
wanted r (some count) = min (if count == 0 then r.replicas else count) (length r.addrs)

unfoldable pub route : Ring → ℕ → Option ℕ → List ℕ
unfolding wanted gather_from bisect diversify
route r h count =
    let want = wanted r count in
    let labelled = ltb 0 (length r.groups) in
    let gather = min (want + (if labelled then reorder_window else 0)) (length r.addrs) in
    let out = gather_from r.ring gather (bisect r.ring h) (length r.ring) [] in
    if not labelled || leb want 1 then take want out else diversify r.groups out want
