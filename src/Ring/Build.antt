-- ===== src/Ring/Build.antt =====
-- `Ring.__init__` of blindrange/ring.py: the nodes of the ring that it builds.
use blindrange.Prelude.{
  ℕ, zero, suc, ◌≤◌, ◌<◌, ◌≡◌, refl, sym, ap, ◌∙◌, false, ◌||◌, ◌&&◌, List, [], ◌∷◌, ◌++◌, map, ltb,
  ◌==◌, contains, Distinct, All, arith, range_from, ok, Bool-cases, inl, inr, subst,
}
use blindrange.Ring.{
  Ring, Groups, insert_addr, sorted_set, insert_point, sorted_points, points, init,
}
use blindrange.Ring.Walk.{names}

contains-insert_addr :
    (z x : ℕ) (ys : List ℕ) → contains z (insert_addr x ys) ≡ (x == z || contains z ys)
unfolding insert_addr
contains-insert_addr z x [] = ground arith
contains-insert_addr z x (y ∷ ys) = ground (arith, contains-insert_addr z x ys)

abbrev Above : ℕ → List ℕ → Type 0
Above x = All (λ y. x < y)

abbrev Ascending : List ℕ → Type 0
Ascending [] = Unit
Ascending (x ∷ xs) = Above x xs × Ascending xs

Above-insert_addr : (w x : ℕ) (ys : List ℕ) → w < x → Above w ys → Above w (insert_addr x ys)
unfolding insert_addr
Above-insert_addr w x [] h a = (h, tt)
Above-insert_addr w x (y ∷ ys) h (a, rest) = elim (Bool-cases (x == y)) [
  | inl same ↦ rw same (a, rest)
  | inr other ↦ elim (Bool-cases (ltb x y)) [
    | inl low ↦ rw (other, low) (h, (a, rest))
    | inr high ↦ rw (other, high) (a, Above-insert_addr w x ys h rest)
  ]
]

Above-below : (x y : ℕ) (ys : List ℕ) → x < y → Above y ys → Above x ys
Above-below x y [] h a = tt
Above-below x y (z ∷ ys) h (a, rest) = (omega (arith, h, a), Above-below x y ys h rest)

insert_addr-Ascending : (x : ℕ) (ys : List ℕ) → Ascending ys → Ascending (insert_addr x ys)
unfolding insert_addr
insert_addr-Ascending x [] a = (tt, tt)
insert_addr-Ascending x (y ∷ ys) (a, rest) = elim (Bool-cases (x == y)) [
  | inl same ↦ rw same (a, rest)
  | inr other ↦ elim (Bool-cases (ltb x y)) [
    | inl low ↦
        let h : x < y = ground arith in rw (other, low) ((h, Above-below x y ys h a), (a, rest))
    | inr high ↦
        rw (other, high)
          (Above-insert_addr y x ys (ground arith) a, insert_addr-Ascending x ys rest)
  ]
]

sorted_set-Ascending : (xs : List ℕ) → Ascending (sorted_set xs)
unfolding sorted_set
sorted_set-Ascending [] = tt
sorted_set-Ascending (x ∷ xs) = insert_addr-Ascending x (sorted_set xs) (sorted_set-Ascending xs)

not-Above : (x : ℕ) (ys : List ℕ) → Above x ys → contains x ys ≡ false
not-Above x [] a = refl
not-Above x (y ∷ ys) (a, rest) = ground (arith, not-Above x ys rest)

Ascending-Distinct : (xs : List ℕ) → Ascending xs → Distinct xs
Ascending-Distinct [] a = tt
Ascending-Distinct (x ∷ xs) (a, rest) = (not-Above x xs a, Ascending-Distinct xs rest)

contains-insert_point :
    (z : ℕ) (p : ℕ × ℕ) (qs : List (ℕ × ℕ))
    → contains z (names (insert_point p qs)) ≡ (p.1 == z || contains z (names qs))
unfolding insert_point
contains-insert_point z p [] = refl
contains-insert_point z p (q ∷ qs) = ground (arith, contains-insert_point z p qs)

contains-sorted_points :
    (z : ℕ) (ps : List (ℕ × ℕ)) → contains z (names (sorted_points ps)) ≡ contains z (names ps)
unfolding sorted_points
contains-sorted_points z [] = refl
contains-sorted_points z (p ∷ ps) =
    contains-insert_point z p (sorted_points ps)
    ∙ ap (λ t. p.1 == z || t) (contains-sorted_points z ps)

contains-own :
    (point : ℕ → ℕ → ℕ) (z a s n : ℕ) (rest : List (ℕ × ℕ))
    → contains z (names (map (λ v. (point a v, a)) (range_from s n) ++ rest))
      ≡ (ltb 0 n && a == z || contains z (names rest))
contains-own point z a s zero rest = ground arith
contains-own point z a s (suc n) rest = ground (arith, contains-own point z a (suc s) n rest)

contains-points :
    (point : ℕ → ℕ → ℕ) (z vnodes : ℕ) (addrs : List ℕ)
    → 1 ≤ vnodes
    → contains z (names (points point vnodes addrs)) ≡ contains z addrs
unfolding points
contains-points point z vnodes [] h = refl
contains-points point z vnodes (a ∷ addrs) h = ground (
  arith,
  contains-own point z a 0 vnodes (points point vnodes addrs),
  contains-points point z vnodes addrs h,
)

-- The points of a ring are those of its nodes, which are distinct.
pub record IsValid (r : Ring) : Type 0 where
  pub distinct : Distinct r.addrs
  pub on_ring : (z : ℕ) → contains z (names r.ring) ≡ contains z r.addrs

init_fields :
    (point : ℕ → ℕ → ℕ) (addrs : List ℕ) (vnodes replicas : ℕ) (groups : Groups) (r : Ring)
    → init point addrs vnodes replicas groups ≡ ok r
    → (r.addrs ≡ sorted_set addrs)
      × (r.ring ≡ sorted_points (points point vnodes (sorted_set addrs)))
unfolding init
init_fields point addrs vnodes replicas groups r e = ground (arith, e)

-- A ring that is built with a virtual node at least for each node is valid.
pub init-IsValid :
    (point : ℕ → ℕ → ℕ) (addrs : List ℕ) (vnodes replicas : ℕ) (groups : Groups) (r : Ring)
    → 1 ≤ vnodes
    → init point addrs vnodes replicas groups ≡ ok r
    → IsValid r
unfolding init
init-IsValid point addrs vnodes replicas groups r h e =
    let nodes = sorted_set addrs in
    let same : r.addrs ≡ nodes = (init_fields point addrs vnodes replicas groups r e).0 in
    let ring : r.ring ≡ sorted_points (points point vnodes nodes) =
      (init_fields point addrs vnodes replicas groups r e).1 in
    record {
      distinct = subst Distinct (sym same) (Ascending-Distinct nodes (sorted_set-Ascending addrs));
      on_ring = λ z.
          ap (λ t. contains z (names t)) ring
          ∙ contains-sorted_points z (points point vnodes nodes)
          ∙ contains-points point z vnodes nodes h
          ∙ ap (contains z) (sym same);
    }
