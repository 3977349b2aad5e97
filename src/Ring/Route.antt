-- ===== src/Ring/Route.antt =====
-- `Ring.route` of blindrange/ring.py: the replicas of a key.
use blindrange.Prelude.{
  ℕ, zero, suc, ◌+◌, ◌≤◌, ◌≡◌, sym, ◌∙◌, true, ◌||◌, List, [], ◌∷◌, ltb, leb, not, if◌then◌else◌,
  min, ◌==◌, length, length-take, take, contains, Distinct, Distinct-length, All, arith, Bool-cases,
  inl, inr, Option, get_elem?, some, none, subst, Bool,
}
use blindrange.Ring.{Ring, bisect, gather_from, wanted, diversify, route, reorder_window}
use blindrange.Ring.Walk.{names, Gathered, gather_from-Gathered, full_turn, bisect_le}
use blindrange.Ring.Build.{IsValid}
use blindrange.Ring.Choice.{All-take, Distinct-take, diversify-Choice, members}

-- What is claimed of the replicas of a key.
pub record Placement (r : Ring) (want : ℕ) (out : List ℕ) : Type 0 where
  pub distinct : Distinct out
  pub number : length out ≡ want
  pub chosen : All (λ z. contains z r.addrs ≡ true) out

get-names :
    (ps : List (ℕ × ℕ)) (i : ℕ) (p : ℕ × ℕ)
    → get_elem? ps i ≡ some p
    → contains p.1 (names ps) ≡ true
get-names [] i p e = cc
get-names (q ∷ ps) zero p e =
    let same : q ≡ p = cc in subst (λ t. contains t.1 (names (q ∷ ps)) ≡ true) same (ground arith)
get-names (q ∷ ps) (suc i) p e = ground (arith, get-names ps i p e)

-- What holds of the members of `ns` holds of each number that is among them.
pull {ℓ} : (P : ℕ → Type ℓ) (ns : List ℕ) (x : ℕ) → All P ns → contains x ns ≡ true → P x
pull P [] x h e = cc
pull P (n ∷ ns) x (h, hs) e = elim (Bool-cases (n == x)) [
  | inl same ↦ let eq : n ≡ x = ground arith in subst P eq h
  | inr other ↦ pull P ns x hs (ground arith)
]

transfer {ℓ} :
    (P : ℕ → Type ℓ) (ns xs : List ℕ) → All P ns → All (λ z. contains z ns ≡ true) xs → All P xs
transfer P ns [] h m = tt
transfer P ns (x ∷ xs) h (m, ms) = (pull P ns x h m, transfer P ns xs h ms)

on_ring-All :
    (r : Ring) (xs : List ℕ)
    → IsValid r
    → All (λ z. contains z r.addrs ≡ true) xs
    → All (λ z. contains z (names r.ring) ≡ true) xs
on_ring-All r [] v m = tt
on_ring-All r (x ∷ xs) v (m, ms) = (v.on_ring x ∙ m, on_ring-All r xs v ms)

wanted_le : (r : Ring) (count : Option ℕ) → wanted r count ≤ length r.addrs
unfolding wanted
wanted_le r none = omega arith
wanted_le r (some count) = omega arith

Gathered-most :
    (r : Ring) (most h : ℕ)
    → IsValid r
    → most ≤ length r.addrs
    → Gathered r.addrs most (gather_from r.ring most (bisect r.ring h) (length r.ring) [])
      × (length (gather_from r.ring most (bisect r.ring h) (length r.ring) []) ≡ most)
Gathered-most r most h v le =
    let out = gather_from r.ring most (bisect r.ring h) (length r.ring) [] in
    let g : Gathered r.addrs most out =
      gather_from-Gathered r.ring most r.addrs (bisect r.ring h) (length r.ring) []
        (λ i p e. sym (v.on_ring p.1) ∙ get-names r.ring i p e)
        (record { distinct = tt; short = omega arith; chosen = tt }) in
    (
      g,
      elim (Bool-cases (ltb (length out) most)) [
        | inl low ↦
            let all =
              transfer (λ z. contains z out ≡ true) (names r.ring) r.addrs
                (full_turn r.ring most (bisect r.ring h) (bisect_le r.ring h) (ground arith))
                (on_ring-All r r.addrs v (members r.addrs)) in
            absurd (ground (arith, Distinct-length r.addrs out v.distinct all))
        | inr done ↦ ground (arith, g.short)
      ],
    )

placed :
    (r : Ring) (want most : ℕ) (labelled : Bool) (out : List ℕ)
    → Gathered r.addrs most out
    → length out ≡ most
    → want ≤ most
    → Placement r want
        (if not labelled || leb want 1 then take want out else diversify r.groups out want)
placed r want most labelled out g e le = elim (Bool-cases (not labelled || leb want 1)) [
  | inl plain ↦ rw plain (record {
    distinct = Distinct-take want out g.distinct;
    number = omega (arith, length-take want out);
    chosen = All-take _ want out g.chosen;
  })
  | inr spread ↦
      let c = diversify-Choice r.groups out want g.distinct (omega (arith, e, le)) in
      rw spread (record {
        distinct = c.distinct;
        number = c.number;
        chosen = transfer _ out (diversify r.groups out want) g.chosen c.chosen;
      })
]

-- `route` returns the number of nodes that is wanted, all different and all of the ring.
pub route-Placement :
    (r : Ring) (h : ℕ) (count : Option ℕ)
    → IsValid r
    → Placement r (wanted r count) (route r h count)
unfolding route
route-Placement r h count v =
    let want = wanted r count in
    let labelled = ltb 0 (length r.groups) in
    let most = min (want + (if labelled then reorder_window else 0)) (length r.addrs) in
    let (g, e) = Gathered-most r most h v (omega arith) in
    placed r want most labelled _ g e (omega (arith, wanted_le r count))
