-- ===== src/Ring/Walk.antt =====
-- The walk of `Ring.route` of blindrange/ring.py: the distinct nodes that it gathers.
use native.Mathlib.Nat.{mod-eq_of_lt, add-mod_right}
use blindrange.Prelude.{
  ℕ, zero, suc, ◌+◌, ◌-◌, ◌%◌, ◌≤◌, ◌<◌, ◌≡◌, refl, sym, true, List, [], ◌∷◌, map, ltb, leb, length,
  length-append, get_elem?, contains, contains-append, Distinct, Distinct-snoc, All, All-append,
  arith, Bool-cases, inl, inr, Option, none, some, subst,
}
use blindrange.Ring.{visit, gather_from, bisect}

abbrev pub names : List (ℕ × ℕ) → List ℕ
names = map (λ p. p.1)

-- A list that has gathered members of `whole`, each once.
pub record Gathered (whole : List ℕ) (most : ℕ) (out : List ℕ) : Type 0 where
  pub distinct : Distinct out
  pub short : length out ≤ most
  pub chosen : All (λ z. contains z whole ≡ true) out

visit-Gathered :
    (whole : List ℕ) (most : ℕ) (o : Option (ℕ × ℕ)) (out : List ℕ)
    → ((p : ℕ × ℕ) → o ≡ some p → contains p.1 whole ≡ true)
    → length out < most
    → Gathered whole most out
    → Gathered whole most (visit o out)
unfolding visit
visit-Gathered whole most none out h low g = g
visit-Gathered whole most (some p) out h low g = elim (Bool-cases (contains p.1 out)) [
  | inl old ↦ rw old g
  | inr new ↦ rw new (record {
    distinct = Distinct-snoc out p.1 g.distinct new;
    short = omega (arith, low, length-append out (p.1 ∷ []));
    chosen = All-append _ out (p.1 ∷ []) g.chosen (h p refl, tt);
  })
]

contains-visit :
    (o : Option (ℕ × ℕ)) (out : List ℕ) (z : ℕ)
    → contains z out ≡ true
    → contains z (visit o out) ≡ true
unfolding visit
contains-visit none out z h = h
contains-visit (some p) out z h = ground (arith, contains-append z out (p.1 ∷ []))

visited :
    (o : Option (ℕ × ℕ)) (p : ℕ × ℕ) (out : List ℕ) → o ≡ some p → contains p.1 (visit o out) ≡ true
unfolding visit
visited none p out h = cc
visited (some q) p out h =
    let same : q ≡ p = cc in
    subst (λ t. contains t.1 (visit (some q) out) ≡ true) same
      (ground (arith, contains-append q.1 out (q.1 ∷ [])))

module _ (ring : List (ℕ × ℕ)) (most : ℕ) where
  kept-gather_from :
      (at n : ℕ) (out : List ℕ) (z : ℕ)
      → contains z out ≡ true
      → contains z (gather_from ring most at n out) ≡ true
  unfolding gather_from
  kept-gather_from at zero out z h = h
  kept-gather_from at (suc n) out z h = elim (Bool-cases (ltb (length out) most)) [
    | inl low ↦ rw low (
        kept-gather_from (at + 1) n (visit (get_elem? ring (at % length ring)) out) z
          (contains-visit (get_elem? ring (at % length ring)) out z h))
    | inr done ↦ rw done h
  ]

  pub gather_from-Gathered :
      (whole : List ℕ) (at n : ℕ) (out : List ℕ)
      → ((i : ℕ) (p : ℕ × ℕ) → get_elem? ring i ≡ some p → contains p.1 whole ≡ true)
      → Gathered whole most out
      → Gathered whole most (gather_from ring most at n out)
  unfolding gather_from
  gather_from-Gathered whole at zero out h g = g
  gather_from-Gathered whole at (suc n) out h g = elim (Bool-cases (ltb (length out) most)) [
    | inl low ↦ rw low (
        gather_from-Gathered whole (at + 1) n (visit (get_elem? ring (at % length ring)) out) h (
          visit-Gathered whole most (get_elem? ring (at % length ring)) out (h (at % length ring))
            (ground arith) g))
    | inr done ↦ rw done g
  ]

  -- A walk that gathers fewer than it may has gathered the node of each position that it passes.
  passed :
      (at n : ℕ) (out : List ℕ) (j : ℕ) (p : ℕ × ℕ)
      → length (gather_from ring most at n out) < most
      → j < n
      → get_elem? ring ((at + j) % length ring) ≡ some p
      → contains p.1 (gather_from ring most at n out) ≡ true
  unfolding gather_from
  passed at zero out j p low h e = absurd (omega arith)
  passed at (suc n) out j p low h e = elim (Bool-cases (ltb (length out) most)) [
    | inl more ↦
        let next = visit (get_elem? ring (at % length ring)) out in
        let same : gather_from ring most at (suc n) out ≡ gather_from ring most (at + 1) n next =
          rw more refl in
        subst (λ t. contains p.1 t ≡ true) (sym same)
          (later n out j p (subst (λ t. length t < most) same low) h e
            (λ i g. passed (at + 1) n next i p (subst (λ t. length t < most) same low) g))
    | inr done ↦
        let same : gather_from ring most at (suc n) out ≡ out = rw done refl in
        let low' = subst (λ t. length t < most) same low in absurd (ground arith)
  ]
    where
      later :
          (n : ℕ) (out : List ℕ) (j : ℕ) (p : ℕ × ℕ)
          → length
              (gather_from ring most (at + 1) n (visit (get_elem? ring (at % length ring)) out))
            < most
          → j < suc n
          → get_elem? ring ((at + j) % length ring) ≡ some p
          → ((i : ℕ)
              → i < n
              → get_elem? ring ((at + 1 + i) % length ring) ≡ some p
              → contains p.1
                  (gather_from ring most (at + 1) n (visit (get_elem? ring (at % length ring)) out))
                ≡ true)
          → contains p.1
              (gather_from ring most (at + 1) n (visit (get_elem? ring (at % length ring)) out))
            ≡ true
      later n out zero p low h e f =
          let here : at + 0 ≡ at = omega arith in
          kept-gather_from (at + 1) n (visit (get_elem? ring (at % length ring)) out) p.1 (
            visited (get_elem? ring (at % length ring)) p out
              (subst (λ t. get_elem? ring (t % length ring) ≡ some p) here e))
      later n out (suc i) p low h e f =
          let there : at + suc i ≡ at + 1 + i = omega arith in
          f i (omega arith) (subst (λ t. get_elem? ring (t % length ring) ≡ some p) there e)

-- From `at` on, a full turn passes every position.
turn : (at n q : ℕ) → at ≤ n → q < n → (j : ℕ) × (j < n) × ((at + j) % n ≡ q)
turn at n q h lt = elim (Bool-cases (leb at q)) [
  | inl ahead ↦
      let e : at + (q - at) ≡ q = ground arith in (q - at, omega (arith, h), rw e (mod-eq_of_lt lt))
  | inr behind ↦
      let e : at + (q + n - at) ≡ q + n = ground arith in
      (q + n - at, ground arith, rw (e, add-mod_right) (mod-eq_of_lt lt))
]

pub bisect_le : (ps : List (ℕ × ℕ)) (h : ℕ) → bisect ps h ≤ length ps
unfolding bisect
bisect_le [] h = omega arith
bisect_le (p ∷ ps) h = ground (arith, bisect_le ps h)

by_position {ℓ} :
    (P : ℕ → Type ℓ) (ps : List (ℕ × ℕ))
    → ((q : ℕ) (p : ℕ × ℕ) → q < length ps → get_elem? ps q ≡ some p → P p.1)
    → All P (names ps)
by_position P [] f = tt
by_position P (p ∷ ps) f =
    (f 0 p (omega arith) refl, by_position P ps (λ q r h e. f (suc q) r (omega (arith, h)) e))

-- A full turn gathers as many nodes as it may, or every node of the ring.
pub full_turn :
    (ring : List (ℕ × ℕ)) (most at : ℕ)
    → at ≤ length ring
    → length (gather_from ring most at (length ring) []) < most
    → All (λ z. contains z (gather_from ring most at (length ring) []) ≡ true) (names ring)
full_turn ring most at h low = by_position _ ring λ q p lt e.
    let (j, below, there) = turn at (length ring) q h lt in
    passed ring most at (length ring) [] j p low below (rw there e)
