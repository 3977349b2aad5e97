-- ===== src/Ring/Choice.antt =====
-- `_diversify` of blindrange/ring.py as a whole.
use blindrange.Prelude.{
  ℕ, zero, suc, ◌+◌, ◌≤◌, ◌≡◌, refl, sym, ap, ◌∙◌, true, false, List, [], ◌∷◌, leb, length,
  length-append, ◌++◌, take, contains, Distinct, Distinct-length, All, arith, Bool-cases, inl, inr,
  ◌⊎◌, subst,
}
use mathlib.Core.List.{append-nil}
use blindrange.Ring.{Groups, pick, complete, diversify, reorder_window}
use blindrange.Ring.Diversity.{labels, Completed, complete-Completed}
use blindrange.Ring.Spread.{Represented, Represented-append, Picked, pick-Picked, All-map}

pub take_all {ℓ} : {A : Type ℓ} (n : ℕ) (xs : List A) → length xs ≤ n → take n xs ≡ xs
take_all zero [] h = refl
take_all zero (x ∷ xs) h = absurd (omega arith)
take_all (suc n) [] h = refl
take_all (suc n) (x ∷ xs) h = ap (◌∷◌ x) (take_all n xs (omega arith))

pub All-take {ℓ} :
    {A : Type 0} (P : A → Type ℓ) (n : ℕ) (xs : List A) → All P xs → All P (take n xs)
All-take P zero xs h = tt
All-take P (suc n) [] h = tt
All-take P (suc n) (x ∷ xs) (h, hs) = (h, All-take P n xs hs)

pub contains-take : (x n : ℕ) (xs : List ℕ) → contains x xs ≡ false → contains x (take n xs) ≡ false
contains-take x zero xs h = refl
contains-take x (suc n) [] h = refl
contains-take x (suc n) (y ∷ ys) h = ground (arith, contains-take x n ys)

pub Distinct-take : (n : ℕ) (xs : List ℕ) → Distinct xs → Distinct (take n xs)
Distinct-take zero xs d = tt
Distinct-take (suc n) [] d = tt
Distinct-take (suc n) (x ∷ xs) (dx, d) = (contains-take x n xs dx, Distinct-take n xs d)

nil_of_length {ℓ} : {A : Type ℓ} (xs : List A) → length xs ≡ 0 → xs ≡ []
nil_of_length [] h = refl
nil_of_length (x ∷ xs) h = absurd (omega arith)

weaken_members :
    (x : ℕ) (ys xs : List ℕ)
    → All (λ z. contains z ys ≡ true) xs
    → All (λ z. contains z (x ∷ ys) ≡ true) xs
weaken_members x ys [] h = tt
weaken_members x ys (z ∷ xs) (h, hs) = (ground (arith, h), weaken_members x ys xs hs)

pub members : (xs : List ℕ) → All (λ z. contains z xs ≡ true) xs
members [] = tt
members (x ∷ xs) = (ground arith, weaken_members x xs xs (members xs))

none_in_nil : (xs : List ℕ) → All (λ z. contains z [] ≡ false) xs
none_in_nil [] = tt
none_in_nil (x ∷ xs) = (refl, none_in_nil xs)

-- What a choice of `want` replicas out of `order` has to be.
pub record Choice (groups : Groups) (order : List ℕ) (want : ℕ) (r : List ℕ) : Type 0 where
  pub distinct : Distinct r
  pub number : length r ≡ want
  pub chosen : All (λ z. contains z order ≡ true) r
  pub spread :
      Distinct (labels groups r) ⊎ All (Represented groups r) (take (want + reorder_window) order)

module _ (groups : Groups) (order : List ℕ) (want : ℕ) (d : Distinct order)
    (h : want ≤ length order) where
  abbrev window : List ℕ
  window = take (want + reorder_window) order

  abbrev first : List ℕ
  first = pick groups want window [] []

  first-Picked : Picked order groups want window [] first
  unfolding labels
  first-Picked =
      pick-Picked order groups want window [] tt (Distinct-take (want + reorder_window) order d) tt
        (omega arith) tt (All-take _ (want + reorder_window) order (members order))
        (none_in_nil window)

  second-Completed : Completed order want order first (complete want order first)
  second-Completed =
      let p = first-Picked in
      complete-Completed order want order first p.distinct p.short p.chosen (members order)

  second-length : length (complete want order first) ≡ want
  second-length =
      let c = second-Completed in
      elim (Bool-cases (leb want (length (complete want order first)))) [
        | inl enough ↦ ground (arith, c.short)
        | inr low ↦ absurd (
            ground
              (arith, Distinct-length order (complete want order first) d (c.full (ground arith))))
      ]

  second-spread :
      Distinct (labels groups (complete want order first))
      ⊎ All (Represented groups (complete want order first)) window
  second-spread =
      let p = first-Picked in
      let c = second-Completed in
      elim (Bool-cases (leb want (length first))) [
        | inl enough ↦
            let none : c.more ≡ [] = nil_of_length c.more (
              ground
                (arith, p.short, second-length, ap length c.extends, length-append first c.more)) in
            inl (
              subst (λ t. Distinct (labels groups t))
                (sym (c.extends ∙ ap (λ t. first ++ t) none ∙ append-nil first)) p.spread)
        | inr low ↦ inr (
            subst (λ t. All (Represented groups t) window) (sym c.extends)
              (All-map window (Represented-append groups first c.more) (p.full (ground arith))))
      ]

  diversify_eq : diversify groups order want ≡ complete want order first
  unfolding diversify
  diversify_eq = take_all want (complete want order first) (omega (arith, second-length))

-- Out of distinct nodes, at least as many as wanted, `_diversify` chooses that many distinct ones,
-- and either the groups of the chosen nodes are all different, or each node of the window is chosen
-- or has a chosen node of its group.
pub diversify-Choice :
    (groups : Groups) (order : List ℕ) (want : ℕ)
    → Distinct order
    → want ≤ length order
    → Choice groups order want (diversify groups order want)
diversify-Choice groups order want d h =
    subst (Choice groups order want) (sym (diversify_eq groups order want d h)) (record {
      distinct = (second-Completed groups order want d h).distinct;
      number = second-length groups order want d h;
      chosen = (second-Completed groups order want d h).chosen;
      spread = second-spread groups order want d h;
    })
