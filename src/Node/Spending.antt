-- ===== src/Node/Spending.antt =====
-- The loop of `TokenGate.check` of blindrange/node.py that spends the tokens.
use blindrange.Prelude.{
  ℕ, ◌≡◌, refl, sym, ap, ◌∙◌, true, false, Bool, ◌||◌, List, [], ◌∷◌, ◌++◌, map, ◌==◌, contains,
  contains-append, Distinct, All, arith, Bool-cases, inl, inr, subst, Option,
}
use mathlib.Core.List.{append-nil, append_assoc, map-append}
use blindrange.Node.{Store, spend, spend_all}

-- The references that a store has as spent.
abbrev pub spent_refs : Store → List ℕ
spent_refs s = map (λ row. row.0) s.spent

module _ {Tok : Type 0} (worth : Tok → Option ℕ) (ref : Tok → ℕ) (epoch : Tok → ℕ) where
  abbrev pub rows : List Tok → List (ℕ × ℕ)
  rows = map (λ t. (ref t, epoch t))

  -- The store with the tokens spent on top.
  abbrev pub with_spent : Store → List Tok → Store
  with_spent s toks = record s { spent = s.spent ++ rows toks }

  abbrev pub Fresh : Store → Tok → Type 0
  Fresh s t = contains (ref t) (spent_refs s) ≡ false

  -- Either every token is spent, which none of them was; or the spending stops at the first token
  -- that is spent already, be it by one before it.
  pub data Spending (s : Store) (toks : List Tok) : Bool × Store → Type 0 where
    all_landed :
        All (Fresh s) toks → Distinct (map ref toks) → Spending s toks (true, with_spent s toks)
    stopped :
        (before : List Tok) (t : Tok) (after : List Tok)
        → toks ≡ before ++ t ∷ after
        → contains (ref t) (spent_refs (with_spent s before)) ≡ true
        → Spending s toks (false, with_spent s before)

  with_spent-cons :
      (s : Store) (t : Tok) (toks : List Tok)
      → with_spent (with_spent s (t ∷ [])) toks ≡ with_spent s (t ∷ toks)
  with_spent-cons s t toks =
      ap (λ (x : List (ℕ × ℕ)). record s { spent = x })
        (append_assoc s.spent (rows (t ∷ [])) (rows toks))

  contains-with_spent :
      (s : Store) (t : Tok) (x : ℕ)
      → contains x (spent_refs (with_spent s (t ∷ []))) ≡ (contains x (spent_refs s) || ref t == x)
  contains-with_spent s t x =
      rw map-append (contains-append x (spent_refs s) (ref t ∷ []) ∙ ground arith)

  Fresh-before :
      (s : Store) (t : Tok) (toks : List Tok)
      → All (Fresh (with_spent s (t ∷ []))) toks
      → All (Fresh s) toks × (contains (ref t) (map ref toks) ≡ false)
  Fresh-before s t [] h = (tt, refl)
  Fresh-before s t (x ∷ toks) (h, hs) =
      let (a, b) = Fresh-before s t toks hs in
      let e = contains-with_spent s t (ref x) in ((ground arith, a), ground arith)

  Spending-step :
      (s : Store) (t : Tok) (toks : List Tok) (out : Bool × Store)
      → Fresh s t
      → Spending (with_spent s (t ∷ [])) toks out
      → Spending s (t ∷ toks) out
  Spending-step s t toks out f (all_landed h d) =
      let (a, b) = Fresh-before s t toks h in
      subst (λ x. Spending s (t ∷ toks) (true, x)) (sym (with_spent-cons s t toks))
        (all_landed (f, a) (b, d))
  Spending-step s t toks out f (stopped before x after e old) =
      subst (λ y. Spending s (t ∷ toks) (false, y)) (sym (with_spent-cons s t before))
        (stopped (t ∷ before) x after (ap (◌∷◌ t) e)
          (subst (λ y. contains (ref x) (spent_refs y) ≡ true) (with_spent-cons s t before) old))

  pub spend_all-Spending :
      (toks : List Tok) (s : Store) → Spending s toks (spend_all worth ref epoch toks s)
  unfolding spend_all spend
  spend_all-Spending [] s =
      subst (λ x. Spending s [] (true, x))
        (ap (λ (x : List (ℕ × ℕ)). record s { spent = x }) (append-nil s.spent)) (all_landed tt tt)
  spend_all-Spending (t ∷ toks) s = elim (Bool-cases (contains (ref t) (spent_refs s))) [
    | inl old ↦ rw old (
        subst (λ x. Spending s (t ∷ toks) (false, x))
          (ap (λ (x : List (ℕ × ℕ)). record s { spent = x }) (append-nil s.spent))
          (stopped [] t toks refl (
            subst (λ x. contains (ref t) (map (λ row. row.0) x) ≡ true) (sym (append-nil s.spent))
              old)))
    | inr new ↦
        rw new (Spending-step s t toks _ new (spend_all-Spending toks (with_spent s (t ∷ []))))
  ]
