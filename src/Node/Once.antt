-- ===== src/Node/Once.antt =====
-- `TokenGate.check` of blindrange/node.py over two requests: a token pays once.
use blindrange.Prelude.{
  ℕ, ◌≡◌, ◌≢◌, refl, sym, ◌∙◌, true, false, List, [], ◌∷◌, map, contains, contains-append, All,
  arith, subst, Bool-cases, inl, inr, Option, ◌==◌,
}
use mathlib.Core.List.{map-append}
use blindrange.Node.{Store, Gate, Request, Reason, paid, admits, check}
use blindrange.Node.Spending.{spent_refs, with_spent, rows, Fresh}
use blindrange.Node.Paid.{tokens_of, Untouched, Verdict, untouched, burnt, settled, check-Verdict}

module _ {Tok : Type 0} (worth : Tok → Option ℕ) (ref : Tok → ℕ) (epoch : Tok → ℕ) where
  abbrev refs : Request worth ref epoch → List ℕ
  refs q = map ref (tokens_of worth ref epoch q)

  not-Untouched :
      (q : Request worth ref epoch) (g : Gate) (why : Reason)
      → why ≡ paid
      → Untouched worth ref epoch q g why
      → ⊥
  unfolding admits
  not-Untouched q g why e (inl (r, h)) = cc
  not-Untouched q g why e (inr (inl (r, h))) = cc
  not-Untouched q g why e (inr (inr (r, h))) =
      let same : admits paid ≡ false = subst (λ t. admits t ≡ false) e r in cc

  when_paid :
      (q : Request worth ref epoch) (n : ℕ) (g : Gate) (s : Store) (out : Reason × Gate × Store)
      → Verdict worth ref epoch q n g s out
      → out.0 ≡ paid
      → All (Fresh worth ref epoch s) (tokens_of worth ref epoch q)
        × (out.2 ≡ with_spent worth ref epoch s (tokens_of worth ref epoch q))
  when_paid q n g s out (untouched why u) e = absurd (not-Untouched q g why e u)
  when_paid q n g s out (burnt before t after split old) e = cc
  when_paid q n g s out (settled f d h) e = (f, refl)

  contains-rows :
      (toks : List Tok) (x : ℕ)
      → contains x (map (λ row. row.0) (rows worth ref epoch toks)) ≡ contains x (map ref toks)
  contains-rows [] x = refl
  contains-rows (t ∷ toks) x = ground (arith, contains-rows toks x)

  spent-again :
      (s : Store) (toks : List Tok) (x : ℕ)
      → contains x (map ref toks) ≡ true
      → contains x (spent_refs (with_spent worth ref epoch s toks)) ≡ true
  spent-again s toks x h = rw map-append (
      contains-append x (spent_refs s) (map (λ row. row.0) (rows worth ref epoch toks))
      ∙ ground (arith, contains-rows toks x))

  unspent_members :
      (s : Store) (toks : List Tok) (x : ℕ)
      → All (Fresh worth ref epoch s) toks
      → contains x (map ref toks) ≡ true
      → contains x (spent_refs s) ≡ false
  unspent_members s [] x f h = cc
  unspent_members s (t ∷ toks) x (f, fs) h = elim (Bool-cases (ref t == x)) [
    | inl same ↦
        let at : ref t ≡ x = ground arith in subst (λ y. contains y (spent_refs s) ≡ false) at f
    | inr other ↦ unspent_members s toks x fs (ground arith)
  ]

  -- A token that a request has paid with does not pay for a later one: the gate does not answer
  -- "paid" to a request with a token of the same reference.
  pub paid_once :
      (q q' : Request worth ref epoch) (n n' : ℕ) (g g' : Gate) (s : Store) (x : ℕ)
      → (check worth ref epoch q n g s).0 ≡ paid
      → contains x (refs q) ≡ true
      → contains x (refs q') ≡ true
      → (check worth ref epoch q' n' g' (check worth ref epoch q n g s).2).0 ≢ paid
  paid_once q q' n n' g g' s x first inq inq' again =
      let (f, e) = when_paid q n g s _ (check-Verdict worth ref epoch q n g s) first in
      let s' = (check worth ref epoch q n g s).2 in
      let (f', e') = when_paid q' n' g' s' _ (check-Verdict worth ref epoch q' n' g' s') again in
      let old : contains x (spent_refs s') ≡ true =
        subst (λ t. contains x (spent_refs t) ≡ true) (sym e)
          (spent-again s (tokens_of worth ref epoch q) x inq) in
      let new : contains x (spent_refs s') ≡ false =
        unspent_members s' (tokens_of worth ref epoch q') x f' inq' in
      cc
