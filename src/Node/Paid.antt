-- ===== src/Node/Paid.antt =====
-- `TokenGate.check` of blindrange/node.py: what each of its answers means, and that a token pays
-- once.
use blindrange.Prelude.{
  ℕ, ◌+◌, ◌≤◌, ◌≡◌, ◌≢◌, refl, sym, ◌∙◌, true, false, Bool, not, List, [], ◌∷◌, ◌++◌, map, ltb,
  ◌==◌, if◌then◌else◌, contains, Distinct, length, sum, All, arith, inl, inr, ◌⊎◌, subst, Option,
  none, some, Option-cases,
}
use blindrange.Node.{
  Store, Gate, Request, Reason, repair, no_keys, missing, too_many, malformed, invalid, short,
  duplicate, already_spent, paid, Tally, counted, refused, tally, dicts, refs_set, spend_all,
  presented, judge, check, admits,
}
use blindrange.Node.Spending.{
  spent_refs, with_spent, Fresh, Spending, all_landed, stopped, spend_all-Spending,
}

by_cases {ℓ κ} :
    {A : Type ℓ} (P : A → Type κ) (t : Bool) (x y : A)
    → (t ≡ true → P x)
    → (t ≡ false → P y)
    → P (if t then x else y)
by_cases P true x y f g = f refl
by_cases P false x y f g = g refl

abbrev value : {Tok : Type 0} → (Tok → Option ℕ) → Tok → ℕ
value worth t = elim (worth t) [ none ↦ 0 | some d ↦ d ]

module _ {Tok : Type 0} (worth : Tok → Option ℕ) (ref : Tok → ℕ) (epoch : Tok → ℕ) where
  abbrev pub tokens_of : Request worth ref epoch → List Tok
  tokens_of q = dicts worth ref epoch (presented worth ref epoch q)

  -- The reasons that leave the store and the gate alone: the two exemptions, and the refusals that
  -- come before the spending.
  abbrev pub Untouched : Request worth ref epoch → Gate → Reason → Type 0
  Untouched q g why =
      ((why ≡ repair) × (q.is_repair ≡ true))
      ⊎ (((why ≡ no_keys) × (g.keyed ≡ false)) ⊎ ((admits why ≡ false) × (why ≢ already_spent)))

  pub data Verdict (q : Request worth ref epoch) (n_entries : ℕ) (g : Gate) (s : Store)
      : Reason × Gate × Store → Type 0 where
    untouched : (why : Reason) → Untouched q g why → Verdict q n_entries g s (why, g, s)
    burnt :
        (before : List Tok) (t : Tok) (after : List Tok)
        → tokens_of q ≡ before ++ t ∷ after
        → contains (ref t) (spent_refs (with_spent worth ref epoch s before)) ≡ true
        → Verdict q n_entries g s (already_spent, g, with_spent worth ref epoch s before)
    settled :
        All (Fresh worth ref epoch s) (tokens_of q)
        → Distinct (map ref (tokens_of q))
        → n_entries ≤ sum (map (value worth) (tokens_of q))
        → Verdict q n_entries g s (
          paid,
          record g { redeemed = g.redeemed + length (presented worth ref epoch q) },
          with_spent worth ref epoch s (tokens_of q),
        )

  tally-sum :
      (acc : ℕ) (toks : List (Option Tok)) (v : ℕ)
      → tally worth ref epoch acc toks ≡ counted v
      → v ≡ acc + sum (map (value worth) (dicts worth ref epoch toks))
  unfolding tally dicts
  tally-sum acc [] v e = let same : acc ≡ v = cc in omega (arith, same)
  tally-sum acc (none ∷ toks) v e = cc
  tally-sum acc (some t ∷ toks) v e = elim (Option-cases (worth t)) [
    | inl bad ↦
        let same : tally worth ref epoch acc (some t ∷ toks) ≡ refused invalid =
          rw (tally, bad) refl in
        cc
    | inr (d, good) ↦
        let same : tally worth ref epoch acc (some t ∷ toks)
            ≡ tally worth ref epoch (acc + d) toks =
          rw (tally, good) refl in
        rw (value, good) (omega (arith, tally-sum (acc + d) toks v (sym same ∙ e)))
  ]

  abbrev IsRefusal : Reason → Type 0
  IsRefusal why = (admits why ≡ false) × (why ≢ already_spent)

  tally-IsRefusal :
      (acc : ℕ) (toks : List (Option Tok)) (why : Reason)
      → tally worth ref epoch acc toks ≡ refused why
      → IsRefusal why
  unfolding tally admits
  tally-IsRefusal acc [] why e = cc
  tally-IsRefusal acc (none ∷ toks) why e =
      let same : malformed ≡ why = cc in subst IsRefusal same (refl, λ x. cc)
  tally-IsRefusal acc (some t ∷ toks) why e = elim (Option-cases (worth t)) [
    | inl bad ↦
        let same : tally worth ref epoch acc (some t ∷ toks) ≡ refused invalid =
          rw (tally, bad) refl in
        let one : invalid ≡ why = cc in subst IsRefusal one (refl, λ x. cc)
    | inr (d, good) ↦
        let same : tally worth ref epoch acc (some t ∷ toks)
            ≡ tally worth ref epoch (acc + d) toks =
          rw (tally, good) refl in
        tally-IsRefusal (acc + d) toks why (sym same ∙ e)
  ]

  refs_set_le : (xs : List ℕ) → length (refs_set xs) ≤ length xs
  unfolding refs_set
  refs_set_le [] = omega arith
  refs_set_le (x ∷ xs) = ground (arith, refs_set_le xs)

  module _ (q : Request worth ref epoch) (n_entries : ℕ) (g : Gate) (s : Store) where
    after-Spending :
        (v : ℕ) (out : Bool × Store)
        → tally worth ref epoch 0 (presented worth ref epoch q) ≡ counted v
        → ltb v n_entries ≡ false
        → Spending worth ref epoch s (tokens_of q) out
        → Verdict q n_entries g s (
            if not out.0 then (already_spent, g, out.1) else (
              paid,
              record g { redeemed = g.redeemed + length (presented worth ref epoch q) },
              out.1,
            ))
    after-Spending v out e enough (all_landed f d) =
        settled f d (ground (arith, tally-sum 0 (presented worth ref epoch q) v e))
    after-Spending v out e enough (stopped before t after split old) =
        burnt before t after split old

    tallied :
        (r : Tally)
        → tally worth ref epoch 0 (presented worth ref epoch q) ≡ r
        → Verdict q n_entries g s
            (judge worth ref epoch r (presented worth ref epoch q) n_entries g s)
    unfolding judge admits
    tallied (refused why) e =
        untouched why (inr (inr (tally-IsRefusal 0 (presented worth ref epoch q) why e)))
    tallied (counted v) e =
        by_cases (Verdict q n_entries g s) (ltb v n_entries) _ _
          (λ low. untouched short (inr (inr (refl, λ x. cc))))
          λ enough.
            by_cases (Verdict q n_entries g s)
              (not
                (length (refs_set (map ref (tokens_of q))) == length (presented worth ref epoch q)))
              _ _ (λ twice. untouched duplicate (inr (inr (refl, λ x. cc))))
              λ once.
                after-Spending v (spend_all worth ref epoch (tokens_of q) s) e enough
                  (spend_all-Spending worth ref epoch (tokens_of q) s)

    -- What each answer of the gate means. An exemption, or a refusal that comes before the spending,
    -- leaves everything alone. "paid" is answered only for different tokens, none of them spent
    -- before, that are worth the entries, and they are then spent. "already spent" is answered when
    -- a token was spent before or stands there twice, and the tokens before it are then spent.
    pub check-Verdict : Verdict q n_entries g s (check worth ref epoch q n_entries g s)
    unfolding check admits
    check-Verdict =
        by_cases (Verdict q n_entries g s) q.is_repair _ _
          (λ own. untouched repair (inl (refl, own)))
          λ other.
            by_cases (Verdict q n_entries g s) (not g.keyed) _ _
              (λ bare. untouched no_keys (inr (inl (refl, ground arith))))
              λ keyed.
                by_cases (Verdict q n_entries g s) (length (presented worth ref epoch q) == 0) _ _
                  (λ empty. untouched missing (inr (inr (refl, λ x. cc))))
                  λ full.
                    by_cases (Verdict q n_entries g s)
                      (ltb 512 (length (presented worth ref epoch q))) _ _
                      (λ many. untouched too_many (inr (inr (refl, λ x. cc))))
                      λ few. tallied (tally worth ref epoch 0 (presented worth ref epoch q)) refl
