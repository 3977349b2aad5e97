-- ===== src/Token/Wallet/Conserved.antt =====
-- `take_for` pays with tokens of the wallet, each no more often than it stands there: nothing is lost.
use blindrange.Prelude.{
  ℕ, ◌+◌, ◌-◌, ◌≤◌, ◌<◌, ◌≡◌, refl, sym, ap, ap₂, subst, Bool, true, false, ◌&&◌, not, List, [],
  ◌∷◌, any, ltb, leb, ◌==◌, if◌then◌else◌, some, arith, Bool-cases, inl, inr,
}
use blindrange.Token.Wallet.{
  Token, same_token, balance, insert_token, largest_first, gather, better, smallest, trade_last,
  trade, remove, remove_all, take_for,
}

abbrev pub one_if : Bool → ℕ
one_if true = 1
one_if false = 0

one_if_le : (b : Bool) → one_if b ≤ 1
one_if_le true = omega arith
one_if_le false = omega arith

-- How often the token stands in the list.
abbrev pub occurs : Token → List Token → ℕ
occurs t [] = 0
occurs t (u ∷ us) = one_if (same_token t u) + occurs t us

same_token-eq : (t u : Token) → same_token t u ≡ true → t ≡ u
same_token-eq (a, b) (c, d) h =
    let p : a ≡ c = ground (arith, h) in
    let q : b ≡ d = ground (arith, h) in ap₂ (λ x y. (x, y)) p q

occurs-insert_token :
    (t u : Token) (us : List Token)
    → occurs t (insert_token u us) ≡ one_if (same_token t u) + occurs t us
unfolding insert_token
occurs-insert_token t u [] = refl
occurs-insert_token t u (v ∷ us) = elim (Bool-cases (leb v.1 u.1)) [
  | inl here ↦ rw here refl
  | inr later ↦ rw later (omega (arith, occurs-insert_token t u us))
]

occurs-largest_first :
    (t : Token) (toks : List Token) → occurs t (largest_first toks) ≡ occurs t toks
unfolding largest_first
occurs-largest_first t [] = refl
occurs-largest_first t (u ∷ toks) =
    omega (arith, occurs-insert_token t u (largest_first toks), occurs-largest_first t toks)

occurs-gather :
    (t : Token) (need : ℕ) (avail chosen : List Token)
    → occurs t (gather need avail chosen) ≤ occurs t chosen + occurs t avail
unfolding gather
occurs-gather t need [] chosen = omega arith
occurs-gather t need (u ∷ avail) chosen = elim (Bool-cases (leb need (balance chosen))) [
  | inl enough ↦ rw enough (omega arith)
  | inr short ↦ rw short (omega (arith, occurs-gather t need avail (u ∷ chosen)))
]

counts_itself : (t : Token) → one_if (same_token t t) ≡ 1
counts_itself t = ground arith

occurs-itself : (t : Token) (us : List Token) → 0 < occurs t (t ∷ us)
occurs-itself t us = ground arith

smallest-occurs : (t : Token) (us : List Token) → 0 < occurs (smallest t us) (t ∷ us)
unfolding smallest
smallest-occurs t [] = occurs-itself t []
smallest-occurs t (u ∷ us) = elim (Bool-cases (ltb u.1 t.1)) [
  | inl less ↦
      let e : smallest t (u ∷ us) ≡ smallest u us = rw less refl in
      subst (λ s. 0 < occurs s (t ∷ u ∷ us)) (sym e) (omega (arith, smallest-occurs u us))
  | inr more ↦
      let e : smallest t (u ∷ us) ≡ smallest t us = rw more refl in
      subst (λ s. 0 < occurs s (t ∷ u ∷ us)) (sym e) (omega (arith, smallest-occurs t us))
]

not_any-occurs :
    (x : Token) (chosen : List Token) → any (same_token x) chosen ≡ false → occurs x chosen ≡ 0
not_any-occurs x [] h = refl
not_any-occurs x (u ∷ chosen) h =
    let e : same_token x u ≡ false = ground (arith, h) in
    rw e (omega (arith, not_any-occurs x chosen (ground (arith, h))))

-- A token that closes the gap is of the wallet, and not chosen already.
better-occurs :
    (x : Token) (gap : ℕ) (chosen avail : List Token)
    → 0 < occurs x (better gap chosen avail)
    → (occurs x chosen ≡ 0) × (0 < occurs x avail)
unfolding better
better-occurs x gap chosen [] h = absurd (omega (arith, h))
better-occurs x gap chosen (t ∷ avail) h =
    elim (Bool-cases (not (any (same_token t) chosen) && leb gap t.1)) [
      | inr other ↦
          let (a, b) = better-occurs x gap chosen avail (rw other at h) in (a, omega (arith, b))
      | inl fits ↦
          let h' = rw fits at h in
          elim (Bool-cases (same_token x t)) [
            | inl same ↦
                let e = same_token-eq x t same in
                let away : any (same_token t) chosen ≡ false = ground (arith, fits) in
                (
                  rw e (not_any-occurs t chosen away),
                  subst (λ y. 0 < occurs y (t ∷ avail)) (sym e) (occurs-itself t avail),
                )
            | inr different ↦
                let h'' = rw different at h' in
                let (a, b) = better-occurs x gap chosen avail (omega (arith, h'')) in
                (a, omega (arith, b))
          ]
    ]

module _ (avail : List Token) where
  Within : List Token → Type 0
  Within picks = (t : Token) → occurs t picks ≤ occurs t avail

  trade_last-Within :
      (last : Token) (chosen : List Token) (gap : ℕ) (ts : List Token)
      → Within (last ∷ chosen)
      → ((x : Token) → 0 < occurs x ts → (occurs x (last ∷ chosen) ≡ 0) × (0 < occurs x avail))
      → Within (trade_last last chosen ts)
  unfolding trade_last Within
  trade_last-Within last chosen gap [] w b = w
  trade_last-Within last chosen gap (t ∷ ts) w b =
      elim (Bool-cases (ltb (smallest t ts).1 last.1)) [
        | inr keep ↦ rw keep w
        | inl less ↦ rw less (λ x. elim (Bool-cases (same_token x (smallest t ts))) [
          | inl same ↦
              let e = same_token-eq x (smallest t ts) same in
              let (p, q) = b (smallest t ts) (smallest-occurs t ts) in
              subst (λ y. occurs y (smallest t ts ∷ chosen) ≤ occurs y avail) (sym e)
                (omega (arith, p, q, one_if_le (same_token (smallest t ts) (smallest t ts))))
          | inr other ↦ rw other (omega (arith, w x))
        ])
      ]

  trade-Within : (need : ℕ) (picks : List Token) → Within picks → Within (trade need avail picks)
  unfolding trade Within
  trade-Within need [] w = w
  trade-Within need (last ∷ chosen) w =
      trade_last-Within last chosen (need - balance chosen) _ w
        (λ x h. better-occurs x (need - balance chosen) (last ∷ chosen) avail h)

balance-remove :
    (t : Token) (us : List Token) → 0 < occurs t us → balance (remove t us) + t.1 ≡ balance us
unfolding balance remove
balance-remove t [] h = absurd (omega (arith, h))
balance-remove t (u ∷ us) h = elim (Bool-cases (same_token u t)) [
  | inl same ↦ let e = same_token-eq u t same in rw (same, e) (omega arith)
  | inr other ↦
      let flipped : same_token t u ≡ false = ground (arith, other) in
      rw other (omega (arith, balance-remove t us (omega (arith, rw flipped at h))))
]

occurs-remove :
    (x t : Token) (us : List Token) → occurs x us ≤ occurs x (remove t us) + one_if (same_token x t)
unfolding remove
occurs-remove x t [] = omega arith
occurs-remove x t (u ∷ us) = elim (Bool-cases (same_token u t)) [
  | inl same ↦ let e = same_token-eq u t same in rw (same, e) (omega arith)
  | inr other ↦ rw other (omega (arith, occurs-remove x t us))
]

occurs-remove_all :
    (x : Token) (chosen us : List Token)
    → occurs x us ≤ occurs x (remove_all chosen us) + occurs x chosen
unfolding remove_all
occurs-remove_all x [] us = omega arith
occurs-remove_all x (t ∷ chosen) us =
    omega (arith, occurs-remove_all x chosen us, occurs-remove x t (remove_all chosen us))

balance-remove_all :
    (chosen us : List Token)
    → ((t : Token) → occurs t chosen ≤ occurs t us)
    → balance (remove_all chosen us) + balance chosen ≡ balance us
unfolding balance remove_all
balance-remove_all [] us w = omega arith
balance-remove_all (t ∷ chosen) us w =
    let ih = balance-remove_all chosen us (λ x. omega (arith, w x)) in
    let there : 0 < occurs t (remove_all chosen us) =
      omega (arith, w t, counts_itself t, occurs-remove_all t chosen us) in
    omega (arith, ih, balance-remove t (remove_all chosen us) there)

-- A token that is there is removed once, and no other token is.
occurs-remove_exact :
    (x t : Token) (us : List Token)
    → 0 < occurs t us
    → occurs x (remove t us) + one_if (same_token x t) ≡ occurs x us
unfolding remove
occurs-remove_exact x t [] h = absurd (omega (arith, h))
occurs-remove_exact x t (u ∷ us) h = elim (Bool-cases (same_token u t)) [
  | inl same ↦ let e = same_token-eq u t same in rw (same, e) (omega arith)
  | inr other ↦
      let flipped : same_token t u ≡ false = ground (arith, other) in
      rw other (omega (arith, occurs-remove_exact x t us (omega (arith, rw flipped at h))))
]

occurs-remove_all_exact :
    (x : Token) (chosen us : List Token)
    → ((t : Token) → occurs t chosen ≤ occurs t us)
    → occurs x (remove_all chosen us) + occurs x chosen ≡ occurs x us
unfolding remove_all
occurs-remove_all_exact x [] us w = omega arith
occurs-remove_all_exact x (t ∷ chosen) us w =
    let ih = occurs-remove_all_exact x chosen us (λ y. omega (arith, w y)) in
    let there : 0 < occurs t (remove_all chosen us) =
      omega (arith, w t, counts_itself t, occurs-remove_all t chosen us) in
    omega (arith, ih, occurs-remove_exact x t (remove_all chosen us) there)

some_inj : {p q : List Token × List Token} → some p ≡ some q → p ≡ q
some_inj h = cc

-- The tokens that pay are of the wallet.
picks-Within :
    (need : ℕ) (toks : List Token)
    → Within (largest_first toks) (gather need (largest_first toks) [])
unfolding Within
picks-Within need toks = λ t. omega (arith, occurs-gather t need (largest_first toks) [])

-- What `take_for` returns, and why: the tokens that pay are of the wallet, the others are left.
take_for-chosen :
    (need : ℕ) (toks chosen left : List Token)
    → take_for need toks ≡ some (chosen, left)
    → (left ≡ remove_all chosen toks) × ((t : Token) → occurs t chosen ≤ occurs t toks)
unfolding take_for Within
take_for-chosen need toks chosen left h =
    let w = if need == 0 then 1 else need in
    let avail = largest_first toks in
    let picks = gather w avail [] in
    let paid = trade w avail picks in
    let within = trade-Within avail w picks (picks-Within w toks) in
    elim (Bool-cases (ltb (balance picks) w)) [
      | inl short ↦ let h' = rw short at h in cc
      | inr covered ↦
          let h' = rw covered at h in
          let c : paid ≡ chosen = ap (λ p. p.0) (some_inj h') in
          let l : remove_all paid toks ≡ left = ap (λ p. p.1) (some_inj h') in
          rw (← c, ← l) (refl, λ t. omega (arith, within t, occurs-largest_first t toks))
    ]

-- What is taken and what is left make up the wallet.
pub take_for-balance :
    (need : ℕ) (toks chosen left : List Token)
    → take_for need toks ≡ some (chosen, left)
    → balance left + balance chosen ≡ balance toks
take_for-balance need toks chosen left h =
    let (l, within) = take_for-chosen need toks chosen left h in
    rw l (balance-remove_all chosen toks within)

-- Each token stands in what is left and in what is taken as often as in the wallet.
pub take_for-occurs :
    (need : ℕ) (toks chosen left : List Token)
    → take_for need toks ≡ some (chosen, left)
    → (t : Token) → occurs t left + occurs t chosen ≡ occurs t toks
take_for-occurs need toks chosen left h t =
    let (l, within) = take_for-chosen need toks chosen left h in
    rw l (occurs-remove_all_exact t chosen toks within)
