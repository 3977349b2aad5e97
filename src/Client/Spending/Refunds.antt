-- ===== src/Client/Spending/Refunds.antt =====
-- What a paid write of blindrange/client.py costs, on every branch.
use blindrange.Prelude.{
  ℕ, ◌+◌, ◌-◌, ◌≤◌, ◌<◌, ◌≡◌, refl, sym, ap, ◌∙◌, Bool, true, false, List, [], ◌∷◌, ◌++◌, max, ◌||◌,
  leb, if◌then◌else◌, Option, some, none, Result, ok, raise, Bool-cases, inl, inr, ◌⊎◌, arith,
}
use blindrange.Token.Wallet.{Token, balance, take_for-covers}
use blindrange.Token.Wallet.Conserved.{occurs, take_for-balance, take_for-occurs}
use blindrange.Client.Spending.{
  Purse, store_wallet, stocked, with_change, spend_token, refund_token, paid_post, post_with,
  post_write,
}

balance-append : (xs ys : List Token) → balance (xs ++ ys) ≡ balance xs + balance ys
unfolding balance
balance-append [] ys = omega arith
balance-append (x ∷ xs) ys = omega (arith, balance-append xs ys)

tokens-store_wallet :
    (now : ℕ) (force : Bool) (toks : List Token) (s : Purse)
    → (store_wallet now force toks s).tokens ≡ toks
unfolding store_wallet
tokens-store_wallet now force toks s = elim (Bool-cases (force || leb 5 (now - s.flushed))) [
  | inl saves ↦ rw saves refl
  | inr keeps ↦ rw keeps refl
]

occurs-append : (t : Token) (xs ys : List Token) → occurs t (xs ++ ys) ≡ occurs t xs + occurs t ys
occurs-append t [] ys = omega arith
occurs-append t (x ∷ xs) ys = omega (arith, occurs-append t xs ys)

abbrev pub returned : {Reply : Type 0} → Result Reply → Bool
returned (ok reply) = true
returned (raise e) = false

-- The tokens of a request that failed are back in the wallet.
balance-paid_post :
    {Reply : Type 0} (now : ℕ) (toks : List Token) (r : Result Reply) (s : Purse) (total : ℕ)
    → balance s.tokens + balance toks ≡ total
    → ((paid_post now toks r s).0 ≡ r)
      × (balance (paid_post now toks r s).1.tokens
          ≡ (if returned r then total - balance toks else total))
unfolding paid_post refund_token
balance-paid_post now toks (ok reply) s total h = (refl, omega (arith, h))
balance-paid_post now toks (raise e) s total h = (
  refl,
  ap balance (tokens-store_wallet now false (s.tokens ++ toks) s)
      ∙ balance-append s.tokens toks
      ∙ h,
)

occurs-paid_post :
    {Reply : Type 0} (now : ℕ) (toks : List Token) (r : Result Reply) (s : Purse) (t : Token)
    → occurs t (paid_post now toks r s).1.tokens + (if returned r then occurs t toks else 0)
      ≡ occurs t s.tokens + occurs t toks
unfolding paid_post refund_token
occurs-paid_post now toks (ok reply) s t = refl
occurs-paid_post now toks (raise e) s t =
    rw (tokens-store_wallet now false (s.tokens ++ toks) s)
      (omega (arith, occurs-append t s.tokens toks))

module _ (offered : Result (List ℕ)) (request_tokens : ℕ → ℕ → Result (List Token)) {Reply : Type 0}
    (inner : Option (List Token) → Result Reply) where
  balance-post_with :
      (now : ℕ) (toks : List Token) (s : Purse) (total : ℕ)
      → 1 ≤ balance toks
      → balance s.tokens + balance toks ≡ total
      → ((post_with offered request_tokens inner now (some toks) s).0 ≡ inner (some toks))
        × (balance (post_with offered request_tokens inner now (some toks) s).1.tokens
            ≡ (if returned (inner (some toks)) then total - balance toks else total))
  unfolding post_with
  balance-post_with now [] s total p h = absurd (unfold balance in omega (arith, p))
  balance-post_with now (t ∷ toks) s total p h =
      balance-paid_post now (t ∷ toks) (inner (some (t ∷ toks))) s total h

  occurs-post_with :
      (now : ℕ) (toks : List Token) (s : Purse) (t : Token)
      → 1 ≤ balance toks
      → occurs t (post_with offered request_tokens inner now (some toks) s).1.tokens
          + (if returned (inner (some toks)) then occurs t toks else 0)
        ≡ occurs t s.tokens + occurs t toks
  unfolding post_with
  occurs-post_with now [] s t p = absurd (unfold balance in omega (arith, p))
  occurs-post_with now (u ∷ toks) s t p =
      occurs-paid_post now (u ∷ toks) (inner (some (u ∷ toks))) s t

  -- A write on a metered network, of the wallet as it is after a purchase: if the wallet does not cover
  -- the entries, the request goes out without tokens and the wallet stays; else it goes out with tokens
  -- of the wallet that cover them. If it returns, each token stands in the wallet as often as before less
  -- its number among those that were sent, and the balance is less by theirs; if it raises, each token
  -- stands in the wallet as often as before, and the balance is the same.
  pub post_write-balance :
      (now : ℕ) (account : Bool) (n_entries : ℕ) (s : Purse)
      → (let wallet = stocked offered request_tokens account (max n_entries 1) s.tokens in
          let (r, s') = post_write offered request_tokens inner true now account n_entries s in
          ((balance wallet < max n_entries 1) × (r ≡ inner none) × (s'.tokens ≡ wallet))
          ⊎ ((toks : List Token) × (max n_entries 1 ≤ balance toks)
              × (balance toks ≤ balance wallet)
              × (r ≡ inner (some toks))
              × (balance s'.tokens
                  ≡ (if returned r then balance wallet - balance toks else balance wallet))
              × ((t : Token)
                  → (occurs t toks ≤ occurs t wallet)
                    × (occurs t s'.tokens + (if returned r then occurs t toks else 0)
                        ≡ occurs t wallet))))
  unfolding post_write spend_token with_change post_with
  post_write-balance now account n_entries s =
      let need = max n_entries 1 in
      let wallet = stocked offered request_tokens account need s.tokens in
      elim (take_for-covers need wallet) [
        | inl (nothing, short) ↦
            rw nothing (inl (omega (arith, short), refl, tokens-store_wallet now false wallet s))
        | inr (chosen, left, taken, covers, _) ↦
            let sum = take_for-balance need wallet chosen left taken in
            let s' = store_wallet now false left s in
            let held = tokens-store_wallet now false left s in
            let same = ap balance held in
            let (reply, after) =
              balance-post_with now chosen s' (balance wallet) (omega (arith, covers))
                (omega (arith, same, sum)) in
            rw taken (
              inr (
                chosen,
                omega (arith, covers),
                omega (arith, sum),
                reply,
                after
                    ∙ ap
                        (λ r.
                          if returned r then balance wallet - balance chosen else balance wallet)
                        (sym reply),
                λ t.
                    let kept = take_for-occurs need wallet chosen left taken t in
                    let sent = occurs-post_with now chosen s' t (omega (arith, covers)) in
                    (omega (arith, kept), rw reply (omega (arith, sent, ap (occurs t) held, kept))),
              ))
      ]
