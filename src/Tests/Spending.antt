-- ===== src/Tests/Spending.antt =====
-- Runs of the payment of writes in blindrange/client.py, and an instance of the theorem about it.
use blindrange.Prelude.{
  ℕ, ◌+◌, ◌-◌, ◌≤◌, ◌<◌, ◌≡◌, refl, Bool, true, false, List, [], ◌∷◌, max, if◌then◌else◌, ◌⊎◌,
  Option, some, none, Result, ok, raise, connection_error,
}
use blindrange.Token.Wallet.{Token, balance}
use blindrange.Token.Wallet.Conserved.{occurs}
use blindrange.Client.Spending.{Purse, stocked, post_write}
use blindrange.Client.Spending.Refunds.{returned, post_write-balance}

abbrev purse : Purse
purse = record { tokens = (1, 100) ∷ []; saved = []; dirty = false; flushed = 0 }

-- The issuer sells one token of each request.
abbrev sells : ℕ → ℕ → Result (List Token)
sells denom count = ok ((count, denom) ∷ [])

abbrev offers : Result (List ℕ)
offers = ok (10 ∷ 1000 ∷ [])

-- A node that refuses requests without tokens, and is down when `up` is false.
abbrev node : Bool → Option (List Token) → Result ℕ
node up none = raise connection_error
node up (some toks) = if up then ok 7 else raise connection_error

post_write_pays :
    post_write offers sells (node true) true 3 true 150 purse
    ≡ (ok 7, record { tokens = (1, 100) ∷ []; saved = []; dirty = true; flushed = 0 })
unfolding post_write balance
post_write_pays = refl

post_write_refunds : post_write offers sells (node false) true 3 true 150 purse ≡ (
  raise connection_error,
  record { tokens = (1, 100) ∷ (8, 1000) ∷ []; saved = []; dirty = true; flushed = 0 },
)
unfolding post_write balance
post_write_refunds = refl

post_write-balance_example :
    (let wallet = stocked offers sells true (max 150 1) purse.tokens in
      let (r, s') = post_write offers sells (node false) true 3 true 150 purse in
      ((balance wallet < max 150 1) × (r ≡ node false none) × (s'.tokens ≡ wallet))
      ⊎ ((toks : List Token) × (max 150 1 ≤ balance toks)
          × (balance toks ≤ balance wallet)
          × (r ≡ node false (some toks))
          × (balance s'.tokens
              ≡ (if returned r then balance wallet - balance toks else balance wallet))
          × ((t : Token)
              → (occurs t toks ≤ occurs t wallet)
                × (occurs t s'.tokens + (if returned r then occurs t toks else 0)
                    ≡ occurs t wallet))))
post_write-balance_example = post_write-balance offers sells (node false) 3 true 150 purse
