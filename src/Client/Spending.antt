-- ===== src/Client/Spending.antt =====
-- The payment of writes in blindrange/client.py: _spend_token, _refund_token, top_up, _fetch_tokens,
-- _store_wallet, flush_wallet and the part of _post that pays. The wallet is a list of tokens as in
-- Token/Wallet; times are whole numbers of seconds. Parameters: the denominations of the issuer's keys,
-- what the issuer sells (request_tokens, which may raise), and the reply to a request (_post_inner).
-- The clock shows one time during a call.
pub mod Refunds
use blindrange.Prelude.{
  ℕ, ◌+◌, ◌-◌, ◌*◌, ◌/◌, max, min, Bool, true, false, ◌&&◌, ◌||◌, not, List, [], ◌∷◌, ◌++◌, ltb,
  leb, ◌==◌, if◌then◌else◌, length, Option, some, none, Result, ok, raise, Error, ◌>>=◌,
}
use blindrange.Token.Wallet.{Token, balance, take_for}

pub record Purse : Type 0 where
  pub tokens : List Token
  pub saved : List Token
  pub dirty : Bool
  pub flushed : ℕ

unfoldable pub store_wallet : ℕ → Bool → List Token → Purse → Purse
store_wallet now force tokens s =
    if force || leb 5 (now - s.flushed)
    then record { tokens = tokens; saved = tokens; dirty = false; flushed = now }
    else record { tokens = tokens; saved = s.saved; dirty = true; flushed = s.flushed }

unfoldable pub flush_wallet : ℕ → Purse → Purse
unfolding store_wallet
flush_wallet now s = if s.dirty then store_wallet now true s.tokens s else s

-- `next((d for d in offered if d >= need), offered[-1] if offered else 1000)`, for the sorted list.
unfoldable pub pick_denom : ℕ → ℕ → List ℕ → ℕ
pick_denom need last [] = last
pick_denom need last (d ∷ offered) =
    let rest = pick_denom need d offered in if leb need d then d else rest

-- `min(MAX_ISSUE_BATCH, max(8, -(-short // denom) * 2))`
unfoldable pub batch_count : ℕ → ℕ → ℕ
batch_count short denom = min 512 (max 8 ((short + denom - 1) / denom * 2))

-- `except Exception: pass`
unfoldable pub kept_on_error : List Token → Result (List Token) → List Token
kept_on_error wallet (ok w) = w
kept_on_error wallet (raise e) = wallet

unfoldable pub with_change :
    List Token → Option (List Token × List Token) → Option (List Token) × List Token
with_change wallet none = (none, wallet)
with_change wallet (some (chosen, left)) = (some chosen, left)

unfoldable pub refund_token : ℕ → List Token → Purse → Purse
unfolding store_wallet
refund_token now toks s = store_wallet now false (s.tokens ++ toks) s

-- The reply to a request that was paid with tokens, with the refund of a request that failed.
unfoldable pub paid_post :
    {Reply : Type 0} → ℕ → List Token → Result Reply → Purse → Result Reply × Purse
unfolding refund_token
paid_post now toks (ok reply) s = (ok reply, s)
paid_post now toks (raise e) s = (raise e, refund_token now toks s)

module _ (offered : Result (List ℕ)) (request_tokens : ℕ → ℕ → Result (List Token)) where
  -- `_fetch_tokens(wallet, need)`: the wallet with what is bought.
  unfoldable pub fetch_tokens : ℕ → List Token → Result (List Token)
  unfolding pick_denom batch_count balance
  fetch_tokens need wallet = do
    denoms ← offered
    let denom = pick_denom (max need 1) 1000 denoms
    bought ← request_tokens denom (batch_count (need - balance wallet) denom)
    ok (wallet ++ bought)

  -- The wallet that `take_for` is asked of.
  unfoldable pub stocked : Bool → ℕ → List Token → List Token
  unfolding fetch_tokens kept_on_error balance
  stocked account need wallet =
      let bought = kept_on_error wallet (fetch_tokens need wallet) in
      if ltb (balance wallet) need && account then bought else wallet

  -- `_spend_token`, where there is an issuer.
  unfoldable pub spend_token : ℕ → Bool → ℕ → Purse → Option (List Token) × Purse
  unfolding stocked with_change store_wallet take_for
  spend_token now account n_entries s =
      let need = max n_entries 1 in
      let wallet = stocked account need s.tokens in
      let (toks, left) = with_change wallet (take_for need wallet) in
      (toks, store_wallet now false left s)

  -- `top_up`
  unfoldable pub top_up : ℕ → ℕ → ℕ → Purse → Result (Purse × ℕ)
  unfolding store_wallet
  top_up now denom count s = do
    bought ← request_tokens denom count
    ok (store_wallet now true (s.tokens ++ bought) s, length bought)

  module _ {Reply : Type 0} (inner : Option (List Token) → Result Reply) where
    -- `if tok:` of the tokens that were spent.
    unfoldable pub post_with : ℕ → Option (List Token) → Purse → Result Reply × Purse
    unfolding paid_post
    post_with now none s = (inner none, s)
    post_with now (some []) s = (inner none, s)
    post_with now (some (t ∷ toks)) s = paid_post now (t ∷ toks) (inner (some (t ∷ toks))) s

    -- `_post` of a write without tokens.
    unfoldable pub post_write : Bool → ℕ → Bool → ℕ → Purse → Result Reply × Purse
    unfolding spend_token post_with
    post_write issuer now account n_entries s =
        let (toks, s') = spend_token now account n_entries s in
        let metered = post_with now toks s' in if issuer then metered else (inner none, s)
