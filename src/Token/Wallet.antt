-- ===== src/Token/Wallet.antt =====
-- `Wallet` of blindrange/token.py: the choice of the tokens that pay for a write.
-- A token is a pair of a number that tells it from the others and its denomination, which is what
-- `parse_key_id(t["kid"])[1]` reads.
pub mod Conserved
use blindrange.Prelude.{
  ℕ, ◌+◌, ◌-◌, ◌≤◌, ◌<◌, ◌≡◌, refl, Bool, ◌&&◌, not, List, [], ◌∷◌, any, ltb, leb, ◌==◌,
  if◌then◌else◌, Option, none, some, arith, Bool-cases, inl, inr, max, All, ◌⊎◌,
}

abbrev pub Token : Type 0
Token = ℕ × ℕ

abbrev same_token : Token → Token → Bool
same_token t u = t.0 == u.0 && t.1 == u.1

unfoldable pub balance : List Token → ℕ
balance [] = 0
balance (t ∷ toks) = t.1 + balance toks

-- `sorted(…, key=lambda t: -denomination)`, which is stable.
unfoldable pub insert_token : Token → List Token → List Token
insert_token t [] = t ∷ []
insert_token t (u ∷ us) =
    let rest = insert_token t us in if leb u.1 t.1 then t ∷ u ∷ us else u ∷ rest

unfoldable pub largest_first : List Token → List Token
unfolding insert_token
largest_first [] = []
largest_first (t ∷ toks) = insert_token t (largest_first toks)

-- The loop that gathers; the last of the chosen tokens comes first.
unfoldable pub gather : ℕ → List Token → List Token → List Token
unfolding balance
gather need [] chosen = chosen
gather need (t ∷ avail) chosen =
    let more = gather need avail (t ∷ chosen) in if leb need (balance chosen) then chosen else more

-- `[t for t in avail if t not in chosen and denomination >= gap]`
unfoldable pub better : ℕ → List Token → List Token → List Token
better gap chosen [] = []
better gap chosen (t ∷ avail) =
    let rest = better gap chosen avail in
    if not (any (same_token t) chosen) && leb gap t.1 then t ∷ rest else rest

-- `min(…, key=denomination)`: the first of the smallest.
unfoldable pub smallest : Token → List Token → Token
smallest t [] = t
smallest t (u ∷ us) = let s = smallest t us in smallest (if ltb u.1 t.1 then u else t) us

-- The trade of the last pick for the smallest of the `better` tokens, if it is smaller.
unfoldable pub trade_last : Token → List Token → List Token → List Token
unfolding smallest
trade_last last chosen [] = last ∷ chosen
trade_last last chosen (t ∷ ts) =
    let small = smallest t ts in if ltb small.1 last.1 then small ∷ chosen else last ∷ chosen

unfoldable pub trade : ℕ → List Token → List Token → List Token
unfolding better trade_last balance
trade need avail [] = []
trade need avail (last ∷ chosen) =
    trade_last last chosen (better (need - balance chosen) (last ∷ chosen) avail)

unfoldable pub remove : Token → List Token → List Token
remove t [] = []
remove t (u ∷ us) = let rest = remove t us in if same_token u t then us else u ∷ rest

unfoldable pub remove_all : List Token → List Token → List Token
unfolding remove
remove_all [] toks = toks
remove_all (t ∷ chosen) toks = remove t (remove_all chosen toks)

-- `take_for`: the chosen tokens, the last pick first, and what is left.
unfoldable pub take_for : ℕ → List Token → Option (List Token × List Token)
unfolding gather trade remove_all balance largest_first
take_for need toks =
    let want = if need == 0 then 1 else need in
    let avail = largest_first toks in
    let chosen = trade want avail (gather want avail []) in
    if ltb (balance (gather want avail [])) want
    then none
    else some (chosen, remove_all chosen toks)

balance-insert_token :
    (t : Token) (us : List Token) → balance (insert_token t us) ≡ t.1 + balance us
unfolding balance insert_token
balance-insert_token t [] = refl
balance-insert_token t (u ∷ us) = ground (arith, balance-insert_token t us)

balance-largest_first : (toks : List Token) → balance (largest_first toks) ≡ balance toks
unfolding balance largest_first
balance-largest_first [] = refl
balance-largest_first (t ∷ toks) =
    omega (arith, balance-insert_token t (largest_first toks), balance-largest_first toks)

-- The gathered tokens cover the need, or they are all that there is.
gather-balance :
    (need : ℕ) (avail chosen : List Token)
    → (need ≤ balance (gather need avail chosen) → need ≤ balance chosen + balance avail)
      × (need ≤ balance chosen + balance avail → need ≤ balance (gather need avail chosen))
unfolding gather balance
gather-balance need [] chosen = (λ h. omega (arith, h), λ h. omega (arith, h))
gather-balance need (t ∷ avail) chosen = elim (Bool-cases (leb need (balance chosen))) [
  | inl enough ↦ rw enough (λ h. ground arith, λ h. ground arith)
  | inr short ↦
      let (f, g) = gather-balance need avail (t ∷ chosen) in
      rw short (λ h. omega (arith, f h), λ h. g (omega (arith, h)))
]

abbrev Closes : ℕ → Token → Type 0
Closes gap t = gap ≤ t.1

smallest-Closes :
    (gap : ℕ) (t : Token) (us : List Token)
    → Closes gap t
    → All (Closes gap) us
    → Closes gap (smallest t us)
unfolding smallest
smallest-Closes gap t [] h f = h
smallest-Closes gap t (u ∷ us) h (f, fs) = elim (Bool-cases (ltb u.1 t.1)) [
  | inl less ↦ rw (smallest, less) (smallest-Closes gap u us f fs)
  | inr more ↦ rw (smallest, more) (smallest-Closes gap t us h fs)
]

better-Closes : (gap : ℕ) (chosen avail : List Token) → All (Closes gap) (better gap chosen avail)
unfolding better
better-Closes gap chosen [] = tt
better-Closes gap chosen (t ∷ avail) =
    elim (Bool-cases (not (any (same_token t) chosen) && leb gap t.1)) [
      | inl fits ↦ rw fits (ground arith, better-Closes gap chosen avail)
      | inr other ↦ rw other (better-Closes gap chosen avail)
    ]

balance-trade_last :
    (need : ℕ) (last : Token) (chosen ts : List Token)
    → All (Closes (need - balance chosen)) ts
    → need ≤ balance (last ∷ chosen)
    → need ≤ balance (trade_last last chosen ts)
unfolding trade_last balance
balance-trade_last need last chosen [] c h = h
balance-trade_last need last chosen (t ∷ ts) (c, cs) h =
    let closes = smallest-Closes (need - balance chosen) t ts c cs in
    elim (Bool-cases (ltb (smallest t ts).1 last.1)) [
      | inl less ↦ rw less (omega (arith, closes))
      | inr more ↦ rw more h
    ]

balance-trade :
    (need : ℕ) (avail picks : List Token)
    → need ≤ balance picks
    → need ≤ balance (trade need avail picks)
unfolding trade
balance-trade need avail [] h = h
balance-trade need avail (last ∷ chosen) h =
    balance-trade_last need last chosen _
      (better-Closes (need - balance chosen) (last ∷ chosen) avail) h

abbrev want : ℕ → ℕ
want need = if need == 0 then 1 else need

want_eq : (need : ℕ) → want need ≡ max 1 need
want_eq need = ground arith

-- `take_for` returns nothing if the balance does not cover the need, one entry at least; else it
-- returns tokens that cover it.
pub take_for-covers :
    (need : ℕ) (toks : List Token)
    → ((take_for need toks ≡ none) × (balance toks < max 1 need))
      ⊎ ((chosen : List Token) × (left : List Token) × (take_for need toks ≡ some (chosen, left))
          × (max 1 need ≤ balance chosen)
          × (max 1 need ≤ balance toks))
unfolding take_for
take_for-covers need toks =
    let w = want need in
    let avail = largest_first toks in
    let picks = gather w avail [] in
    let (f, g) = gather-balance w avail [] in
    let zero_held : balance [] ≡ 0 = unfold balance in refl in
    elim (Bool-cases (ltb (balance picks) w)) [
      | inl short ↦
          inl
            (rw short refl, ground (arith, g, zero_held, balance-largest_first toks, want_eq need))
      | inr covered ↦
          let reached : w ≤ balance picks = ground arith in
          inr (
            trade w avail picks,
            remove_all (trade w avail picks) toks,
            rw covered refl,
            omega (arith, balance-trade w avail picks reached, want_eq need),
            omega (arith, f reached, zero_held, balance-largest_first toks, want_eq need),
          )
    ]
