-- ===== src/Tests/Node.antt =====
-- Runs of the functions of blindrange/node.py, and instances of the theorems about them.
use blindrange.Prelude.{
  ℕ, ◌≡◌, refl, true, false, map, [], ◌∷◌, Option, none, some, ltb, ◌≢◌, if◌then◌else◌, contains,
}
use blindrange.Node.{
  Store, Gate, Request, already_spent, paid, dicts, check, presented, spend, put_nx, lookup, put,
  delete, mget,
}
use blindrange.Node.Paid.{Verdict, check-Verdict}
use blindrange.Node.Once.{paid_once}
use blindrange.Node.Rows.{last_write, mget-put-delete}

-- A token is its reference; those below 90 are worth 100 entries, the others are forged.
abbrev worth : ℕ → Option ℕ
worth t = if ltb t 90 then some 100 else none

abbrev store : Store
store = record {
  kv = (1, 10) ∷ (2, 20) ∷ [];
  spent = (7, 1) ∷ [];
  writes = 2;
  deletes = 0;
  read_batches = 0;
}

abbrev gate : Gate
gate = record { keyed = true; redeemed = 1 }

abbrev request : Request worth (λ t. t) (λ t. 1)
request = record { is_repair = false; single = none; tokens = some (some 3 ∷ (some 7 ∷ [])) }

put_nx_runs :
    put_nx ((2, 99) ∷ (3, 30) ∷ []) store
    ≡ (record store { kv = (1, 10) ∷ (2, 20) ∷ (3, 30) ∷ [] }, 2 ∷ [])
unfolding put_nx lookup
put_nx_runs = refl

-- Token 7 was spent before; token 3, which stands before it, is spent by the refusal.
check_runs :
    check worth (λ t. t) (λ t. 1) request 150 gate store
    ≡ (already_spent, gate, record store { spent = (7, 1) ∷ (3, 1) ∷ [] })
unfolding check presented spend
check_runs = refl

check-Verdict_example :
    Verdict worth
      (λ t. t)
      (λ t. 1)
      request
      150
      gate
      store
      (check worth (λ t. t) (λ t. 1) request 150 gate store)
check-Verdict_example = check-Verdict worth (λ t. t) (λ t. 1) request 150 gate store

mget-put-delete_example :
    lookup (mget (1 ∷ 4 ∷ []) (delete (2 ∷ []) (put ((4, 40) ∷ (1, 11) ∷ []) store)).0).1 4 ≡ (
      if contains 4 (1 ∷ 4 ∷ [])
      then if contains 4 (2 ∷ [])
        then none
        else last_write ((4, 40) ∷ (1, 11) ∷ []) 4 (lookup store.kv 4)
      else none)
mget-put-delete_example = mget-put-delete ((4, 40) ∷ (1, 11) ∷ []) (2 ∷ []) (1 ∷ 4 ∷ []) store 4

abbrev two_tokens : Request worth (λ t. t) (λ t. 1)
two_tokens = record { is_repair = false; single = none; tokens = some (some 3 ∷ (some 4 ∷ [])) }

abbrev one_token : Request worth (λ t. t) (λ t. 1)
one_token = record { is_repair = false; single = some 4; tokens = none }

paid_run : (check worth (λ t. t) (λ t. 1) two_tokens 150 gate store).0 ≡ paid
unfolding check presented spend
paid_run = refl

in_two :
    contains 4
      (map (λ t. t) (dicts worth (λ t. t) (λ t. 1) (presented worth (λ t. t) (λ t. 1) two_tokens)))
    ≡ true
unfolding presented dicts
in_two = refl

in_one :
    contains 4
      (map (λ t. t) (dicts worth (λ t. t) (λ t. 1) (presented worth (λ t. t) (λ t. 1) one_token)))
    ≡ true
unfolding presented dicts
in_one = refl

paid_once_example :
    (check worth
      (λ t. t)
      (λ t. 1)
      one_token
      1
      gate
      (check worth (λ t. t) (λ t. 1) two_tokens 150 gate store).2).0
    ≢ paid
paid_once_example =
    paid_once worth (λ t. t) (λ t. 1) two_tokens one_token 150 1 gate gate store 4 paid_run in_two
      in_one
