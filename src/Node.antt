-- ===== src/Node.antt =====
-- blindrange/node.py: the store of a node and the gate that decides whether a write is paid for.
-- Keys, values, token references and epochs are numbers, since they are only compared. A row of a
-- table is a pair; the locks of the source make each operation one step.
pub mod Spending
pub mod Paid
pub mod Once
pub mod Rows
use blindrange.Prelude.{
  ℕ, zero, suc, ◌+◌, Bool, true, false, not, List, [], ◌∷◌, ◌++◌, map, ltb, ◌==◌, if◌then◌else◌,
  length, contains, Option, none, some,
}

pub record Store : Type 0 where
  pub kv : List (ℕ × ℕ)
  pub spent : List (ℕ × ℕ)
  pub writes : ℕ
  pub deletes : ℕ
  pub read_batches : ℕ

-- `SELECT v FROM kv WHERE k = ?`
unfoldable pub lookup : List (ℕ × ℕ) → ℕ → Option ℕ
lookup [] k = none
lookup ((a, v) ∷ rows) k = if a == k then some v else lookup rows k

-- `INSERT OR REPLACE`
unfoldable pub replace : List (ℕ × ℕ) → ℕ → ℕ → List (ℕ × ℕ)
replace [] k v = (k, v) ∷ []
replace ((a, w) ∷ rows) k v =
    let rest = replace rows k v in if a == k then (k, v) ∷ rows else (a, w) ∷ rest

-- `DELETE … WHERE k = ?`: the rows that are left, and `rowcount`.
unfoldable pub delete_row : List (ℕ × ℕ) → ℕ → List (ℕ × ℕ) × ℕ
delete_row [] k = ([], 0)
delete_row ((a, w) ∷ rows) k =
    let (rest, n) = delete_row rows k in if a == k then (rest, n + 1) else ((a, w) ∷ rest, n)

unfoldable pub replace_all : List (ℕ × ℕ) → List (ℕ × ℕ) → List (ℕ × ℕ)
unfolding replace
replace_all rows [] = rows
replace_all rows ((k, v) ∷ entries) = replace_all (replace rows k v) entries

unfoldable pub put : List (ℕ × ℕ) → Store → Store
unfolding replace_all
put entries s = record s { kv = replace_all s.kv entries; writes = s.writes + length entries }

-- The loop of `put_nx`: the rows, and the keys that were there.
unfoldable pub insert_new : List (ℕ × ℕ) → List (ℕ × ℕ) → List (ℕ × ℕ) × List ℕ
unfolding lookup
insert_new rows [] = (rows, [])
insert_new rows ((k, v) ∷ entries) = elim (lookup rows k) [
  | some w ↦ (let (out, existed) = insert_new rows entries in (out, k ∷ existed))
  | none ↦ insert_new (rows ++ (k, v) ∷ []) entries
]

unfoldable pub put_nx : List (ℕ × ℕ) → Store → Store × List ℕ
unfolding insert_new
put_nx entries s =
    let (rows, existed) = insert_new s.kv entries in (record s { kv = rows }, existed)

unfoldable pub delete_rows : List (ℕ × ℕ) → List ℕ → List (ℕ × ℕ) × ℕ
unfolding delete_row
delete_rows rows [] = (rows, 0)
delete_rows rows (k ∷ keys) =
    let (out, n) = delete_row rows k in let (left, m) = delete_rows out keys in (left, n + m)

unfoldable pub delete : List ℕ → Store → Store × ℕ
unfolding delete_rows
delete keys s =
    let (rows, n) = delete_rows s.kv keys in (record s { kv = rows; deletes = s.deletes + n }, n)

-- `if row: out[k] = row[0]`
unfoldable pub set_found : Option ℕ → ℕ → List (ℕ × ℕ) → List (ℕ × ℕ)
unfolding replace
set_found none k out = out
set_found (some v) k out = replace out k v

unfoldable pub fetch : List (ℕ × ℕ) → List ℕ → List (ℕ × ℕ) → List (ℕ × ℕ)
unfolding lookup set_found
fetch rows [] out = out
fetch rows (k ∷ keys) out = fetch rows keys (set_found (lookup rows k) k out)

unfoldable pub mget : List ℕ → Store → Store × List (ℕ × ℕ)
unfolding fetch
mget keys s = (record s { read_batches = s.read_batches + 1 }, fetch s.kv keys [])

-- `spend`: the primary key of the table is the reference.
unfoldable pub spend : ℕ → ℕ → Store → Bool × Store
spend ref epoch s =
    if contains ref (map (λ row. row.0) s.spent)
    then (false, s)
    else (true, record s { spent = s.spent ++ (ref, epoch) ∷ [] })

unfoldable pub keep_epochs : List ℕ → List (ℕ × ℕ) → List (ℕ × ℕ)
keep_epochs keep [] = []
keep_epochs keep ((ref, epoch) ∷ rows) =
    let rest = keep_epochs keep rows in if contains epoch keep then (ref, epoch) ∷ rest else rest

unfoldable pub forget_epochs : List ℕ → Store → Store
unfolding keep_epochs
forget_epochs keep s = record s { spent = keep_epochs keep s.spent }

pub data Reason : Type 0 where
  repair no_keys missing too_many malformed invalid short duplicate already_spent paid : Reason

-- `keyed` is whether there is key material.
pub record Gate : Type 0 where
  pub keyed : Bool
  pub redeemed : ℕ

-- The set of the references.
unfoldable pub refs_set : List ℕ → List ℕ
refs_set [] = []
refs_set (x ∷ xs) = let rest = refs_set xs in if contains x rest then rest else x ∷ rest

pub data Tally : Type 0 where
  counted : ℕ → Tally
  refused : Reason → Tally

-- What `token.verify_token`, `token.token_ref` and `token.parse_key_id` say of a token.
module _ {Tok : Type 0} (worth : Tok → Option ℕ) (ref : Tok → ℕ) (epoch : Tok → ℕ) where
  -- The keys of the request that the gate reads: `repair` is whether it has a valid poll token,
  -- an entry of `tokens` is `none` if it is no dict.
  pub record Request : Type 0 where
    pub is_repair : Bool
    pub single : Option Tok
    pub tokens : Option (List (Option Tok))

  -- The loop that verifies; it stops at the first token that is refused.
  unfoldable pub tally : ℕ → List (Option Tok) → Tally
  tally value [] = counted value
  tally value (none ∷ toks) = refused malformed
  tally value (some t ∷ toks) = elim (worth t) [
    | none ↦ refused invalid
    | some denom ↦ tally (value + denom) toks
  ]

  unfoldable pub dicts : List (Option Tok) → List Tok
  dicts [] = []
  dicts (none ∷ toks) = dicts toks
  dicts (some t ∷ toks) = t ∷ dicts toks

  -- The loop that spends.
  unfoldable pub spend_all : List Tok → Store → Bool × Store
  unfolding spend
  spend_all [] s = (true, s)
  spend_all (t ∷ toks) s =
      let (landed, s') = spend (ref t) (epoch t) s in
      let rest = spend_all toks s' in if landed then rest else (false, s')

  -- `toks`: the single-token form goes first.
  unfoldable pub presented : Request → List (Option Tok)
  presented q = elim q.single [
    | none ↦ elim q.tokens [ none ↦ [] | some ts ↦ ts ]
    | some t ↦ some t ∷ []
  ]

  -- The last part of `check`, when the tokens have been verified or one of them refused.
  unfoldable pub judge : Tally → List (Option Tok) → ℕ → Gate → Store → Reason × Gate × Store
  unfolding dicts spend_all refs_set
  judge (refused why) toks n_entries g s = (why, g, s)
  judge (counted value) toks n_entries g s =
      let out = spend_all (dicts toks) s in
      if ltb value n_entries
      then (short, g, s)
      else if not (length (refs_set (map ref (dicts toks))) == length toks)
      then (duplicate, g, s)
      else if not out.0
      then (already_spent, g, out.1)
      else (paid, record g { redeemed = g.redeemed + length toks }, out.1)

  -- `check`: the reason says also whether the write goes on.
  unfoldable pub check : Request → ℕ → Gate → Store → Reason × Gate × Store
  unfolding judge tally
  check q n_entries g s =
      let toks = presented q in
      if q.is_repair
      then (repair, g, s)
      else if not g.keyed
      then (no_keys, g, s)
      else if length toks == 0
      then (missing, g, s)
      else if ltb 512 (length toks)
      then (too_many, g, s)
      else judge (tally 0 toks) toks n_entries g s

-- `ok` of the answer.
unfoldable pub admits : Reason → Bool
admits repair = true
admits no_keys = true
admits paid = true
admits _ = false
