-- ===== src/Sharded.antt =====
-- blindrange/sharded.py: several independent databases presented as one.
-- A shard is a state of a type `St`; what `Owner` does with it is in the interface `Owner`. `_fan`
-- runs the calls on different shards, so the threads of the source cannot meet; it raises when there
-- is no call, since a ThreadPoolExecutor has one worker at least.
pub mod Handles
pub mod Deal
pub mod Even
pub mod Refine
pub mod Streams
use blindrange.Prelude.{
  is_empty, any, ℕ, zero, suc, ◌+◌, ◌-◌, ◌*◌, ◌/◌, ◌%◌, Bool, true, false, not, ◌&&◌, ◌||◌, List,
  [], ◌∷◌, ◌++◌, map, ltb, leb, ◌==◌, if◌then◌else◌, length, take, drop, sum, get_elem?, Option,
  none, some, Result, ok, raise, Error, value_error, index_error, ◌>>=◌, show, read,
}
use blindrange.Client.Index.{Bar}

abbrev pub Text : Type 0
Text = List ℕ

-- `text.partition(chr(c))`, without the separator itself.
unfoldable pub partition : ℕ → Text → Text × Text
partition c [] = ([], [])
partition c (x ∷ xs) = let (a, b) = partition c xs in if x == c then ([], xs) else (x ∷ a, b)

abbrev pub has_rows {ℓ} : {A : Type ℓ} → List A → Bool
has_rows rows = not (is_empty rows)

abbrev starts_with : ℕ → Text → Bool
starts_with c [] = false
starts_with c (x ∷ xs) = x == c

unfoldable pub tag : ℕ → Text → Text
tag n rid = b's' ∷ show n ++ b':' ∷ rid

abbrev as_number : Option ℕ → Result ℕ
as_number none = raise value_error
as_number (some n) = ok n

unfoldable pub untag : Text → Result (ℕ × Text)
unfolding partition
untag rid =
    let (n, bare) = partition b':' rid in
    if is_empty bare || not (starts_with b's' n)
    then raise value_error
    else as_number (read (drop 1 n)) >>= λ k. ok (k, bare)

unfoldable pub shard_of : Text → Result ℕ
unfolding untag
shard_of rid = untag rid >>= λ p. ok p.0

unfoldable pub shard_for_insert : ℕ → ℕ → ℕ
shard_for_insert shards i = i % shards

unfoldable pub push_at {ℓ} : {A : Type ℓ} → ℕ → A → List (List A) → List (List A)
push_at k x [] = []
push_at zero x (b ∷ bs) = (b ++ x ∷ []) ∷ bs
push_at (suc k) x (b ∷ bs) = b ∷ push_at k x bs

-- The loop of `insert_many` that fills the buckets.
unfoldable pub deal {ℓ} : {A : Type ℓ} → ℕ → ℕ → List A → List (List A) → List (List A)
unfolding push_at shard_for_insert
deal shards i [] buckets = buckets
deal shards i (x ∷ xs) buckets =
    deal shards (i + 1) xs (push_at (shard_for_insert shards i) x buckets)

unfoldable pub empty_buckets {ℓ} : {A : Type ℓ} → ℕ → List (List A)
empty_buckets zero = []
empty_buckets (suc n) = [] ∷ empty_buckets n

-- The loop of `delete_many` that groups the handles; a group is in the place of its first handle.
unfoldable pub set_default : ℕ → Text → List (ℕ × List Text) → List (ℕ × List Text)
set_default n bare [] = (n, bare ∷ []) ∷ []
set_default n bare ((m, rids) ∷ groups) =
    let rest = set_default n bare groups in
    if m == n then (m, rids ++ bare ∷ []) ∷ groups else (m, rids) ∷ rest

unfoldable pub group_handles : List Text → List (ℕ × List Text) → Result (List (ℕ × List Text))
unfolding untag set_default
group_handles [] groups = ok groups
group_handles (rid ∷ rids) groups =
    untag rid >>= λ p. group_handles rids (set_default p.0 p.1 groups)

-- The results of the calls in shard order; the first error is raised.
unfoldable pub collect {ℓ} : {A : Type ℓ} → Result A → Result (List A) → Result (List A)
collect (ok a) (ok rest) = ok (a ∷ rest)
collect (ok a) (raise e) = raise e
collect (raise e) rest = raise e

-- What the sharded database asks of each shard.
pub record Owner (St Rec Query : Type 0) : Type 0 where
  pub insert_many : List Rec → St → Result ℕ × St
  pub delete_many : List Text → St → Result ℕ × St
  pub count : Query → St → Result ℕ
  pub approx_sum : Query → St → Result (ℕ × ℕ × ℕ)
  pub histogram : Query → St → Result (List Bar)

module _ {St : Type 0} where
  -- `_fan` on calls that change their shard, `zip`ped with the shards.
  unfoldable pub fan {ℓ} :
      {A : Type ℓ} → List (St → Result A × St) → List St → Result (List A) × List St
  unfolding collect
  fan [] shards = (ok [], shards)
  fan (c ∷ calls) [] = (ok [], [])
  fan (c ∷ calls) (s ∷ shards) =
      let (r, s') = c s in let (rest, shards') = fan calls shards in (collect r rest, s' ∷ shards')

  unfoldable pub fan_reads {ℓ} : {A : Type ℓ} → (St → Result A) → List St → Result (List A)
  unfolding collect
  fan_reads call [] = ok []
  fan_reads call (s ∷ shards) = collect (call s) (fan_reads call shards)

  -- `_fan` on the same reading call for each shard.
  unfoldable pub fan_read {ℓ} : {A : Type ℓ} → (St → Result A) → List St → Result (List A)
  unfolding fan_reads
  fan_read call [] = raise value_error
  fan_read call (s ∷ shards) = fan_reads call (s ∷ shards)

  -- What `insert_many` returns, after `_fan` of some calls or of none.
  unfoldable pub inserted : Bool → ℕ → Result (List ℕ) × List St → List St → Result ℕ × List St
  inserted true n (r, shards) before = (r >>= λ _. ok n, shards)
  inserted false n out before = (raise value_error, before)

  unfoldable pub set_at : ℕ → St → List St → List St
  set_at n s [] = []
  set_at zero s (t ∷ shards) = s ∷ shards
  set_at (suc n) s (t ∷ shards) = t ∷ set_at n s shards

module _ {St Rec Query : Type 0} (o : Owner St Rec Query) where
  -- `if rows`: a shard without rows is not called.
  unfoldable pub insert_call : List Rec → St → Result ℕ × St
  insert_call [] s = (ok 0, s)
  insert_call (r ∷ rows) s = o.insert_many (r ∷ rows) s

  unfoldable pub insert_many : List Rec → List St → Result ℕ × List St
  unfolding fan insert_call deal empty_buckets inserted
  insert_many records shards =
      let buckets = deal (length shards) 0 records (empty_buckets (length shards)) in
      inserted (any has_rows buckets) (length records) (fan (map insert_call buckets) shards) shards

  -- The calls of `delete_many`, each on the shard that its group names.
  unfoldable pub delete_groups : List (ℕ × List Text) → List St → Result (List ℕ) × List St
  unfolding collect set_at
  delete_groups [] shards = (ok [], shards)
  delete_groups ((n, rids) ∷ groups) shards = elim (get_elem? shards n) [
    | none ↦
        (let (rest, shards') = delete_groups groups shards in
          (collect (raise index_error) rest, shards'))
    | some s ↦
        (let (r, s') = o.delete_many rids s in
          let (rest, shards') = delete_groups groups (set_at n s' shards) in
          (collect r rest, shards'))
  ]

  unfoldable pub delete_grouped : ℕ → Result (List (ℕ × List Text)) → List St → Result ℕ × List St
  unfolding delete_groups
  delete_grouped n (raise e) shards = (raise e, shards)
  delete_grouped n (ok []) shards = (raise value_error, shards)
  delete_grouped n (ok (g ∷ groups)) shards =
      let (r, shards') = delete_groups (g ∷ groups) shards in (r >>= λ _. ok n, shards')

  unfoldable pub delete_many : List Text → List St → Result ℕ × List St
  unfolding group_handles delete_grouped
  delete_many rids shards = delete_grouped (length rids) (group_handles rids []) shards

  unfoldable pub count : Query → List St → Result ℕ
  unfolding fan_read
  count q shards = fan_read (o.count q) shards >>= λ ns. ok (sum ns)

  unfoldable pub approx_sum : Query → List St → Result (ℕ × ℕ × ℕ)
  unfolding fan_read
  approx_sum q shards = fan_read (o.approx_sum q) shards >>= λ parts.
      ok (sum (map (λ p. p.0) parts), sum (map (λ p. p.1) parts), sum (map (λ p. p.2) parts))
