-- ===== src/Sharded/Refine.antt =====
-- The sharded database of blindrange/sharded.py keeps what one database promises: a count goes up by
-- the records that are inserted and match.
pub mod Indexed
use blindrange.Prelude.{
  any, Bool, true, false, ℕ, zero, suc, ◌+◌, ◌<◌, ◌≡◌, refl, ap, ◌∙◌, List, [], ◌∷◌, map, length,
  sum, All, All-append, Result, ok, raise, bind-returns, arith,
}
use blindrange.Sharded.{
  Owner, collect, fan, fan_read, fan_reads, inserted, has_rows, push_at, deal, empty_buckets,
  shard_for_insert, insert_call, insert_many, count,
}
use blindrange.Sharded.Deal.{
  weight, weights, length-push_at, length-empty_buckets, weights-deal, weights-empty_buckets,
}

-- What is relied on of a shard: an insert that returns adds to the count of each query the records
-- that match it, for records that fit the schema.
pub record Counts {St Rec Query : Type 0} (o : Owner St Rec Query) (Fits : Rec → Type 0)
    (matching : Query → Rec → ℕ) : Type 0 where
  pub insert_law :
      (rows : List Rec) (s : St) (n : ℕ) (q : Query) (c : ℕ)
      → All Fits rows
      → (o.insert_many rows s).0 ≡ ok n
      → o.count q s ≡ ok c
      → o.count q (o.insert_many rows s).1 ≡ ok (c + weight (matching q) rows)

pub collect_ok {ℓ} :
    {A : Type ℓ} (r : Result A) (rest : Result (List A)) (xs : List A)
    → collect r rest ≡ ok xs
    → (a : A) × (ys : List A) × (r ≡ ok a) × (rest ≡ ok ys) × (xs ≡ a ∷ ys)
unfolding collect
collect_ok (ok a) (ok ys) xs h = (a, ys, refl, refl, cc)
collect_ok (ok a) (raise e) xs h = cc
collect_ok (raise e) rest xs h = cc

module _ {St : Type 0} where
  inserted-returns :
      (t : Bool) (n : ℕ) (out : Result (List ℕ) × List St) (before : List St) (k : ℕ)
      → (inserted t n out before).0 ≡ ok k
      → (ns : List ℕ) × (out.0 ≡ ok ns) × (k ≡ n) × ((inserted t n out before).1 ≡ out.1)
  unfolding inserted
  inserted-returns true n (ok ns, shards) before k h = (ns, refl, cc, refl)
  inserted-returns true n (raise e, shards) before k h = cc
  inserted-returns false n out before k h = cc

  fan_read-returns {ℓ} :
      {A : Type ℓ} (call : St → Result A) (shards : List St) (xs : List A)
      → fan_read call shards ≡ ok xs
      → (0 < length shards) × (fan_reads call shards ≡ ok xs)
  unfolding fan_read
  fan_read-returns call [] xs h = cc
  fan_read-returns call (s ∷ shards) xs h = (omega arith, h)

  fan_read-more {ℓ} :
      {A : Type ℓ} (call : St → Result A) (shards : List St) (xs : List A)
      → 0 < length shards
      → fan_reads call shards ≡ ok xs
      → fan_read call shards ≡ ok xs
  unfolding fan_read
  fan_read-more call [] xs pos h = absurd (omega (arith, pos))
  fan_read-more call (s ∷ shards) xs pos h = h

module _ {A : Type 0} (P : A → Type 0) where
  All-push_at :
      (k : ℕ) (x : A) (bs : List (List A)) → P x → All (All P) bs → All (All P) (push_at k x bs)
  unfolding push_at
  All-push_at k x [] h hs = tt
  All-push_at zero x (b ∷ bs) h (hb, hs) = (All-append P b (x ∷ []) hb (h, tt), hs)
  All-push_at (suc k) x (b ∷ bs) h (hb, hs) = (hb, All-push_at k x bs h hs)

  All-deal :
      (shards i : ℕ) (xs : List A) (bs : List (List A))
      → All P xs
      → All (All P) bs
      → All (All P) (deal shards i xs bs)
  unfolding deal
  All-deal shards i [] bs h hs = hs
  All-deal shards i (x ∷ xs) bs (hx, h) hs =
      All-deal shards (i + 1) xs (push_at (shard_for_insert shards i) x bs) h
        (All-push_at (shard_for_insert shards i) x bs hx hs)

  All-empty_buckets : (n : ℕ) → All (All P) (empty_buckets n)
  unfolding empty_buckets
  All-empty_buckets zero = tt
  All-empty_buckets (suc n) = (tt, All-empty_buckets n)

length-deal {ℓ} :
    {A : Type ℓ} (shards i : ℕ) (xs : List A) (bs : List (List A))
    → length (deal shards i xs bs) ≡ length bs
unfolding deal
length-deal shards i [] bs = refl
length-deal shards i (x ∷ xs) bs =
    length-deal shards (i + 1) xs (push_at (shard_for_insert shards i) x bs)
    ∙ length-push_at (λ y. 0) (shard_for_insert shards i) x bs

module _ {St Rec Query : Type 0} (o : Owner St Rec Query) (Fits : Rec → Type 0)
    (matching : Query → Rec → ℕ) (law : Counts o Fits matching) where
  count-insert_call :
      (rows : List Rec) (s : St) (n : ℕ) (q : Query) (c : ℕ)
      → All Fits rows
      → (insert_call o rows s).0 ≡ ok n
      → o.count q s ≡ ok c
      → o.count q (insert_call o rows s).1 ≡ ok (c + weight (matching q) rows)
  unfolding insert_call
  count-insert_call [] s n q c f e h = h ∙ ap ok (omega arith)
  count-insert_call (r ∷ rows) s n q c f e h = law.insert_law (r ∷ rows) s n q c f e h

  fan_counts :
      (q : Query) (bs : List (List Rec)) (shards : List St) (ns cs : List ℕ)
      → length bs ≡ length shards
      → All (All Fits) bs
      → (fan (map (insert_call o) bs) shards).0 ≡ ok ns
      → fan_reads (o.count q) shards ≡ ok cs
      → (cs' : List ℕ) × (fan_reads (o.count q) (fan (map (insert_call o) bs) shards).1 ≡ ok cs')
        × (sum cs' ≡ sum cs + weights (matching q) bs)
        × (length (fan (map (insert_call o) bs) shards).1 ≡ length shards)
  unfolding fan fan_reads
  fan_counts q [] [] ns cs len f e h = (cs, h, omega arith, refl)
  fan_counts q [] (s ∷ shards) ns cs len f e h = absurd (omega (arith, len))
  fan_counts q (b ∷ bs) [] ns cs len f e h = absurd (omega (arith, len))
  fan_counts q (b ∷ bs) (s ∷ shards) ns cs len (fb, f) e h =
      let (n, ns', en, ens, split) = collect_ok _ _ ns e in
      let (c, cs0, ec, ecs, split') = collect_ok _ _ cs h in
      let (cs', eq, total, same) = fan_counts q bs shards ns' cs0 (omega (arith, len)) f ens ecs in
      let here = count-insert_call b s n q c fb en ec in
      (
        (c + weight (matching q) b) ∷ cs',
        rw (here, eq) (unfold collect in refl),
        rw split' (omega (arith, total)),
        ap suc same,
      )

  -- One insert into the sharded database: it returns the number of records, and the count of each
  -- query goes up by the records that match, if the records fit the schema.
  pub sharded-Counts :
      (records : List Rec) (shards : List St) (n : ℕ) (q : Query) (c : ℕ)
      → All Fits records
      → (insert_many o records shards).0 ≡ ok n
      → count o q shards ≡ ok c
      → (n ≡ length records)
        × (count o q (insert_many o records shards).1 ≡ ok (c + weight (matching q) records))
  unfolding insert_many count
  sharded-Counts records shards n q c f e h =
      let k = length shards in
      let bs = deal k 0 records (empty_buckets k) in
      let (ns, ens, number, after) =
        inserted-returns (any has_rows bs) (length records) (fan (map (insert_call o) bs) shards)
          shards n e in
      let (cs, ecs, ec) = bind-returns (fan_read (o.count q) shards) _ h in
      let (pos, reads) = fan_read-returns (o.count q) shards cs ecs in
      let len : length bs ≡ k =
        length-deal k 0 records (empty_buckets k) ∙ length-empty_buckets Rec k in
      let fits = All-deal Fits k 0 records (empty_buckets k) f (All-empty_buckets Fits k) in
      let (cs', eq, total, same) = fan_counts q bs shards ns cs len fits ens reads in
      let dealt : weights (matching q) bs ≡ weight (matching q) records =
        weights-deal (matching q) k 0 records (empty_buckets k) pos (length-empty_buckets Rec k)
        ∙ rw (weights-empty_buckets (matching q) k) (omega arith) in
      let one : c ≡ sum cs = cc in
      let whole = fan_read-more (o.count q) _ cs' (omega (arith, pos, same)) eq in
      (number, rw (after, whole) (ap ok (omega (arith, total, dealt, one))))
