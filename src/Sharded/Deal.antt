-- ===== src/Sharded/Deal.antt =====
-- The buckets that `ShardedOwner.insert_many` of blindrange/sharded.py fills.
use native.Mathlib.Nat.{mod-lt}
use blindrange.Prelude.{
  ℕ, zero, suc, ◌+◌, ◌%◌, ◌<◌, ◌≡◌, refl, ap, ◌∙◌, List, [], ◌∷◌, ◌++◌, map, length, sum, arith,
}
use blindrange.Sharded.{push_at, deal, empty_buckets, shard_for_insert}

-- A weight of the items, added up over all the buckets.
abbrev pub weight {ℓ} : {A : Type ℓ} → (A → ℕ) → List A → ℕ
weight f xs = sum (map f xs)

abbrev pub weights {ℓ} : {A : Type ℓ} → (A → ℕ) → List (List A) → ℕ
weights f bs = sum (map (weight f) bs)

module _ {ℓ} {A : Type ℓ} (f : A → ℕ) where
  weight-snoc : (b : List A) (x : A) → weight f (b ++ x ∷ []) ≡ weight f b + f x
  weight-snoc [] x = omega arith
  weight-snoc (y ∷ b) x = omega (arith, weight-snoc b x)

  weights-push_at :
      (k : ℕ) (x : A) (bs : List (List A))
      → k < length bs
      → weights f (push_at k x bs) ≡ weights f bs + f x
  unfolding push_at
  weights-push_at k x [] h = absurd (omega arith)
  weights-push_at zero x (b ∷ bs) h = omega (arith, weight-snoc b x)
  weights-push_at (suc k) x (b ∷ bs) h = omega (arith, weights-push_at k x bs (omega (arith, h)))

  pub length-push_at : (k : ℕ) (x : A) (bs : List (List A)) → length (push_at k x bs) ≡ length bs
  unfolding push_at
  length-push_at k x [] = refl
  length-push_at zero x (b ∷ bs) = refl
  length-push_at (suc k) x (b ∷ bs) = ap suc (length-push_at k x bs)

  pub weights-deal :
      (shards i : ℕ) (xs : List A) (bs : List (List A))
      → 0 < shards
      → length bs ≡ shards
      → weights f (deal shards i xs bs) ≡ weights f bs + weight f xs
  unfolding deal shard_for_insert
  weights-deal shards i [] bs h e = omega arith
  weights-deal shards i (x ∷ xs) bs h e = omega (
    arith,
    weights-deal shards (i + 1) xs (push_at (i % shards) x bs) h
        (length-push_at (i % shards) x bs ∙ e),
    weights-push_at (i % shards) x bs (omega (arith, mod-lt i h, e)),
  )

  pub weights-empty_buckets : (n : ℕ) → weights f (empty_buckets n) ≡ 0
  unfolding empty_buckets
  weights-empty_buckets zero = refl
  weights-empty_buckets (suc n) = omega (arith, weights-empty_buckets n)

pub length-empty_buckets {ℓ} : (A : Type ℓ) (n : ℕ) → length (empty_buckets {A = A} n) ≡ n
unfolding empty_buckets
length-empty_buckets A zero = refl
length-empty_buckets A (suc n) = ap suc (length-empty_buckets A n)
