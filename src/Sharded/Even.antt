-- ===== src/Sharded/Even.antt =====
-- How even the buckets are that `ShardedOwner.insert_many` of blindrange/sharded.py fills.
use native.Mathlib.Nat.{
  mod-lt, div-add-mod, mul-add-mod_self_left, mod-eq_of_lt, div-eq_of_lt, mul-add-div, div_self,
  mod_self, zero-div, zero-mod,
}
use blindrange.Prelude.{
  ℕ, zero, suc, ◌+◌, ◌*◌, ◌/◌, ◌%◌, ◌≤◌, ◌<◌, ◌≡◌, refl, sym, ap, ◌∙◌, List, [], ◌∷◌, ltb, ◌==◌,
  if◌then◌else◌, length, length-append, get_elem?, some, arith, Bool-cases, inl, inr, subst,
}
use blindrange.Sharded.{push_at, deal, empty_buckets, shard_for_insert}
use blindrange.Sharded.Deal.{length-push_at, length-empty_buckets}

-- How many items are in the bucket `k` when `q * shards + r` have been dealt.
abbrev level : ℕ → ℕ → ℕ → ℕ
level q r k = if ltb k r then q + 1 else q

-- One item more moves the level from `i` to `i + 1`.
next_level :
    (n i j : ℕ)
    → 0 < n
    → j < n
    → (if j == i % n then level (i / n) (i % n) j + 1 else level (i / n) (i % n) j)
      ≡ level ((i + 1) / n) ((i + 1) % n) j
next_level n i j pos lt = elim (Bool-cases (ltb (i % n + 1) n)) [
  | inl inside ↦
      let e : i + 1 ≡ n * (i / n) + (i % n + 1) = omega (arith, div-add-mod i n) in
      let small : i % n + 1 < n = ground arith in
      let d : (i + 1) / n ≡ i / n =
        ap (λ (t : ℕ). t / n) e
        ∙ mul-add-div pos (i / n) (i % n + 1)
        ∙ rw (div-eq_of_lt small) (omega arith) in
      let m : (i + 1) % n ≡ i % n + 1 =
        ap (λ (t : ℕ). t % n) e
        ∙ mul-add-mod_self_left n (i / n) (i % n + 1)
        ∙ mod-eq_of_lt small in
      rw (d, m) (ground arith)
  | inr last ↦
      let full : i % n + 1 ≡ n = ground (arith, mod-lt i pos) in
      let e : i + 1 ≡ n * (i / n) + n = omega (arith, div-add-mod i n, full) in
      let d : (i + 1) / n ≡ i / n + 1 =
        ap (λ (t : ℕ). t / n) e ∙ mul-add-div pos (i / n) n ∙ rw (div_self pos) refl in
      let m : (i + 1) % n ≡ 0 =
        ap (λ (t : ℕ). t % n) e ∙ mul-add-mod_self_left n (i / n) n ∙ mod_self n in
      rw (d, m) (ground (arith, full))
]

module _ {ℓ} {A : Type ℓ} where
  -- The buckets from number `k` on have as many items as `n` of them should.
  abbrev Levels : (ℕ → ℕ) → ℕ → List (List A) → Type 0
  Levels l k [] = Unit
  Levels l k (b ∷ bs) = (length b ≡ l k) × Levels l (suc k) bs

  Levels-change :
      (l m : ℕ → ℕ) (k : ℕ) (bs : List (List A))
      → ((j : ℕ) → k ≤ j → j < k + length bs → l j ≡ m j)
      → Levels l k bs
      → Levels m k bs
  Levels-change l m k [] e h = tt
  Levels-change l m k (b ∷ bs) e (h, hs) = (
    h ∙ e k (omega arith) (omega arith),
    Levels-change l m (suc k) bs (λ j low high. e j (omega (arith, low)) (omega (arith, high))) hs,
  )

  -- One item more in the bucket `k + j`.
  Levels-push_at :
      (l : ℕ → ℕ) (k j : ℕ) (x : A) (bs : List (List A))
      → Levels l k bs
      → Levels (λ i. if i == k + j then l i + 1 else l i) k (push_at j x bs)
  unfolding push_at
  Levels-push_at l k j x [] h = tt
  Levels-push_at l k zero x (b ∷ bs) (h, hs) = (
    ground (arith, length-append b (x ∷ [])),
    Levels-change l _ (suc k) bs (λ j low high. ground arith) hs,
  )
  Levels-push_at l k (suc j) x (b ∷ bs) (h, hs) = (
    ground arith,
    Levels-change _ _ (suc k) (push_at j x bs) (λ i low high. ground arith)
        (Levels-push_at l (suc k) j x bs hs),
  )

  Levels-deal :
      (n i : ℕ) (xs : List A) (bs : List (List A))
      → 0 < n
      → length bs ≡ n
      → Levels (level (i / n) (i % n)) 0 bs
      → Levels (level ((i + length xs) / n) ((i + length xs) % n)) 0 (deal n i xs bs)
  unfolding deal shard_for_insert
  Levels-deal n i [] bs pos e h = let z : i + 0 ≡ i = omega arith in rw z h
  Levels-deal n i (x ∷ xs) bs pos e h =
      let z : i + suc (length xs) ≡ i + 1 + length xs = omega arith in
      let len : length (push_at (i % n) x bs) ≡ n = length-push_at (λ y. 0) (i % n) x bs ∙ e in
      rw z (
        Levels-deal n (i + 1) xs (push_at (i % n) x bs) pos len (
          Levels-change _ _ 0 (push_at (i % n) x bs)
            (λ j low high. ground (arith, next_level n i j pos (omega (arith, high, len))))
            (Levels-push_at (level (i / n) (i % n)) 0 (i % n) x bs h)))

  Levels-at :
      (l : ℕ → ℕ) (k j : ℕ) (bs : List (List A)) (b : List A)
      → Levels l k bs
      → get_elem? bs j ≡ some b
      → length b ≡ l (k + j)
  Levels-at l k j [] b h e = cc
  Levels-at l k zero (c ∷ bs) b (h, hs) e =
      let same : c ≡ b = cc in
      let z : k + 0 ≡ k = omega arith in rw z (subst (λ t. length t ≡ l k) same h)
  Levels-at l k (suc j) (c ∷ bs) b (h, hs) e =
      let z : k + suc j ≡ suc k + j = omega arith in rw z (Levels-at l (suc k) j bs b hs e)

Levels-empty_buckets {ℓ} :
    (A : Type ℓ) (l : ℕ → ℕ) (k n : ℕ) → ((j : ℕ) → l j ≡ 0) → Levels l k (empty_buckets {A = A} n)
unfolding empty_buckets
Levels-empty_buckets A l k zero e = tt
Levels-empty_buckets A l k (suc n) e = (sym (e k), Levels-empty_buckets A l (suc k) n e)

-- The buckets are as even as they can be: each has the quotient of the number of records by the
-- number of shards, and the first ones, as many as the remainder says, have one more.
pub deal_even {ℓ} :
    {A : Type ℓ} (shards : ℕ) (records : List A) (k : ℕ) (bucket : List A)
    → 0 < shards
    → get_elem? (deal shards 0 records (empty_buckets shards)) k ≡ some bucket
    → length bucket ≡ length records / shards + (if ltb k (length records % shards) then 1 else 0)
deal_even {A = A} shards records k bucket pos e =
    let start =
      Levels-empty_buckets A (level (0 / shards) (0 % shards)) 0 shards
        (λ j. rw (zero-div, zero-mod) (ground arith)) in
    let done =
      Levels-deal shards 0 records (empty_buckets shards) pos (length-empty_buckets A shards)
        start in
    let z : 0 + length records ≡ length records = omega arith in
    let y : 0 + k ≡ k = omega arith in
    Levels-at _ 0 k (deal shards 0 records (empty_buckets shards)) bucket done e
    ∙ rw (z, y) (ground arith)
