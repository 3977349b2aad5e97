-- ===== src/Client/Writes/Acks.antt =====
-- The acknowledgements that `_put` counts: each is that of a request that succeeded.
use blindrange.Prelude.{
  ℕ, ◌+◌, ◌<◌, ◌≡◌, refl, Bool, true, false, ◌&&◌, ◌||◌, List, [], ◌∷◌, ◌++◌, leb, ◌==◌,
  if◌then◌else◌, any, all, has_key, has_key-assign, assign, Option, some, none, Bool-cases, inl,
  inr, ◌⊎◌, arith,
}
use blindrange.Mirror.{Items}
use blindrange.Client.Writes.{
  acks_of, no_acks, add_acks, await, offer, rescue_one, rescue, value_of,
}

acks_of-assign :
    (acks : Items) (k n j : ℕ)
    → acks_of (assign acks k n) j ≡ (if k == j then n else acks_of acks j)
unfolding acks_of
acks_of-assign [] k n j = refl
acks_of-assign ((i, m) ∷ acks) k n j = ground (arith, acks_of-assign acks k n j)

pub no_acks-zero :
    (pairs acks : Items) (k : ℕ) → acks_of acks k ≡ 0 → acks_of (no_acks pairs acks) k ≡ 0
unfolding no_acks
no_acks-zero [] acks k h = h
no_acks-zero ((j, v) ∷ pairs) acks k h =
    no_acks-zero pairs (assign acks j 0) k (ground (arith, acks_of-assign acks j 0 k, h))

pub no_acks-has :
    (pairs acks : Items) (k : ℕ)
    → (has_key pairs k || has_key acks k) ≡ true
    → has_key (no_acks pairs acks) k ≡ true
unfolding no_acks
no_acks-has [] acks k h = ground (arith, h)
no_acks-has ((j, v) ∷ pairs) acks k h =
    no_acks-has pairs (assign acks j 0) k (ground (arith, has_key-assign acks j k 0, h))

add_acks-has :
    (entries acks : Items) (k : ℕ)
    → has_key acks k ≡ true
    → has_key (add_acks entries acks) k ≡ true
unfolding add_acks
add_acks-has [] acks k h = h
add_acks-has ((j, v) ∷ entries) acks k h =
    add_acks-has entries (assign acks j (acks_of acks j + 1)) k
      (ground (arith, has_key-assign acks j k (acks_of acks j + 1), h))

-- A new acknowledgement of a key is that of an entry with the key.
add_acks-from :
    (entries acks : Items) (k : ℕ)
    → 0 < acks_of (add_acks entries acks) k
    → (0 < acks_of acks k) ⊎ (has_key entries k ≡ true)
unfolding add_acks
add_acks-from [] acks k h = inl h
add_acks-from ((j, v) ∷ entries) acks k h =
    elim (add_acks-from entries (assign acks j (acks_of acks j + 1)) k h) [
      | inr later ↦ inr (ground (arith, later))
      | inl before ↦ elim (Bool-cases (j == k)) [
        | inl same ↦ inr (ground (arith, same))
        | inr other ↦
            let e = acks_of-assign acks j (acks_of acks j + 1) k in
            inl (ground (arith, e, other, before))
      ]
    ]

module _ (succeeds : ℕ → Items → Bool) where
  -- One of the requests succeeded and has an entry with the key.
  abbrev pub Acked : ℕ → List (ℕ × Items) → Type 0
  Acked k acked = any (λ job. succeeds job.0 job.1 && has_key job.1 k) acked ≡ true

  pub await-has :
      (want : ℕ) (jobs : List (ℕ × Items)) (acks : Items) (k : ℕ)
      → has_key acks k ≡ true
      → has_key (await succeeds want jobs acks).0 k ≡ true
  unfolding await
  await-has want [] acks k h = h
  await-has want ((a, entries) ∷ jobs) acks k h = elim (Bool-cases (succeeds a entries)) [
    | inr failed ↦ rw failed (await-has want jobs acks k h)
    | inl done ↦ elim (Bool-cases (all (λ item. leb want item.1) (add_acks entries acks))) [
      | inl quorum ↦ rw (done, quorum) (add_acks-has entries acks k h)
      | inr more ↦
          rw (done, more)
            (await-has want jobs (add_acks entries acks) k (add_acks-has entries acks k h))
    ]
  ]

  pub await-from :
      (want : ℕ) (jobs : List (ℕ × Items)) (acks : Items) (k : ℕ)
      → 0 < acks_of (await succeeds want jobs acks).0 k
      → (0 < acks_of acks k) ⊎ Acked k (await succeeds want jobs acks).1
  unfolding await
  await-from want [] acks k h = inl h
  await-from want ((a, entries) ∷ jobs) acks k h = elim (Bool-cases (succeeds a entries)) [
    | inr failed ↦ rw failed (await-from want jobs acks k (rw failed at h))
    | inl done ↦ elim (Bool-cases (all (λ item. leb want item.1) (add_acks entries acks))) [
      | inl quorum ↦
          rw (done, quorum)
            (elim (add_acks-from entries acks k (rw (done, quorum) at h)) [
              | inl before ↦ inl before
              | inr here ↦ inr (ground (arith, done, here))
            ])
      | inr more ↦
          rw (done, more)
            (elim (await-from want jobs (add_acks entries acks) k (rw (done, more) at h)) [
              | inr later ↦ inr (ground (arith, later))
              | inl first ↦ elim (add_acks-from entries acks k first) [
                | inl before ↦ inl before
                | inr here ↦ inr (ground (arith, done, here))
              ]
            ])
    ]
  ]

  any-append :
      (k : ℕ) (xs ys : List (ℕ × Items))
      → any (λ job. succeeds job.0 job.1 && has_key job.1 k) (xs ++ ys) ≡ (
          any (λ job. succeeds job.0 job.1 && has_key job.1 k) xs
          || any (λ job. succeeds job.0 job.1 && has_key job.1 k) ys)
  any-append k [] ys = refl
  any-append k (x ∷ xs) ys = ground (arith, any-append k xs ys)

module _ (succeeds retried : ℕ → Items → Bool) (first : List (ℕ × Items)) where
  -- Each key that has an acknowledgement stands in a request that succeeded, at first or in the rescue.
  abbrev pub Backed : Items × List (ℕ × Items) → Type 0
  Backed (acks, rescued) =
      (k : ℕ) → 0 < acks_of acks k → Acked succeeds k first ⊎ Acked retried k rescued

  offer-succeeds :
      (entry : Items) (addrs : List ℕ) (a : ℕ)
      → offer retried entry addrs ≡ some a
      → retried a entry ≡ true
  unfolding offer
  offer-succeeds entry [] a h = cc
  offer-succeeds entry (b ∷ addrs) a h = elim (Bool-cases (retried b entry)) [
    | inl done ↦ let e : some b ≡ some a = rw done at h in let e' : b ≡ a = cc in rw (← e') done
    | inr failed ↦ offer-succeeds entry addrs a (rw failed at h)
  ]

  rescue_one-Backed :
      (o : Option ℕ) (k v : ℕ) (s : Items × List (ℕ × Items))
      → ((a : ℕ) → o ≡ some a → retried a ((k, v) ∷ []) ≡ true)
      → Backed s
      → Backed (rescue_one o ((k, v) ∷ []) k s)
  unfolding rescue_one
  rescue_one-Backed none k v s h b = b
  rescue_one-Backed (some a) k v (acks, acked) h b = λ j p.
      let done = h a refl in
      let joined = any-append retried j acked ((a, (k, v) ∷ []) ∷ []) in
      elim (Bool-cases (k == j)) [
        | inl same ↦ inr (ground (arith, joined, done, same))
        | inr other ↦
            let e = acks_of-assign acks k (acks_of acks k + 1) j in
            elim (b j (ground (arith, e, other, p))) [
              | inl early ↦ inl early
              | inr before ↦ inr (ground (arith, joined, before))
            ]
      ]

  rescue_one-has :
      (o : Option ℕ) (entry : Items) (k : ℕ) (s : Items × List (ℕ × Items)) (j : ℕ)
      → has_key s.0 j ≡ true
      → has_key (rescue_one o entry k s).0 j ≡ true
  unfolding rescue_one
  rescue_one-has none entry k s j h = h
  rescue_one-has (some a) entry k (acks, acked) j h =
      ground (arith, has_key-assign acks k j (acks_of acks k + 1), h)

  module _ (wide : ℕ → List ℕ) (pairs : Items) where
    pub rescue-Backed :
        (weak : List ℕ) (s : Items × List (ℕ × Items))
        → Backed s
        → Backed (rescue retried wide pairs weak s)
    unfolding rescue
    rescue-Backed [] s b = b
    rescue-Backed (k ∷ weak) s b =
        let v = value_of pairs k 0 in
        let o = offer retried ((k, v) ∷ []) (wide k) in
        rescue-Backed weak (rescue_one o ((k, v) ∷ []) k s)
          (rescue_one-Backed o k v s (λ a e. offer-succeeds ((k, v) ∷ []) (wide k) a e) b)

    pub rescue-has :
        (weak : List ℕ) (s : Items × List (ℕ × Items)) (j : ℕ)
        → has_key s.0 j ≡ true
        → has_key (rescue retried wide pairs weak s).0 j ≡ true
    unfolding rescue
    rescue-has [] s j h = h
    rescue-has (k ∷ weak) s j h =
        let entry = (k, value_of pairs k 0) ∷ [] in
        let o = offer retried entry (wide k) in
        rescue-has weak (rescue_one o entry k s) j (rescue_one-has o entry k s j h)

pub acked_of :
    (acks : Items) (k : ℕ)
    → has_key acks k ≡ true
    → any (λ item. item.1 == 0) acks ≡ false
    → 0 < acks_of acks k
unfolding acks_of
acked_of [] k h z = cc
acked_of ((j, n) ∷ acks) k h z = ground (arith, h, z, acked_of acks k)
