-- ===== src/Client/Writes/Durable.antt =====
-- What `_put` promises when it returns.
use blindrange.Prelude.{
  ℕ, ◌≡◌, refl, Bool, true, List, [], ◌++◌, ◌==◌, max, min, any, has_key, none, ok, raise,
  connection_error, Bool-cases, inl, inr, ◌⊎◌, arith,
}
use blindrange.Mirror.{Items}
use blindrange.Client.Writes.{
  Owner, group_entries, acks_of, no_acks, await, rescue, weak_keys, write_through, put_now, put_in,
  put,
}
use blindrange.Client.Writes.Acks.{
  Acked, Backed, await-from, await-has, no_acks-zero, no_acks-has, rescue-Backed, rescue-has,
  acked_of,
}

module _ (succeeds retried : ℕ → Items → Bool) (deletes : ℕ → List ℕ → Bool)
    (completed : List (ℕ × Items) → List (ℕ × Items)) (route wide : ℕ → List ℕ) (addresses : List ℕ)
    (write_acks replicas : ℕ) where
  -- Outside of a batch a _put either raises ConnectionError, with the mirror as it was; or it returns,
  -- the mirror has the pairs, and each key of the pairs stands in a request of this call that succeeded:
  -- one of the first requests, or one of the rescue, whose success may differ from that of the first.
  pub put_durable :
      (pairs : Items) (s : Owner)
      → s.batch_puts ≡ none
      → (let (s', r) =
            put succeeds retried deletes completed route wide addresses write_acks replicas pairs
              s in
          ((r ≡ raise connection_error) × (s'.mirror ≡ s.mirror))
          ⊎ ((r ≡ ok tt)
              × (s'.mirror ≡ write_through pairs s.mirror)
              × (acked : List (ℕ × Items)) × (rescued : List (ℕ × Items)) × (s'.acked
                  ≡ s.acked ++ acked ++ rescued)
              × ((k : ℕ)
                  → has_key pairs k ≡ true
                  → Acked succeeds k acked ⊎ Acked retried k rescued)))
  unfolding put put_in put_now
  put_durable pairs s idle =
      let want = max 1 (min write_acks replicas) in
      let jobs = completed (group_entries route pairs []) in
      let start = no_acks pairs [] in
      let (acks, acked, left) = await succeeds want jobs start in
      let final = rescue retried wide pairs (weak_keys acks) (acks, []) in
      let backed : Backed succeeds retried acked (acks, []) = (λ k p.
        elim (await-from succeeds want jobs start k p) [
          | inl before ↦
              absurd (omega (arith, before, no_acks-zero pairs [] k (unfold acks_of in refl)))
          | inr here ↦ inl here
        ]) in
      rw idle (elim (Bool-cases (any (λ item. item.1 == 0) final.0)) [
        | inl short ↦ rw short (inl (refl, refl))
        | inr all_acked ↦ rw all_acked (
            inr (
              refl,
              refl,
              acked,
              final.1,
              refl,
              λ k h.
                  rescue-Backed succeeds retried acked wide pairs (weak_keys acks) (acks, []) backed
                    k
                    (acked_of final.0 k
                      (rescue-has succeeds retried acked wide pairs (weak_keys acks) (acks, []) k
                        (await-has succeeds want jobs start k
                          (no_acks-has pairs [] k (ground (arith, h)))))
                      all_acked),
            ))
      ])
