-- ===== src/Client/Writes/Batched.antt =====
-- `batch` of blindrange/client.py against a description of what its block asks for.
use blindrange.Prelude.{
  ℕ, ◌≡◌, Bool, true, List, [], ◌∷◌, ◌++◌, Option, some, none, Result, ok, raise, Error,
  if◌then◌else◌, ◌⊎◌,
}
use blindrange.Mirror.{Items, Mirror}
use blindrange.Client.Writes.{
  Owner, Call, put_nx, delete_now, after, send_puts, send_dels, read_call, nx_call, move_call,
  put_call, delete_call, raise_call,
}

-- The counters that the block leaves, all that it writes and deletes at its end, the error that ends it,
-- and the owner after what is not deferred.
pub record Draft : Type 0 where
  pub chains : Items
  pub tombs : Items
  pub puts : Items
  pub dels : List ℕ
  pub error : Option Error
  pub now : Owner

-- No batch is on, and nothing is asked for yet.
abbrev pub opened : Owner → Draft
opened s = record {
  chains = s.chains;
  tombs = s.tombs;
  puts = [];
  dels = [];
  error = none;
  now = s;
}

-- The counters are those of the owner before, and no write of `_put` was sent; nothing was deleted but
-- by an owner that erases its keys from the world.
pub record Unsent (s now : Owner) : Type 0 where
  pub chains : now.chains ≡ s.chains
  pub tombs : now.tombs ≡ s.tombs
  pub acked : now.acked ≡ s.acked
  pub inflight : now.inflight ≡ s.inflight
  pub everywhere : now.delete_everywhere ≡ s.delete_everywhere
  pub deleted : (s.delete_everywhere ≡ true) ⊎ (now.deleted ≡ s.deleted)

module _ (succeeds retried : ℕ → Items → Bool) (deletes : ℕ → List ℕ → Bool)
    (completed : List (ℕ × Items) → List (ℕ × Items)) (route wide : ℕ → List ℕ) (addresses : List ℕ)
    (write_acks replicas : ℕ) where
  -- A deletion that is not deferred.
  abbrev erase : List ℕ → Owner → Owner
  erase = delete_now succeeds retried deletes completed route wide addresses write_acks replicas

  abbrev drafted_delete : List ℕ → Draft → Draft
  drafted_delete keys d =
      if d.now.delete_everywhere
      then record d { now = erase keys d.now }
      else record d { dels = d.dels ++ keys }

  -- Reads and the claims of `_put_nx` take effect at once, and so do the deletions of an owner that
  -- erases its keys from the world.
  unfoldable pub script : List Call → Draft → Draft
  unfolding put_nx delete_now
  script [] d = d
  script (read_call mirror ∷ calls) d =
      script calls (record d { now = record d.now { mirror = mirror } })
  script (nx_call answer key value ∷ calls) d =
      script calls (record d { now = (put_nx answer route key value d.now).0 })
  script (move_call chains tombs ∷ calls) d =
      script calls (record d { chains = chains; tombs = tombs })
  script (put_call pairs ∷ calls) d = script calls (record d { puts = d.puts ++ pairs })
  script (delete_call keys ∷ calls) d = script calls (drafted_delete keys d)
  script (raise_call e ∷ calls) d = record d { error = some e }

  abbrev outcome : Option Error → Result (Unit {0})
  outcome none = ok tt
  outcome (some e) = raise e

  -- The owner in a batch that has come to the draft.
  abbrev drafting : Draft → Owner
  drafting d = record d.now {
    chains = d.chains;
    tombs = d.tombs;
    batch_puts = some d.puts;
    batch_dels = some d.dels;
  }

  -- The owner after the block, out of the batch.
  abbrev pub closed : Items → Items → Draft → Owner
  closed chains tombs d = record d.now {
    chains = chains;
    tombs = tombs;
    batch_puts = none;
    batch_dels = none;
  }

  -- What a batch should do with its draft.
  abbrev pub settled : Owner → Draft → Option Error → Owner × Result (Unit {0})
  settled s d (some e) = (closed s.chains s.tombs d, raise e)
  settled s d none =
      after
        (send_puts succeeds retried deletes completed route wide addresses write_acks replicas
          (some d.puts) (closed d.chains d.tombs d))
        (send_dels succeeds retried deletes completed route wide addresses write_acks replicas
          (some d.dels))
