-- ===== src/Tests/Writes.antt =====
-- Runs of `_put` and `batch` of blindrange/client.py, and instances of the theorems about them.
use blindrange.Prelude.{
  ℕ, ◌≡◌, refl, Bool, true, false, not, ◌⊎◌, List, [], ◌∷◌, ◌++◌, if◌then◌else◌, ◌==◌, has_key,
  none, some, ok, raise, connection_error, value_error,
}
use blindrange.Mirror.{Items, Mirror}
use blindrange.Client.Writes.{
  Owner, put, put_nx, batch, write_through, move_call, nx_call, put_call, delete_call, Call,
  raise_call,
}
use blindrange.Client.Writes.Acks.{Acked}
use blindrange.Client.Writes.Durable.{put_durable}

abbrev owner : Owner
owner = record {
  chains = (1, 4) ∷ [];
  tombs = [];
  mirror = none;
  batch_puts = none;
  batch_dels = none;
  delete_everywhere = false;
  acked = [];
  inflight = [];
  deleted = [];
}

-- Requests to the address 30 fail.
abbrev succeeds : ℕ → Items → Bool
succeeds a entries = not (a == 30)

-- The node 30 is back when the rescue starts.
abbrev retried : ℕ → Items → Bool
retried a entries = true

-- The key 7 has the replica 30 only, and 10 on the wider replicas_of; other keys have 10, 20 and 30.
abbrev replicas_of : ℕ → List ℕ
replicas_of k = if k == 7 then 30 ∷ [] else 10 ∷ 20 ∷ 30 ∷ []

abbrev wider_of : ℕ → List ℕ
wider_of k = if k == 7 then 30 ∷ 10 ∷ [] else 10 ∷ 20 ∷ 30 ∷ 40 ∷ []

put_rescues :
    put succeeds retried
      (λ a ks. true)
      (λ jobs. jobs)
      replicas_of
      wider_of
      []
      2
      3
      ((5, 50) ∷ (7, 70) ∷ [])
      owner
    ≡ (
      record owner { acked = (10, (5, 50) ∷ []) ∷ (20, (5, 50) ∷ []) ∷ (30, (7, 70) ∷ []) ∷ [] },
      ok tt,
    )
unfolding put
put_rescues = refl

put_refuses :
    put succeeds succeeds
      (λ a ks. true)
      (λ jobs. jobs)
      replicas_of
      replicas_of
      []
      2
      3
      ((7, 70) ∷ [])
      owner
    ≡ (owner, raise connection_error)
unfolding put
put_refuses = refl

-- The block moves the counter of the chain 1, writes twice and deletes.
batch_sends_once :
    batch succeeds retried
      (λ a ks. true)
      (λ jobs. jobs)
      replicas_of
      wider_of
      []
      2
      3
      (move_call ((1, 5) ∷ []) []
        ∷ put_call ((5, 50) ∷ [])
        ∷ put_call ((6, 60) ∷ [])
        ∷ delete_call (9 ∷ [])
        ∷ [])
      owner
    ≡ (
      record owner {
        chains = (1, 5) ∷ [];
        acked = (10, (5, 50) ∷ (6, 60) ∷ []) ∷ (20, (5, 50) ∷ (6, 60) ∷ []) ∷ [];
        inflight = (30, (5, 50) ∷ (6, 60) ∷ []) ∷ [];
        deleted = (10, 9 ∷ []) ∷ (20, 9 ∷ []) ∷ (30, 9 ∷ []) ∷ (40, 9 ∷ []) ∷ [];
      },
      ok tt,
    )
unfolding batch
batch_sends_once = refl

-- One replica that has the key is enough to lose it, and with no replica reached it is won.
put_nx_loses :
    put_nx (λ a. if a == 20 then some true else some false) replicas_of 5 50 owner ≡ (owner, false)
unfolding put_nx
put_nx_loses = refl

put_nx_unreached : put_nx (λ a. none) replicas_of 5 50 owner ≡ (owner, true)
unfolding put_nx
put_nx_unreached = refl

put_durable_example :
    (let (s', r) =
        put succeeds retried
          (λ a ks. true)
          (λ jobs. jobs)
          replicas_of
          wider_of
          []
          2
          3
          ((5, 50) ∷ (7, 70) ∷ [])
          owner in
      ((r ≡ raise connection_error) × (s'.mirror ≡ none))
      ⊎ ((r ≡ ok tt)
          × (s'.mirror ≡ write_through ((5, 50) ∷ (7, 70) ∷ []) none)
          × (acked : List (ℕ × Items)) × (rescued : List (ℕ × Items)) × (s'.acked
              ≡ acked ++ rescued)
          × ((k : ℕ)
              → has_key {A = ℕ} ((5, 50) ∷ (7, 70) ∷ []) k ≡ true
              → Acked succeeds k acked ⊎ Acked retried k rescued)))
put_durable_example =
    put_durable succeeds retried (λ a ks. true) (λ jobs. jobs) replicas_of wider_of [] 2 3
      ((5, 50) ∷ (7, 70) ∷ []) owner refl

abbrev calls : List Call
calls =
    move_call ((1, 5) ∷ []) []
    ∷ put_call ((5, 50) ∷ [])
    ∷ nx_call (λ a. some false) 8 80
    ∷ delete_call (9 ∷ [])
    ∷ raise_call value_error
    ∷ put_call ((6, 60) ∷ [])
    ∷ []

abbrev with_rows : Items → Mirror
with_rows rows = record {
  rows = rows;
  synced_at = none;
  last_pass_s = 0;
  complete_once = false;
  hits = 0;
  misses = 0;
}

-- An owner with a mirror that erases its keys from the world.
abbrev erasing : Owner
erasing = record owner { mirror = some (with_rows ((9, 90) ∷ [])); delete_everywhere = true }

abbrev after_error : Owner
after_error = record erasing {
  mirror = some (with_rows ((8, 80) ∷ []));
  deleted = (10, 9 ∷ []) ∷ [];
}
