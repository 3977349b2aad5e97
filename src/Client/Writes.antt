-- ===== src/Client/Writes.antt =====
-- `_put`, `_put_nx`, `_delete` and `batch` of blindrange/client.py: replicated writes and the block that collects
-- them. Keys, values and addresses are numbers; the state of the owner is what these calls change.
-- `acked` and `deleted` log the requests that succeeded, with the address; the requests that `_put` no
-- longer waits for stand in `inflight`. The parameters: the addresses of ring.route, whether a request
-- to an address succeeds, whether one of the later rescue does (`retried`: the same entries at the same
-- address may fail first and succeed then), and the order in which the requests of a call complete.
pub mod Acks
pub mod Durable
pub mod Batched
use mathlib.Core.List.{foldl}
use blindrange.Prelude.{
  ℕ, zero, suc, ◌+◌, max, min, Bool, true, false, ◌&&◌, not, List, [], ◌∷◌, ◌++◌, map, ltb, leb,
  ◌==◌, if◌then◌else◌, length, take, drop, any, all, is_empty, filter, find_key, assign, Option,
  some, none, Result, ok, raise, Error, connection_error, runtime_error,
}
use blindrange.Mirror.{Items, Mirror, put_many, delete_many}
use blindrange.Client.Fetch.{ask, ask_each}

pub record Owner : Type 0 where
  pub chains : Items
  pub tombs : Items
  pub mirror : Option Mirror
  pub batch_puts : Option Items
  pub batch_dels : Option (List ℕ)
  pub delete_everywhere : Bool
  pub acked : List (ℕ × Items)
  pub inflight : List (ℕ × Items)
  pub deleted : List (ℕ × List ℕ)

-- `by_node`: the entries for each address of the key's route.
unfoldable pub group_entry : ℕ × ℕ → List ℕ → List (ℕ × Items) → List (ℕ × Items)
unfolding ask
group_entry e [] jobs = jobs
group_entry e (a ∷ addrs) jobs = group_entry e addrs (ask a e jobs)

unfoldable pub group_entries : (ℕ → List ℕ) → Items → List (ℕ × Items) → List (ℕ × Items)
unfolding group_entry
group_entries route [] jobs = jobs
group_entries route ((k, v) ∷ pairs) jobs =
    group_entries route pairs (group_entry (k, v) (route k) jobs)

-- The number of acknowledgements of a key.
unfoldable pub acks_of : Items → ℕ → ℕ
acks_of [] k = 0
acks_of ((j, n) ∷ acks) k = if j == k then n else acks_of acks k

unfoldable pub no_acks : Items → Items → Items
no_acks [] acks = acks
no_acks ((k, v) ∷ pairs) acks = no_acks pairs (assign acks k 0)

unfoldable pub add_acks : Items → Items → Items
unfolding acks_of
add_acks [] acks = acks
add_acks ((k, v) ∷ entries) acks = add_acks entries (assign acks k (acks_of acks k + 1))

-- The loop over the requests as they complete, until each key has `want` acknowledgements: the counts,
-- and what is acknowledged and what is left.
unfoldable pub await :
    (ℕ → Items → Bool) → ℕ → List (ℕ × Items) → Items → Items × List (ℕ × Items) × List (ℕ × Items)
unfolding add_acks
await succeeds want [] acks = (acks, [], [])
await succeeds want ((a, entries) ∷ jobs) acks =
    let acks' = add_acks entries acks in
    let (acks₁, acked, left) = await succeeds want jobs acks' in
    let skipped = await succeeds want jobs acks in
    if not (succeeds a entries)
    then skipped
    else (if all (λ item. leb want item.1) acks'
        then (acks', (a, entries) ∷ [], jobs)
        else (acks₁, (a, entries) ∷ acked, left))

-- A weak key is offered to the addresses of a wider route, one by one.
unfoldable pub offer : (ℕ → Items → Bool) → Items → List ℕ → Option ℕ
offer retried entry [] = none
offer retried entry (a ∷ addrs) = if retried a entry then some a else offer retried entry addrs

unfoldable pub rescue_one :
    Option ℕ → Items → ℕ → Items × List (ℕ × Items) → Items × List (ℕ × Items)
unfolding acks_of
rescue_one none entry k s = s
rescue_one (some a) entry k (acks, acked) =
    (assign acks k (acks_of acks k + 1), acked ++ (a, entry) ∷ [])

-- `vals[k]`, for a key of the pairs: the value of the last pair.
unfoldable pub value_of : Items → ℕ → ℕ → ℕ
value_of [] k v = v
value_of ((j, w) ∷ pairs) k v = value_of pairs k (if j == k then w else v)

unfoldable pub rescue :
    (ℕ → Items → Bool)
    → (ℕ → List ℕ)
    → Items
    → List ℕ
    → Items × List (ℕ × Items)
    → Items × List (ℕ × Items)
unfolding offer rescue_one value_of
rescue retried wide pairs [] s = s
rescue retried wide pairs (k ∷ weak) s =
    let entry = (k, value_of pairs k 0) ∷ [] in
    rescue retried wide pairs weak (rescue_one (offer retried entry (wide k)) entry k s)

unfoldable pub weak_keys : Items → List ℕ
weak_keys acks = map (λ item. item.0) (filter (λ item. ltb item.1 1) acks)

unfoldable pub write_through : Items → Option Mirror → Option Mirror
write_through pairs none = none
write_through pairs (some m) = some (put_many pairs m)

unfoldable pub forget : List ℕ → Option Mirror → Option Mirror
forget keys none = none
forget keys (some m) = some (delete_many keys m)

-- What the block of a batch does: it moves the counters of chains, writes, deletes, or raises; it reads,
-- after which the mirror may hold more; and it claims keys by `_put_nx`, with the answers it gets, which
-- is also what `next_value` does after its reads. The calls are those of one run of the block.
pub data Call : Type 0 where
  read_call : Option Mirror → Call
  nx_call : (ℕ → Option Bool) → ℕ → ℕ → Call
  move_call : Items → Items → Call
  put_call : Items → Call
  delete_call : List ℕ → Call
  raise_call : Error → Call

unfoldable pub after :
    Owner × Result (Unit {0}) → (Owner → Owner × Result (Unit {0})) → Owner × Result (Unit {0})
after (s, ok u) next = next s
after (s, raise e) next = (s, raise e)

-- The loop of `_put_nx` over the route: what each address answers, none for an OSError, else whether it
-- had the key already.
unfoldable pub nx_won : (ℕ → Option Bool) → List ℕ → Bool
nx_won answer [] = true
nx_won answer (a ∷ addrs) =
    let rest = nx_won answer addrs in if existed (answer a) then false else rest
  where
    existed : Option Bool → Bool
    existed none = false
    existed (some b) = b

-- `_put_nx`: a lost key is forgotten by the mirror, so that a read brings the winner's value.
unfoldable pub put_nx : (ℕ → Option Bool) → (ℕ → List ℕ) → ℕ → ℕ → Owner → Owner × Bool
unfolding nx_won write_through forget
put_nx answer route key value s =
    if nx_won answer (route key)
    then (record s { mirror = write_through ((key, value) ∷ []) s.mirror }, true)
    else (record s { mirror = forget (key ∷ []) s.mirror }, false)

module _ (succeeds retried : ℕ → Items → Bool) (deletes : ℕ → List ℕ → Bool)
    (completed : List (ℕ × Items) → List (ℕ × Items)) (route wide : ℕ → List ℕ) (addresses : List ℕ)
    (write_acks replicas : ℕ) where
  unfoldable pub put_now : Items → Owner → Owner × Result (Unit {0})
  unfolding group_entries no_acks await rescue weak_keys write_through
  put_now pairs s =
      let want = max 1 (min write_acks replicas) in
      let (acks, acked, left) =
        await succeeds want (completed (group_entries route pairs [])) (no_acks pairs []) in
      let (acks', rescued) = rescue retried wide pairs (weak_keys acks) (acks, []) in
      let sent : Owner = record s {
        acked = s.acked ++ acked ++ rescued;
        inflight = s.inflight ++ left;
      } in
      if any (λ item. item.1 == 0) acks'
      then (sent, raise connection_error)
      else (record sent { mirror = write_through pairs s.mirror }, ok tt)

  unfoldable pub put_in : Option Items → Items → Owner → Owner × Result (Unit {0})
  unfolding put_now
  put_in (some puts) pairs s = (record s { batch_puts = some (puts ++ pairs) }, ok tt)
  put_in none pairs s = put_now pairs s

  -- `_put`
  unfoldable pub put : Items → Owner → Owner × Result (Unit {0})
  unfolding put_in
  put pairs s = put_in s.batch_puts pairs s

  unfoldable pub delete_jobs : Bool → List ℕ → List (ℕ × List ℕ) → List (ℕ × List ℕ)
  unfolding ask_each
  delete_jobs everywhere [] jobs = jobs
  delete_jobs everywhere (k ∷ chunk) jobs =
      delete_jobs everywhere chunk (ask_each k (if everywhere then addresses else wide k) jobs)

  -- The requests for each chunk of 4000 keys, on fuel: the number of keys is enough.
  unfoldable pub delete_requests : ℕ → Bool → List ℕ → List (ℕ × List ℕ)
  unfolding delete_jobs
  delete_requests zero everywhere keys = []
  delete_requests (suc f) everywhere [] = []
  delete_requests (suc f) everywhere (k ∷ keys) =
      delete_jobs everywhere (take 4000 (k ∷ keys)) []
      ++ delete_requests f everywhere (drop 4000 (k ∷ keys))

  unfoldable pub delete_now : List ℕ → Owner → Owner
  unfolding delete_requests forget
  delete_now keys s =
      let requests = delete_requests (length keys) s.delete_everywhere keys in
      record s {
        deleted = s.deleted ++ filter (λ job. deletes job.0 job.1) requests;
        mirror = forget keys s.mirror;
      }

  unfoldable pub delete_in_batch : Option (List ℕ) → List ℕ → Owner → Owner
  unfolding delete_now
  delete_in_batch none keys s = delete_now keys s
  delete_in_batch (some dels) keys s =
      if s.delete_everywhere
      then delete_now keys s
      else record s { batch_dels = some (dels ++ keys) }

  -- `_delete`
  unfoldable pub delete : List ℕ → Owner → Owner
  unfolding delete_in_batch
  delete keys s = delete_in_batch s.batch_dels keys s

  unfoldable pub call : Call → Owner → Owner × Result (Unit {0})
  unfolding put delete put_nx
  call (read_call mirror) s = (record s { mirror = mirror }, ok tt)
  call (nx_call answer key value) s = ((put_nx answer route key value s).0, ok tt)
  call (move_call chains tombs) s = (record s { chains = chains; tombs = tombs }, ok tt)
  call (put_call pairs) s = put pairs s
  call (delete_call keys) s = (delete keys s, ok tt)
  call (raise_call e) s = (s, raise e)

  unfoldable pub block : List Call → Owner → Owner × Result (Unit {0})
  unfolding call after
  block [] s = (s, ok tt)
  block (c ∷ calls) s = after (call c s) (block calls)

  unfoldable pub send_puts : Option Items → Owner → Owner × Result (Unit {0})
  unfolding put
  send_puts none s = (s, ok tt)
  send_puts (some []) s = (s, ok tt)
  send_puts (some (p ∷ puts)) s = put (p ∷ puts) s

  unfoldable pub send_dels : Option (List ℕ) → Owner → Owner × Result (Unit {0})
  unfolding delete
  send_dels none s = (s, ok tt)
  send_dels (some []) s = (s, ok tt)
  send_dels (some (k ∷ keys)) s = (delete (k ∷ keys) s, ok tt)

  -- The end of the block: the roll-back, or the flush.
  unfoldable pub leave : Owner → Owner × Result (Unit {0}) → Owner × Result (Unit {0})
  unfolding send_puts send_dels after
  leave before (s, raise e) = (
    record s { chains = before.chains; tombs = before.tombs; batch_puts = none; batch_dels = none },
    raise e,
  )
  leave before (s, ok u) =
      after (send_puts s.batch_puts (record s { batch_puts = none; batch_dels = none }))
        (send_dels s.batch_dels)

  unfoldable pub enter : Option Items → List Call → Owner → Owner × Result (Unit {0})
  unfolding leave block
  enter (some puts) calls s = (s, raise runtime_error)
  enter none calls s =
      leave s (block calls (record s { batch_puts = some []; batch_dels = some [] }))

  -- `with owner.batch():` around the calls.
  unfoldable pub batch : List Call → Owner → Owner × Result (Unit {0})
  unfolding enter
  batch calls s = enter s.batch_puts calls s
