-- ===== src/Client/Fetch.antt =====
-- `_mget_network` and `_mget` of blindrange/client.py: a read of several keys from their replicas.
-- Keys, values and addresses are numbers. The parameters stand for what is not under the client's
-- control: `post r a ks` is the "values" of the reply of the address `a` in the round `r` of requests
-- (none for an OSError), `completed r jobs` is the order in which the requests of a round complete,
-- and `routes t k` are the addresses of ring.route(k, R + PROBE_EXTRA), at first (t = 0) and after the
-- refresh of the membership in attempt t. The waits between attempts are left out.
pub mod Rounds
pub mod Settled
pub mod Sound
pub mod Attempts
pub mod Honest
pub mod Local
use mathlib.Core.List.{foldl}
use blindrange.Mirror.{Items, Mirror, get_many, put_many, update, fresh}
use blindrange.Prelude.{
  ℕ, zero, suc, ◌+◌, ◌-◌, Bool, true, false, ◌&&◌, ◌||◌, not, List, [], ◌∷◌, ◌++◌, map, ltb, leb,
  ◌==◌, if◌then◌else◌, length, take, drop, any, all, contains, is_empty, filter, find_key, has_key,
  assign, Option, some, none,
}

-- What the rounds have brought so far: `out`, the pairs (key, address) of `holders`, and `replied`.
pub record Got : Type 0 where
  pub out : Items
  pub holders : List (ℕ × ℕ)
  pub replied : List ℕ

abbrev pub nothing : Got
nothing = record { out = []; holders = []; replied = [] }

-- `by_node.setdefault(a, []).append(k)`
unfoldable pub ask {ℓ} : {A : Type ℓ} → ℕ → A → List (ℕ × List A) → List (ℕ × List A)
ask a k [] = (a, k ∷ []) ∷ []
ask a k ((b, ks) ∷ jobs) = if b == a then (b, ks ++ k ∷ []) ∷ jobs else (b, ks) ∷ ask a k jobs

unfoldable pub ask_each : ℕ → List ℕ → List (ℕ × List ℕ) → List (ℕ × List ℕ)
unfolding ask
ask_each k [] jobs = jobs
ask_each k (a ∷ addrs) jobs = ask_each k addrs (ask a k jobs)

-- `xs[lo:hi]`
abbrev pub slice : ℕ → ℕ → List ℕ → List ℕ
slice lo hi xs = drop lo (take hi xs)

unfoldable pub by_node : (ℕ → List ℕ) → ℕ → ℕ → List ℕ → List (ℕ × List ℕ) → List (ℕ × List ℕ)
unfolding ask_each
by_node route lo hi [] jobs = jobs
by_node route lo hi (k ∷ pending) jobs =
    by_node route lo hi pending (ask_each k (slice lo hi (route k)) jobs)

unfoldable pub note_values : ℕ → Items → Got → Got
note_values a [] s = s
note_values a ((k, v) ∷ vals) s =
    note_values a vals (record s { out = assign s.out k v; holders = s.holders ++ (k, a) ∷ [] })

-- One completed request: whether the loop goes on, what is still missing, and what is known.
unfoldable pub receive : ℕ → Option Items → List ℕ → Got → Bool × List ℕ × Got
unfolding note_values
receive a none missing s = (true, missing, s)
receive a (some vals) missing s =
    let missing' = filter (λ k. not (has_key vals k)) missing in
    (
      not (is_empty missing'),
      missing',
      note_values a vals (record s { replied = s.replied ++ a ∷ [] }),
    )

-- `tolerable`, the silent addresses of a key, and `unresolved()`.
unfoldable pub silent : List ℕ → List ℕ → List ℕ
silent replied addrs = filter (λ a. not (contains a replied)) addrs

unfoldable pub unresolved : ℕ → ℕ → List ℕ → (ℕ → List ℕ) → Got → List ℕ
unfolding silent
unresolved R write_acks keys route s =
    filter
      (λ k.
        not (has_key s.out k)
        && (ltb (write_acks - 1) (length (silent s.replied (take R (route k))))
            || not (is_empty (silent s.replied (route k)))))
      keys

unfoldable pub reroute : List ℕ → (ℕ → List ℕ) → (ℕ → List ℕ) → ℕ → List ℕ
reroute stuck new route k = if contains k stuck then new k else route k

-- The read repair of one key, `by_primary.setdefault(primary, []).append([k, out[k]])`.
unfoldable pub repair_key : Got → List ℕ → ℕ × ℕ → List (ℕ × List (ℕ × ℕ)) → List (ℕ × List (ℕ × ℕ))
unfolding ask
repair_key s [] (k, v) jobs = jobs
repair_key s (primary ∷ addrs) (k, v) jobs =
    if contains primary s.replied && not (any (λ h. h.0 == k && h.1 == primary) s.holders)
    then ask primary (k, v) jobs
    else jobs

-- What the call leaves: its result, `last_unresolved`, `last_silent`, and the repairs it sends.
pub record Answer : Type 0 where
  pub values : Items
  pub last_unresolved : List ℕ
  pub last_silent : List (ℕ × List ℕ)
  pub repairs : List (ℕ × List (ℕ × ℕ))

module _ (post : ℕ → ℕ → List ℕ → Option Items)
    (completed : ℕ → List (ℕ × List ℕ) → List (ℕ × List ℕ)) where
  -- The loop of `fan` over the requests as they complete.
  unfoldable pub gather : ℕ → List (ℕ × List ℕ) → List ℕ → Got → List ℕ × Got
  unfolding receive
  gather r [] missing s = (missing, s)
  gather r ((a, ks) ∷ jobs) missing s =
      let (again, missing', s') = receive a (post r a ks) missing s in
      let rest = gather r jobs missing' s' in if again then rest else (missing', s')

  unfoldable pub fan : ℕ → (ℕ → List ℕ) → ℕ → ℕ → List ℕ → Got → List ℕ × Got
  unfolding gather by_node
  fan r route lo hi pending s = gather r (completed r (by_node route lo hi pending [])) pending s

  module _ (routes : ℕ → ℕ → List ℕ) (R write_acks : ℕ) (keys : List ℕ) where
    -- The attempts that are left: the first re-asks, the later ones refresh the membership first.
    unfoldable pub retry : ℕ → ℕ → (ℕ → List ℕ) → Got → (ℕ → List ℕ) × Got
    unfolding fan unresolved reroute
    retry zero attempt route s = (route, s)
    retry (suc n) attempt route s =
        let stuck = unresolved R write_acks keys route s in
        let route' = if leb 1 attempt then reroute stuck (routes attempt) route else route in
        let (_, s') = fan (attempt + 2) route' 0 (R + 3) stuck s in
        let rest = retry n (suc attempt) route' s' in if is_empty stuck then (route, s) else rest

    -- The two phases over the replicas and over further successors.
    unfoldable pub two_phases : Got
    unfolding fan
    two_phases =
        let (missing, s) = fan 0 (routes 0) 0 R keys nothing in
        let more = fan 1 (routes 0) R (R + 3) missing s in if is_empty missing then s else more.1

    -- `len(waits) + 1` attempts.
    unfoldable pub mget_network : Bool → Answer
    unfolding retry two_phases unresolved silent repair_key
    mget_network repair_reads =
        let (route, s) = retry 4 0 (routes 0) two_phases in
        let stuck = unresolved R write_acks keys route s in
        record {
          values = s.out;
          last_unresolved = stuck;
          last_silent = map (λ k. (k, silent s.replied (take R (route k)))) stuck;
          repairs =
              if repair_reads
              then foldl (λ jobs item. repair_key s (route item.0) item jobs) [] s.out
              else [];
        }

-- `_mget` where the mirror is on: the values, `last_unresolved`, and the mirror afterwards; `network`
-- is the call of `_mget_network`.
unfoldable pub mget : ℕ → ℕ → Bool → (List ℕ → Answer) → List ℕ → Mirror → Items × List ℕ × Mirror
mget now stale_s single_writer network keys m =
    let local = get_many keys m in
    let missing = filter (λ k. not (has_key local k)) keys in
    let answer = network missing in
    let answer' = network keys in
    if is_empty keys
    then (answer'.values, answer'.last_unresolved, m)
    else (if is_empty missing
        then (local, [], record m { hits = m.hits + length keys })
        else (if fresh now stale_s single_writer m
            then (
              local,
              [],
              record m { hits = m.hits + length local; misses = m.misses + length missing },
            )
            else (update local answer.values, answer.last_unresolved, put_many answer.values m)))
