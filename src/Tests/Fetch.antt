-- ===== src/Tests/Fetch.antt =====
-- Runs of `_mget_network` and `_mget` of blindrange/client.py, and instances of the theorems about
-- them and about blindrange/mirror.py.
use mathlib.Core.List.Perm
use blindrange.Prelude.{
  ℕ, ◌+◌, ◌≤◌, ◌≡◌, refl, Bool, true, false, ◌&&◌, ◌⊎◌, List, [], ◌∷◌, ◌==◌, if◌then◌else◌,
  contains, find_key, has_key, Option, some, none, length, arith,
}
use blindrange.Mirror.{Items, Mirror, get_many, put_many, delete_many, update, fresh}
use blindrange.Mirror.Reads.{IsValid, mirror-reads}
use blindrange.Node.Rows.{last_write}
use blindrange.Client.Fetch.Local.{mget_absent}
use blindrange.Client.Fetch.{mget_network, mget}
use blindrange.Client.Fetch.Settled.{found}
use blindrange.Client.Fetch.Honest.{Held, Nowhere, mget_network-Honest}

-- The address 20 stores the keys 1 and 2, the address 10 nothing; the address 30 is down.
abbrev stored : ℕ → ℕ → Option ℕ
stored a k = if a == 20 && contains k (1 ∷ 2 ∷ []) then some (100 + k) else none

abbrev up : ℕ → Bool
up a = contains a (10 ∷ 20 ∷ [])

abbrev post : ℕ → ℕ → List ℕ → Option Items
post r a ks = if up a then some (found (stored a) ks) else none

abbrev in_order : ℕ → List (ℕ × List ℕ) → List (ℕ × List ℕ)
in_order r jobs = jobs

-- The key 1 has the replicas 10, then 20; the key 2 has 20; the key 3 has 10; the key 4 has 30.
abbrev routes : ℕ → ℕ → List ℕ
routes t k =
    if k == 1
    then 10 ∷ 20 ∷ []
    else (if k == 2 then 20 ∷ [] else (if k == 3 then 10 ∷ [] else 30 ∷ []))

routes-short : (t k : ℕ) → length (routes t k) ≤ 1 + 3
routes-short t k = ground arith

mget_network_reads : mget_network post in_order routes 1 2 (1 ∷ 2 ∷ 3 ∷ 4 ∷ []) true ≡ record {
  values = (2, 102) ∷ (1, 101) ∷ [];
  last_unresolved = 4 ∷ [];
  last_silent = (4, 30 ∷ []) ∷ [];
  repairs = (10, (1, 101) ∷ []) ∷ [];
}
unfolding mget_network found
mget_network_reads = refl

-- An address that answers the first round for the key 2 and is silent in the second one for the key 1,
-- which it stores, counts as having replied: the key 1 has no value and is not unresolved.
abbrev post_once : ℕ → ℕ → List ℕ → Option Items
post_once r a ks = if r == 0 then some (found (stored a) ks) else none

silence_as_absence :
    mget_network post_once in_order routes 1 2 (1 ∷ 2 ∷ []) true
    ≡ record { values = (2, 102) ∷ []; last_unresolved = []; last_silent = []; repairs = [] }
unfolding mget_network found
silence_as_absence = refl

mget_network-Honest_example :
    (let answer = mget_network post in_order routes 1 2 (1 ∷ 2 ∷ 3 ∷ 4 ∷ []) true in
      ((v : ℕ) × (find_key answer.values 3 ≡ some v) × Held up stored 3 v)
      ⊎ ((contains 3 answer.last_unresolved ≡ true)
          ⊎ ((has_key answer.values 3 ≡ false) × (t : ℕ) × Nowhere up stored routes t 3)))
mget_network-Honest_example =
    mget_network-Honest post in_order (λ r jobs. Perm.refl jobs) up stored (λ r a ks. refl) routes 1
      2 (1 ∷ 2 ∷ 3 ∷ 4 ∷ []) routes-short true 3 refl

-- A stale mirror that has the key 2.
abbrev stale_mirror : Mirror
stale_mirror = record {
  rows = (2, 102) ∷ [];
  synced_at = some 100;
  last_pass_s = 5;
  complete_once = true;
  hits = 0;
  misses = 0;
}

stale_mirror-IsValid : IsValid stale_mirror
stale_mirror-IsValid = record { unique = (refl, tt) }

missing_three :
    has_key
      (mget 200 30 false
        (λ ks. mget_network post in_order routes 1 2 ks true)
        (1 ∷ 2 ∷ 3 ∷ [])
        stale_mirror).0
      3
    ≡ false
unfolding mget mget_network found get_many update fresh
missing_three = refl

asked_three :
    contains 3
      (mget 200 30 false
        (λ ks. mget_network post in_order routes 1 2 ks true)
        (1 ∷ 2 ∷ 3 ∷ [])
        stale_mirror).1
    ≡ false
unfolding mget mget_network found get_many update fresh
asked_three = refl

mget_absent_example :
    (has_key stale_mirror.rows 3 ≡ false)
    × ((fresh 200 30 false stale_mirror ≡ true) ⊎ ((t : ℕ) × Nowhere up stored routes t 3))
mget_absent_example =
    mget_absent post in_order (λ r jobs. Perm.refl jobs) up stored (λ r a ks. refl) routes 1 2
      routes-short 200 30 false true (1 ∷ 2 ∷ 3 ∷ []) stale_mirror 3 stale_mirror-IsValid refl
      missing_three asked_three

mirror-reads_example :
    IsValid (delete_many (5 ∷ []) (put_many ((5, 1) ∷ (6, 2) ∷ (2, 9) ∷ []) stale_mirror))
    × (find_key
          (get_many
            (2 ∷ 5 ∷ [])
            (delete_many (5 ∷ []) (put_many ((5, 1) ∷ (6, 2) ∷ (2, 9) ∷ []) stale_mirror)))
          2
        ≡ some 9)
unfolding last_write
mirror-reads_example =
    mirror-reads ((5, 1) ∷ (6, 2) ∷ (2, 9) ∷ []) (5 ∷ []) (2 ∷ 5 ∷ []) stale_mirror 2
      stale_mirror-IsValid
