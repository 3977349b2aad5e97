-- ===== src/Client/Fetch/Local.antt =====
-- What `_mget` may call absent: what neither the mirror nor the network has.
use mathlib.Core.List.{Perm}
use blindrange.Prelude.{
  ℕ, ◌+◌, ◌≤◌, ◌≡◌, refl, sym, ◌∙◌, Bool, true, false, ◌||◌, not, List, [], ◌∷◌, ◌==◌,
  if◌then◌else◌, contains, is_empty, filter, find_key, has_key, has_key-assign, assign, Option,
  some, none, Bool-cases, inl, inr, ◌⊎◌, length, arith,
}
use blindrange.Mirror.{Items, Mirror, update, get_many, fresh}
use blindrange.Mirror.Reads.{IsValid, find_key-get_many}
use blindrange.Client.Fetch.{Answer, mget_network, mget}
use blindrange.Client.Fetch.Rounds.{contains-filter, not_empty}
use blindrange.Client.Fetch.Settled.{found}
use blindrange.Client.Fetch.Honest.{has_key-find, Nowhere, mget_network-Honest}

find_some-has_key : (d : Items) (k : ℕ) {v : ℕ} → find_key d k ≡ some v → has_key d k ≡ true
find_some-has_key [] k h = cc
find_some-has_key ((j, w) ∷ d) k h = elim (Bool-cases (j == k)) [
  | inl same ↦ ground (arith, same)
  | inr other ↦ ground (arith, find_some-has_key d k (rw other at h))
]

contrary : {b : Bool} → b ≡ true → b ≡ false → ⊥
contrary p q = let bad = sym p ∙ q in cc

has_key-update :
    (d items : Items) (k : ℕ) → has_key (update d items) k ≡ (has_key items k || has_key d k)
unfolding update
has_key-update d [] k = refl
has_key-update d ((j, v) ∷ items) k =
    has_key-update (assign d j v) items k ∙ ground (arith, has_key-assign d j k v)

-- What the mirror does not return, of what it is asked for, it does not hold.
not_local :
    (keys : List ℕ) (m : Mirror) (k : ℕ)
    → IsValid m
    → contains k keys ≡ true
    → has_key (get_many keys m) k ≡ false
    → has_key m.rows k ≡ false
not_local keys m k v h absent = elim (Bool-cases (has_key m.rows k)) [
  | inl held ↦
      let (w, e) = has_key-find m.rows k held in
      let got = find_key-get_many keys m k v in
      let got' = rw h at got in
      let bad = sym (find_some-has_key (get_many keys m) k (got' ∙ e)) ∙ absent in cc
  | inr gone ↦ gone
]

module _ (post : ℕ → ℕ → List ℕ → Option Items)
    (completed : ℕ → List (ℕ × List ℕ) → List (ℕ × List ℕ))
    (all_complete : (r : ℕ) (jobs : List (ℕ × List ℕ)) → Perm (completed r jobs) jobs)
    (up : ℕ → Bool) (stored : ℕ → ℕ → Option ℕ)
    (replies : (r a : ℕ) (ks : List ℕ)
      → post r a ks ≡ (if up a then some (found (stored a) ks) else none))
    (routes : ℕ → ℕ → List ℕ) (R write_acks : ℕ)
    (short : (t k : ℕ) → length (routes t k) ≤ R + 3) where
  abbrev network : Bool → List ℕ → Answer
  network repair_reads keys = mget_network post completed routes R write_acks keys repair_reads

  -- The network's answer for a key without a value that is not unresolved.
  network_absent :
      (repair_reads : Bool) (keys : List ℕ) (k : ℕ)
      → contains k keys ≡ true
      → has_key (network repair_reads keys).values k ≡ false
      → contains k (network repair_reads keys).last_unresolved ≡ false
      → (t : ℕ) × Nowhere up stored routes t k
  network_absent repair_reads keys k h absent resolved =
      elim (mget_network-Honest post completed all_complete up stored replies routes R write_acks
        keys short repair_reads k h) [
          | inl (v, e, held) ↦ let bad = sym (find_some-has_key _ k e) ∙ absent in cc
          | inr (inl stuck) ↦ let bad = sym stuck ∙ resolved in cc
          | inr (inr (gone, t, nowhere)) ↦ (t, nowhere)
        ]

  -- Where _mget gives no value for a key that it is asked for, and does not list it as unresolved, the
  -- mirror does not hold it, and either the mirror is fresh, or on one route that the ring gave for the
  -- key every address is up and does not store it; when the keys of the mirror are different, and each
  -- address is up with its store or down throughout.
  pub mget_absent :
      (now stale_s : ℕ) (single_writer repair_reads : Bool) (keys : List ℕ) (m : Mirror) (k : ℕ)
      → IsValid m
      → contains k keys ≡ true
      → has_key (mget now stale_s single_writer (network repair_reads) keys m).0 k ≡ false
      → contains k (mget now stale_s single_writer (network repair_reads) keys m).1 ≡ false
      → (has_key m.rows k ≡ false)
        × ((fresh now stale_s single_writer m ≡ true) ⊎ ((t : ℕ) × Nowhere up stored routes t k))
  unfolding mget
  mget_absent now stale_s single_writer repair_reads keys m k v h absent resolved =
      let local = get_many keys m in
      let missing = filter (λ j. not (has_key local j)) keys in
      let asked = not_empty keys k h in
      elim (Bool-cases (has_key local k)) [
        | inl here ↦ absurd (elim (Bool-cases (is_empty missing)) [
          | inl all_local ↦ contrary here (rw (asked, all_local) at absent)
          | inr some_left ↦ elim (Bool-cases (fresh now stale_s single_writer m)) [
            | inl is_fresh ↦ contrary here (rw (asked, some_left, is_fresh) at absent)
            | inr stale ↦
                let either = has_key-update local (network repair_reads missing).values k in
                contrary (ground (arith, either, here)) (rw (asked, some_left, stale) at absent)
          ]
        ])
        | inr away ↦
            let left : contains k missing ≡ true =
              contains-filter _ keys k ∙ ground (arith, h, away) in
            let some_left = not_empty missing k left in
            (
              not_local keys m k v h away,
              elim (Bool-cases (fresh now stale_s single_writer m)) [
                | inl is_fresh ↦ inl is_fresh
                | inr stale ↦
                    let absent' = rw (asked, some_left, stale) at absent in
                    let resolved' = rw (asked, some_left, stale) at resolved in
                    let either = has_key-update local (network repair_reads missing).values k in
                    inr (
                      network_absent repair_reads missing k left (ground (arith, either, absent'))
                        resolved')
              ],
            )
      ]
