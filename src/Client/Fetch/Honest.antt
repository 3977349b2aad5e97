-- ===== src/Client/Fetch/Honest.antt =====
-- What `_mget_network` says of a key: a value that is stored, or nothing that may be concluded, or that
-- no address of the key's route stores it.
use mathlib.Core.List.{Perm}
use blindrange.Prelude.{
  ℕ, ◌+◌, ◌≤◌, ◌≡◌, refl, sym, ◌∙◌, Bool, true, false, not, List, [], ◌∷◌, ◌==◌, if◌then◌else◌,
  contains, filter, find_key, has_key, Option, some, none, Bool-cases, inl, inr, ◌⊎◌, length, arith,
}
use blindrange.Mirror.{Items}
use blindrange.Client.Fetch.{Got, silent, unresolved, retry, two_phases, mget_network}
use blindrange.Client.Fetch.Rounds.{contains-filter, not_empty}
use blindrange.Client.Fetch.Settled.{found, Settled}
use blindrange.Client.Fetch.Attempts.{two_phases-Round, two_phases-Sound, retry-Round, retry-Sound}

-- An address that is up stores the value.
abbrev pub Held : (ℕ → Bool) → (ℕ → ℕ → Option ℕ) → ℕ → ℕ → Type 0
Held up stored k v = (a : ℕ) × (up a ≡ true) × (stored a k ≡ some v)

-- Every address of the route of the attempt is up and does not store the key.
abbrev pub Nowhere : (ℕ → Bool) → (ℕ → ℕ → Option ℕ) → (ℕ → ℕ → List ℕ) → ℕ → ℕ → Type 0
Nowhere up stored routes t k =
    (a : ℕ) → contains a (routes t k) ≡ true → (up a ≡ true) × (stored a k ≡ none)

pub has_key-find : (d : Items) (k : ℕ) → has_key d k ≡ true → (v : ℕ) × (find_key d k ≡ some v)
has_key-find [] k h = cc
has_key-find ((j, v) ∷ d) k h = elim (Bool-cases (j == k)) [
  | inl same ↦ (v, rw same refl)
  | inr other ↦ let (w, e) = has_key-find d k (ground (arith, other, h)) in (w, rw other e)
]

module _ (post : ℕ → ℕ → List ℕ → Option Items)
    (completed : ℕ → List (ℕ × List ℕ) → List (ℕ × List ℕ))
    (all_complete : (r : ℕ) (jobs : List (ℕ × List ℕ)) → Perm (completed r jobs) jobs)
    (up : ℕ → Bool) (stored : ℕ → ℕ → Option ℕ)
    (replies : (r a : ℕ) (ks : List ℕ)
      → post r a ks ≡ (if up a then some (found (stored a) ks) else none))
    (routes : ℕ → ℕ → List ℕ) (R write_acks : ℕ) (keys : List ℕ)
    (short : (t k : ℕ) → length (routes t k) ≤ R + 3) where
  -- A key that is not found and not unresolved: each address of its route has replied.
  resolved-replied :
      (route : ℕ → List ℕ) (s : Got) (k a : ℕ)
      → contains k keys ≡ true
      → has_key s.out k ≡ false
      → contains k (unresolved R write_acks keys route s) ≡ false
      → contains a (route k) ≡ true
      → contains a s.replied ≡ true
  unfolding unresolved silent
  resolved-replied route s k a h absent resolved at = elim (Bool-cases (contains a s.replied)) [
    | inl yes_replied ↦ yes_replied
    | inr not_replied ↦
        let mute = filter (λ b. not (contains b s.replied)) (route k) in
        let there : contains a mute ≡ true =
          contains-filter _ (route k) a ∙ ground (arith, at, not_replied) in
        let full = not_empty mute a there in
        let bad = sym (contains-filter _ keys k) ∙ resolved in
        absurd (ground (arith, bad, h, absent, full))
  ]

  denied_there :
      (a k : ℕ) (s : Got)
      → has_key s.out k ≡ false
      → Settled post completed all_complete up stored replies a k s
      → stored a k ≡ none
  denied_there a k s absent (inl has) = let bad = sym has ∙ absent in cc
  denied_there a k s absent (inr denied) = denied

  -- What the call says of a key that it was asked for, when each address is up with its store or down
  -- throughout: the value is one that an address stores; or the key is unresolved; or it has no value,
  -- and on one route that the ring gave for it every address is up and does not store it.
  pub mget_network-Honest :
      (repair_reads : Bool) (k : ℕ)
      → contains k keys ≡ true
      → (let answer = mget_network post completed routes R write_acks keys repair_reads in
          ((v : ℕ) × (find_key answer.values k ≡ some v) × Held up stored k v)
          ⊎ ((contains k answer.last_unresolved ≡ true)
              ⊎ ((has_key answer.values k ≡ false) × (t : ℕ) × Nowhere up stored routes t k)))
  unfolding mget_network
  mget_network-Honest repair_reads k h =
      let (route, s) =
        retry post completed routes R write_acks keys 4 0 (routes 0)
          (two_phases post completed routes R write_acks keys) in
      let r =
        retry-Round post completed all_complete up stored replies routes R write_acks keys short 4 0
          (routes 0) _ k
          (two_phases-Round post completed all_complete up stored replies routes R write_acks keys
            short k h) in
      let p =
        retry-Sound post completed all_complete up stored replies routes R write_acks keys short 4 0
          (routes 0) _
          (two_phases-Sound post completed all_complete up stored replies routes R write_acks keys
            short) in
      elim (Bool-cases (has_key s.out k)) [
        | inl has ↦ let (v, e) = has_key-find s.out k has in inl (v, e, p.from_store k v e)
        | inr absent ↦ elim (Bool-cases (contains k (unresolved R write_acks keys route s))) [
          | inl stuck ↦ inr (inl stuck)
          | inr resolved ↦ inr (
              inr (
                absent,
                r.t,
                λ a at.
                    let at' = rw (← r.same) at at in
                    let u = p.from_up a (resolved-replied route s k a h absent resolved at') in
                    (u, denied_there a k s absent (r.settles a at' u)),
              ))
        ]
      ]
