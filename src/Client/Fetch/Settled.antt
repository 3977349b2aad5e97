-- ===== src/Client/Fetch/Settled.antt =====
-- What a round of `_mget_network` settles. Each address is up, and then each of its replies has the values
-- that it stores, or it is down, and then no request to it succeeds.
use mathlib.Core.List.{Perm}
use blindrange.Prelude.{
  ℕ, ◌≡◌, refl, sym, ap, ◌∙◌, Bool, true, ◌&&◌, not, List, [], ◌∷◌, ◌==◌, if◌then◌else◌, contains,
  filter, has_key, Option, some, none, Bool-cases, inl, inr, ◌⊎◌, arith,
}
use blindrange.Mirror.{Items}
use blindrange.Client.Fetch.{Got, slice, by_node, receive, gather, fan}
use blindrange.Client.Fetch.Rounds.{
  asks, Asked, by_node-asks, any-Perm, note_values-keeps, note_values-has, contains-filter,
  not_empty,
}

-- The reply of an address that stores these values to a request for the keys.
unfoldable pub found_one : Option ℕ → ℕ → Items → Items
found_one none k rest = rest
found_one (some v) k rest = (k, v) ∷ rest

unfoldable pub found : (ℕ → Option ℕ) → List ℕ → Items
unfolding found_one
found store [] = []
found store (k ∷ ks) = found_one (store k) k (found store ks)

found_one-has :
    (store : ℕ → Option ℕ) (o : Option ℕ) (j k : ℕ) (ks : List ℕ) (rest : Items)
    → store j ≡ o
    → contains k (j ∷ ks) ≡ true
    → (contains k ks ≡ true → (has_key rest k ≡ true) ⊎ (store k ≡ none))
    → (has_key (found_one o j rest) k ≡ true) ⊎ (store k ≡ none)
unfolding found_one
found_one-has store none j k ks rest e h later = elim (Bool-cases (j == k)) [
  | inl same ↦ let p : j ≡ k = ground (arith, same) in inr (rw p at e)
  | inr other ↦ later (ground (arith, other, h))
]
found_one-has store (some v) j k ks rest e h later = elim (Bool-cases (j == k)) [
  | inl same ↦ inl (ground (arith, same))
  | inr other ↦ elim (later (ground (arith, other, h))) [
    | inl has ↦ inl (ground (arith, has))
    | inr denied ↦ inr denied
  ]
]

found-has :
    (store : ℕ → Option ℕ) (ks : List ℕ) (k : ℕ)
    → contains k ks ≡ true
    → (has_key (found store ks) k ≡ true) ⊎ (store k ≡ none)
unfolding found
found-has store [] k h = cc
found-has store (j ∷ ks) k h =
    found_one-has store (store j) j k ks (found store ks) refl h (λ q. found-has store ks k q)

module _ (post : ℕ → ℕ → List ℕ → Option Items)
    (completed : ℕ → List (ℕ × List ℕ) → List (ℕ × List ℕ))
    (all_complete : (r : ℕ) (jobs : List (ℕ × List ℕ)) → Perm (completed r jobs) jobs)
    (up : ℕ → Bool) (stored : ℕ → ℕ → Option ℕ)
    (replies : (r a : ℕ) (ks : List ℕ)
      → post r a ks ≡ (if up a then some (found (stored a) ks) else none)) where
  -- The key is known, or the address does not store it.
  abbrev pub Settled : ℕ → ℕ → Got → Type 0
  Settled a k s = (has_key s.out k ≡ true) ⊎ (stored a k ≡ none)

  receive-keeps :
      (a : ℕ) (reply : Option Items) (missing : List ℕ) (s : Got) (k : ℕ)
      → has_key s.out k ≡ true
      → has_key (receive a reply missing s).2.out k ≡ true
  unfolding receive
  receive-keeps a none missing s k h = h
  receive-keeps a (some vals) missing s k h = note_values-keeps a vals _ k h

  gather-keeps :
      (r : ℕ) (jobs : List (ℕ × List ℕ)) (missing : List ℕ) (s : Got) (k : ℕ)
      → has_key s.out k ≡ true
      → has_key (gather post completed r jobs missing s).1.out k ≡ true
  unfolding gather
  gather-keeps r [] missing s k h = h
  gather-keeps r ((a, ks) ∷ jobs) missing s k h =
      let (again, missing', s') = receive a (post r a ks) missing s in
      let kept = receive-keeps a (post r a ks) missing s k h in
      elim (Bool-cases again) [
        | inl more ↦ rw more (gather-keeps r jobs missing' s' k kept)
        | inr done ↦ rw done kept
      ]

  -- One reply, of an address that is up, to a request for a missing key: it is found, or the
  -- address does not store it; and the loop goes on with it if it is not found.
  receive-settles :
      (r a : ℕ) (ks : List ℕ) (missing : List ℕ) (s : Got) (k : ℕ)
      → contains k missing ≡ true
      → (has_key (receive a (post r a ks) missing s).2.out k ≡ true)
        ⊎ (((receive a (post r a ks) missing s).0 ≡ true)
            × (contains k (receive a (post r a ks) missing s).1 ≡ true)
            × (up a ≡ true → contains k ks ≡ true → stored a k ≡ none))
  unfolding receive
  receive-settles r a ks missing s k h = elim (Bool-cases (up a)) [
    | inl u ↦
        let e : post r a ks ≡ some (found (stored a) ks) =
          (let e' = replies r a ks in rw u at e') in
        elim (Bool-cases (has_key (found (stored a) ks) k)) [
          | inl has ↦ inl (rw e (note_values-has a (found (stored a) ks) _ k has))
          | inr absent ↦
              let left : contains k (filter (λ j. not (has_key (found (stored a) ks) j)) missing)
                  ≡ true =
                contains-filter _ missing k ∙ ground (arith, h, absent) in
              inr (
                rw e (
                  ap not (not_empty _ k left),
                  left,
                  λ _ asked. elim (found-has (stored a) ks k asked) [
                    | inl has ↦ let bad = sym has ∙ absent in cc
                    | inr none_there ↦ none_there
                  ],
                ))
        ]
    | inr d ↦
        let e : post r a ks ≡ none = (let e' = replies r a ks in rw d at e') in
        inr (rw e (refl, h, λ u _. let bad = sym u ∙ d in cc))
  ]

  gather-settles :
      (r : ℕ) (jobs : List (ℕ × List ℕ)) (missing : List ℕ) (s : Got) (a k : ℕ)
      → contains k missing ≡ true
      → Asked a k jobs
      → up a ≡ true
      → Settled a k (gather post completed r jobs missing s).1
  unfolding gather
  gather-settles r [] missing s a k h q u = cc
  gather-settles r ((b, ks) ∷ jobs) missing s a k h q u =
      elim (receive-settles r b ks missing s k h) [
        | inl has ↦ elim (Bool-cases (receive b (post r b ks) missing s).0) [
          | inl more ↦ inl (rw more (gather-keeps r jobs _ _ k has))
          | inr done ↦ inl (rw done has)
        ]
        | inr (more, left, denied) ↦ rw more (elim (Bool-cases (b == a && contains k ks)) [
          | inl here ↦
              let e : b ≡ a = ground (arith, here) in
              let d = rw e at denied in inr (d u (ground (arith, here)))
          | inr away ↦ gather-settles r jobs _ _ a k left (ground (arith, away, q)) u
        ])
      ]

  -- After a round, what it asked for is settled at each address of the slice that is up.
  pub fan-settles :
      (r : ℕ) (route : ℕ → List ℕ) (lo hi : ℕ) (pending : List ℕ) (s : Got) (a k : ℕ)
      → contains k pending ≡ true
      → contains a (slice lo hi (route k)) ≡ true
      → up a ≡ true
      → Settled a k (fan post completed r route lo hi pending s).1
  unfolding fan
  fan-settles r route lo hi pending s a k h at u =
      let jobs = by_node route lo hi pending [] in
      gather-settles r (completed r jobs) pending s a k h
        (any-Perm (asks a k) (all_complete r jobs) ∙ by_node-asks route lo hi pending a k [] h at) u

  pub fan-keeps :
      (r : ℕ) (route : ℕ → List ℕ) (lo hi : ℕ) (pending : List ℕ) (s : Got) (a k : ℕ)
      → Settled a k s
      → Settled a k (fan post completed r route lo hi pending s).1
  unfolding fan
  fan-keeps r route lo hi pending s a k (inl h) = inl (gather-keeps r _ pending s k h)
  fan-keeps r route lo hi pending s a k (inr d) = inr d

  receive-missing :
      (a : ℕ) (reply : Option Items) (missing : List ℕ) (s : Got) (k : ℕ)
      → contains k missing ≡ true
      → (has_key (receive a reply missing s).2.out k ≡ true)
        ⊎ (contains k (receive a reply missing s).1 ≡ true)
  unfolding receive
  receive-missing a none missing s k h = inr h
  receive-missing a (some vals) missing s k h = elim (Bool-cases (has_key vals k)) [
    | inl has ↦ inl (note_values-has a vals _ k has)
    | inr absent ↦ inr (contains-filter _ missing k ∙ ground (arith, h, absent))
  ]

  gather-missing :
      (r : ℕ) (jobs : List (ℕ × List ℕ)) (missing : List ℕ) (s : Got) (k : ℕ)
      → contains k missing ≡ true
      → (has_key (gather post completed r jobs missing s).1.out k ≡ true)
        ⊎ (contains k (gather post completed r jobs missing s).0 ≡ true)
  unfolding gather
  gather-missing r [] missing s k h = inr h
  gather-missing r ((a, ks) ∷ jobs) missing s k h =
      elim (Bool-cases (receive a (post r a ks) missing s).0) [
        | inl more ↦ rw more (elim (receive-missing a (post r a ks) missing s k h) [
          | inl has ↦ inl (gather-keeps r jobs _ _ k has)
          | inr left ↦ gather-missing r jobs _ _ k left
        ])
        | inr done ↦ rw done (receive-missing a (post r a ks) missing s k h)
      ]

  -- What is no longer missing after a round has been found.
  pub fan-missing :
      (r : ℕ) (route : ℕ → List ℕ) (lo hi : ℕ) (pending : List ℕ) (s : Got) (k : ℕ)
      → contains k pending ≡ true
      → (has_key (fan post completed r route lo hi pending s).1.out k ≡ true)
        ⊎ (contains k (fan post completed r route lo hi pending s).0 ≡ true)
  unfolding fan
  fan-missing r route lo hi pending s k h = gather-missing r _ pending s k h
