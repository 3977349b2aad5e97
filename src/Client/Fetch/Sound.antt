-- ===== src/Client/Fetch/Sound.antt =====
-- What `_mget_network` returns is stored at an address, and what it takes to have replied is up.
use mathlib.Core.List.{Perm}
use blindrange.Prelude.{
  ℕ, ◌≡◌, refl, sym, ◌∙◌, Bool, true, List, [], ◌∷◌, ◌++◌, ◌==◌, if◌then◌else◌, contains,
  contains-append, find_key, assign, find_key-assign, Option, some, none, Bool-cases, inl, inr,
  arith,
}
use blindrange.Mirror.{Items}
use blindrange.Client.Fetch.{Got, note_values, receive, gather, fan}
use blindrange.Client.Fetch.Settled.{found_one, found}

module _ (post : ℕ → ℕ → List ℕ → Option Items)
    (completed : ℕ → List (ℕ × List ℕ) → List (ℕ × List ℕ))
    (all_complete : (r : ℕ) (jobs : List (ℕ × List ℕ)) → Perm (completed r jobs) jobs)
    (up : ℕ → Bool) (stored : ℕ → ℕ → Option ℕ)
    (replies : (r a : ℕ) (ks : List ℕ)
      → post r a ks ≡ (if up a then some (found (stored a) ks) else none)) where
  -- Values are stored at an address that is up, and what has replied is up.
  pub record Sound (s : Got) : Type 0 where
    pub from_store :
        (k v : ℕ) → find_key s.out k ≡ some v → (a : ℕ) × (up a ≡ true) × (stored a k ≡ some v)
    pub from_up : (a : ℕ) → contains a s.replied ≡ true → up a ≡ true

  note_one-Sound :
      (a k v : ℕ) (s : Got)
      → up a ≡ true
      → stored a k ≡ some v
      → Sound s
      → Sound (record s { out = assign s.out k v; holders = s.holders ++ (k, a) ∷ [] })
  note_one-Sound a k v s u e p = record {
    from_store = λ j w h. elim (Bool-cases (k == j)) [
      | inl same ↦
          let q : k ≡ j = ground (arith, same) in
          let f = find_key-assign s.out k j v in
          let f' = rw same at f in
          let w' : v ≡ w = (let x = sym f' ∙ h in cc) in (a, u, rw (← q, ← w') e)
      | inr other ↦
          let f = find_key-assign s.out k j v in
          let f' = rw other at f in p.from_store j w (sym f' ∙ h)
    ];
    from_up = p.from_up;
  }

  note_found_one-Sound :
      (a k : ℕ) (o : Option ℕ) (rest : Items) (s : Got)
      → stored a k ≡ o
      → up a ≡ true
      → Sound s
      → ((t : Got) → Sound t → Sound (note_values a rest t))
      → Sound (note_values a (found_one o k rest) s)
  unfolding found_one note_values
  note_found_one-Sound a k none rest s e u p later = later s p
  note_found_one-Sound a k (some v) rest s e u p later = later _ (note_one-Sound a k v s u e p)

  note_found-Sound :
      (a : ℕ) (ks : List ℕ) (s : Got)
      → up a ≡ true
      → Sound s
      → Sound (note_values a (found (stored a) ks) s)
  unfolding found note_values
  note_found-Sound a [] s u p = p
  note_found-Sound a (k ∷ ks) s u p =
      note_found_one-Sound a k (stored a k) (found (stored a) ks) s refl u p
        (λ t q. note_found-Sound a ks t u q)

  receive-Sound :
      (r a : ℕ) (ks missing : List ℕ) (s : Got)
      → Sound s
      → Sound (receive a (post r a ks) missing s).2
  unfolding receive
  receive-Sound r a ks missing s p = elim (Bool-cases (up a)) [
    | inl u ↦
        let e : post r a ks ≡ some (found (stored a) ks) =
          (let e' = replies r a ks in rw u at e') in
        rw e (
          note_found-Sound a ks (record s { replied = s.replied ++ a ∷ [] }) u
            (record {
              from_store = p.from_store;
              from_up = λ b h. elim (Bool-cases (a == b)) [
                | inl same ↦ let q : a ≡ b = ground (arith, same) in rw (← q) u
                | inr other ↦
                    p.from_up b (ground (arith, contains-append b s.replied (a ∷ []), h, other))
              ];
            }))
    | inr d ↦ let e : post r a ks ≡ none = (let e' = replies r a ks in rw d at e') in rw e p
  ]

  gather-Sound :
      (r : ℕ) (jobs : List (ℕ × List ℕ)) (missing : List ℕ) (s : Got)
      → Sound s
      → Sound (gather post completed r jobs missing s).1
  unfolding gather
  gather-Sound r [] missing s p = p
  gather-Sound r ((a, ks) ∷ jobs) missing s p =
      let (again, missing', s') = receive a (post r a ks) missing s in
      let q = receive-Sound r a ks missing s p in
      elim (Bool-cases again) [
        | inl more ↦ rw more (gather-Sound r jobs missing' s' q)
        | inr done ↦ rw done q
      ]

  pub fan-Sound :
      (r : ℕ) (route : ℕ → List ℕ) (lo hi : ℕ) (pending : List ℕ) (s : Got)
      → Sound s
      → Sound (fan post completed r route lo hi pending s).1
  unfolding fan
  fan-Sound r route lo hi pending s p = gather-Sound r _ pending s p
