-- ===== src/Client/Fetch/Attempts.antt =====
-- The phases and the attempts of `_mget_network`: each key keeps a route that the ring gave for it, at
-- each address of which it is settled.
use mathlib.Core.List.{Perm}
use blindrange.Prelude.{
  ℕ, zero, suc, ◌+◌, ◌≤◌, ◌≡◌, refl, sym, ap, ◌∙◌, Bool, true, false, ◌||◌, List, [], ◌∷◌,
  if◌then◌else◌, contains, contains-append, is_empty, has_key, Option, some, none, Bool-cases, inl,
  inr, ◌⊎◌, length, take, drop, take-take, take-append-drop, leb, arith,
}
use blindrange.Mirror.{Items}
use blindrange.Client.Fetch.{Got, slice, fan, unresolved, reroute, retry, nothing, two_phases}
use blindrange.Client.Fetch.Rounds.{not_empty}
use blindrange.Client.Fetch.Settled.{found, Settled, fan-settles, fan-keeps, fan-missing}
use blindrange.Client.Fetch.Sound.{Sound, fan-Sound}

take_long {ℓ} : {A : Type ℓ} (k : ℕ) (xs : List A) → length xs ≤ k → take k xs ≡ xs
take_long zero [] h = refl
take_long zero (x ∷ xs) h = absurd (omega arith)
take_long (suc k) [] h = refl
take_long (suc k) (x ∷ xs) h = ap (◌∷◌ x) (take_long k xs (omega arith))

contains-slices :
    (a n m : ℕ) (xs : List ℕ)
    → length xs ≤ n + m
    → contains a xs ≡ (contains a (slice 0 n xs) || contains a (slice n (n + m) xs))
contains-slices a n m xs h =
    ap (contains a) (sym (take_long (n + m) xs h) ∙ sym (take-append-drop n (take (n + m) xs)))
    ∙ contains-append a (take n (take (n + m) xs)) (drop n (take (n + m) xs))
    ∙ ap (λ t. contains a t || contains a (slice n (n + m) xs))
        (take-take n (n + m) xs (omega arith))

contains-all :
    (a n : ℕ) (xs : List ℕ)
    → length xs ≤ n
    → contains a xs ≡ true
    → contains a (slice 0 n xs) ≡ true
contains-all a n xs h at = ap (contains a) (take_long n xs h) ∙ at

module _ (post : ℕ → ℕ → List ℕ → Option Items)
    (completed : ℕ → List (ℕ × List ℕ) → List (ℕ × List ℕ))
    (all_complete : (r : ℕ) (jobs : List (ℕ × List ℕ)) → Perm (completed r jobs) jobs)
    (up : ℕ → Bool) (stored : ℕ → ℕ → Option ℕ)
    (replies : (r a : ℕ) (ks : List ℕ)
      → post r a ks ≡ (if up a then some (found (stored a) ks) else none))
    (routes : ℕ → ℕ → List ℕ) (R write_acks : ℕ) (keys : List ℕ)
    (short : (t k : ℕ) → length (routes t k) ≤ R + 3) where
  abbrev pub Done : ℕ → ℕ → Got → Type 0
  Done a k s = Settled post completed all_complete up stored replies a k s

  abbrev pub Stored : Got → Type 0
  Stored s = Sound post completed all_complete up stored replies s

  abbrev round : ℕ → (ℕ → List ℕ) → ℕ → ℕ → List ℕ → Got → List ℕ × Got
  round r route lo hi pending s = fan post completed r route lo hi pending s

  abbrev asked_all :
      (r : ℕ) (route : ℕ → List ℕ) (lo hi : ℕ) (pending : List ℕ) (s : Got) (a k : ℕ)
      → contains k pending ≡ true
      → contains a (slice lo hi (route k)) ≡ true
      → up a ≡ true
      → Done a k (round r route lo hi pending s).1
  asked_all = fan-settles post completed all_complete up stored replies

  abbrev kept :
      (r : ℕ) (route : ℕ → List ℕ) (lo hi : ℕ) (pending : List ℕ) (s : Got) (a k : ℕ)
      → Done a k s
      → Done a k (round r route lo hi pending s).1
  kept = fan-keeps post completed all_complete up stored replies

  -- The route of the key is one that the ring gave, and the key is settled at each address of it.
  pub record Round (route : ℕ → List ℕ) (s : Got) (k : ℕ) : Type 0 where
    pub t : ℕ
    pub same : route k ≡ routes t k
    pub settles : (a : ℕ) → contains a (route k) ≡ true → up a ≡ true → Done a k s

  abbrev missed : List ℕ
  missed = (round 0 (routes 0) 0 R keys nothing).0

  first_missing :
      (k : ℕ)
      → contains k keys ≡ true
      → (has_key (round 0 (routes 0) 0 R keys nothing).1.out k ≡ true) ⊎ (contains k missed ≡ true)
  first_missing k h =
      fan-missing post completed all_complete up stored replies 0 (routes 0) 0 R keys nothing k h

  second_phase :
      (k a : ℕ)
      → contains k keys ≡ true
      → contains a (routes 0 k) ≡ true
      → up a ≡ true
      → Done a k (round 1 (routes 0) R (R + 3) missed (round 0 (routes 0) 0 R keys nothing).1).1
  second_phase k a h at u = elim (Bool-cases (contains a (slice 0 R (routes 0 k)))) [
    | inl early ↦
        kept 1 (routes 0) R (R + 3) missed _ a k
          (asked_all 0 (routes 0) 0 R keys nothing a k h early u)
    | inr late ↦
        let later : contains a (slice R (R + 3) (routes 0 k)) ≡ true =
          ground (arith, contains-slices a R 3 (routes 0 k) (short 0 k), at, late) in
        elim (first_missing k h) [
          | inl has ↦ kept 1 (routes 0) R (R + 3) missed _ a k (inl has)
          | inr left ↦ asked_all 1 (routes 0) R (R + 3) missed _ a k left later u
        ]
  ]

  pub two_phases-Round :
      (k : ℕ)
      → contains k keys ≡ true
      → Round (routes 0) (two_phases post completed routes R write_acks keys) k
  unfolding two_phases
  two_phases-Round k h = record {
    t = 0;
    same = refl;
    settles = λ a at u. elim (Bool-cases (is_empty missed)) [
      | inl none_left ↦ rw none_left (elim (first_missing k h) [
        | inl has ↦ inl has
        | inr left ↦ let bad = sym none_left ∙ not_empty missed k left in cc
      ])
      | inr some_left ↦ rw some_left (second_phase k a h at u)
    ];
  }

  nothing-Sound : Stored nothing
  nothing-Sound = record { from_store = λ k v e. cc; from_up = λ a e. cc }

  pub two_phases-Sound : Stored (two_phases post completed routes R write_acks keys)
  unfolding two_phases
  two_phases-Sound =
      let one =
        fan-Sound post completed all_complete up stored replies 0 (routes 0) 0 R keys nothing
          nothing-Sound in
      elim (Bool-cases (is_empty missed)) [
        | inl none_left ↦ rw none_left one
        | inr some_left ↦ rw some_left (
            fan-Sound post completed all_complete up stored replies 1 (routes 0) R (R + 3) missed _
              one)
      ]

  -- One attempt: the keys that are stuck are asked for again, along a new route but for the first.
  attempt-Round :
      (r t : ℕ) (again : Bool) (stuck : List ℕ) (route : ℕ → List ℕ) (s : Got) (k : ℕ)
      → Round route s k
      → (let route' = if again then reroute stuck (routes t) route else route in
          Round route' (round r route' 0 (R + 3) stuck s).1 k)
  attempt-Round r t false stuck route s k p = record {
    t = p.t;
    same = p.same;
    settles = λ a at u. kept r route 0 (R + 3) stuck s a k (p.settles a at u);
  }
  attempt-Round r t true stuck route s k p = elim (Bool-cases (contains k stuck)) [
    | inl is_stuck ↦
        let here : reroute stuck (routes t) route k ≡ routes t k =
          (unfold reroute in rw is_stuck refl) in
        record {
          t = t;
          same = here;
          settles = λ a at u.
              asked_all r (reroute stuck (routes t) route) 0 (R + 3) stuck s a k is_stuck
                (rw here (contains-all a (R + 3) (routes t k) (short t k) (rw here at at))) u;
        }
    | inr settled ↦
        let here : reroute stuck (routes t) route k ≡ route k =
          (unfold reroute in rw settled refl) in
        record {
          t = p.t;
          same = here ∙ p.same;
          settles = λ a at u.
              kept r (reroute stuck (routes t) route) 0 (R + 3) stuck s a k
                (p.settles a (rw here at at) u);
        }
  ]

  pub retry-Round :
      (n attempt : ℕ) (route : ℕ → List ℕ) (s : Got) (k : ℕ)
      → Round route s k
      → (let (route', s') = retry post completed routes R write_acks keys n attempt route s in
          Round route' s' k)
  unfolding retry
  retry-Round zero attempt route s k p = p
  retry-Round (suc n) attempt route s k p =
      let stuck = unresolved R write_acks keys route s in
      elim (Bool-cases (is_empty stuck)) [
        | inl over ↦ rw over p
        | inr more ↦ rw more (
            retry-Round n (suc attempt) _ _ k
              (attempt-Round (attempt + 2) attempt (leb 1 attempt) stuck route s k p))
      ]

  pub retry-Sound :
      (n attempt : ℕ) (route : ℕ → List ℕ) (s : Got)
      → Stored s
      → Stored (retry post completed routes R write_acks keys n attempt route s).1
  unfolding retry
  retry-Sound zero attempt route s p = p
  retry-Sound (suc n) attempt route s p =
      let stuck = unresolved R write_acks keys route s in
      let route' = if leb 1 attempt then reroute stuck (routes attempt) route else route in
      elim (Bool-cases (is_empty stuck)) [
        | inl over ↦ rw over p
        | inr more ↦ rw more (
            retry-Sound n (suc attempt) _ _ (
              fan-Sound post completed all_complete up stored replies (attempt + 2) route' 0 (R + 3)
                stuck s p))
      ]
