-- ===== src/Client/Fetch/Rounds.antt =====
-- A round of requests of `_mget_network`: what it learns of a key from an address that is up.
use mathlib.Core.Bool.{Bool-set}
use mathlib.Core.List.{Perm, foldr}
use mathlib.Core.List.Perm
use blindrange.Prelude.{
  ℕ, ◌≡◌, refl, sym, ap, ◌∙◌, Bool, true, false, ◌&&◌, ◌||◌, List, [], ◌∷◌, ◌==◌, any, contains,
  contains-append, is_empty, filter, has_key, has_key-assign, Bool-cases, inl, inr, arith,
}
use blindrange.Mirror.{Items}
use blindrange.Client.Fetch.{Got, ask, ask_each, slice, by_node, note_values}

-- The request to the address asks for the key.
abbrev pub asks : ℕ → ℕ → ℕ × List ℕ → Bool
asks a k (b, ks) = b == a && contains k ks

abbrev pub Asked : ℕ → ℕ → List (ℕ × List ℕ) → Type 0
Asked a k jobs = any (asks a k) jobs ≡ true

ask-asks : (a k : ℕ) (jobs : List (ℕ × List ℕ)) → Asked a k (ask a k jobs)
unfolding ask
ask-asks a k [] = ground arith
ask-asks a k ((b, ks) ∷ jobs) = ground (arith, ask-asks a k jobs, contains-append k ks (k ∷ []))

ask-keeps : (a k b j : ℕ) (jobs : List (ℕ × List ℕ)) → Asked b j jobs → Asked b j (ask a k jobs)
unfolding ask
ask-keeps a k b j [] h = cc
ask-keeps a k b j ((c, ks) ∷ jobs) h =
    ground (arith, ask-keeps a k b j jobs, contains-append j ks (k ∷ []))

pub ask_each-keeps :
    (k : ℕ) (addrs : List ℕ) (b j : ℕ) (jobs : List (ℕ × List ℕ))
    → Asked b j jobs
    → Asked b j (ask_each k addrs jobs)
unfolding ask_each
ask_each-keeps k [] b j jobs h = h
ask_each-keeps k (a ∷ addrs) b j jobs h =
    ask_each-keeps k addrs b j (ask a k jobs) (ask-keeps a k b j jobs h)

pub ask_each-asks :
    (k : ℕ) (addrs : List ℕ) (a : ℕ) (jobs : List (ℕ × List ℕ))
    → contains a addrs ≡ true
    → Asked a k (ask_each k addrs jobs)
unfolding ask_each
ask_each-asks k [] a jobs h = cc
ask_each-asks k (b ∷ addrs) a jobs h = elim (Bool-cases (b == a)) [
  | inl same ↦
      let e : b ≡ a = ground (arith, same) in
      rw e (ask_each-keeps k addrs a k (ask a k jobs) (ask-asks a k jobs))
  | inr other ↦ ask_each-asks k addrs a (ask b k jobs) (ground (arith, other, h))
]

by_node-keeps :
    (route : ℕ → List ℕ) (lo hi : ℕ) (pending : List ℕ) (b j : ℕ) (jobs : List (ℕ × List ℕ))
    → Asked b j jobs
    → Asked b j (by_node route lo hi pending jobs)
unfolding by_node
by_node-keeps route lo hi [] b j jobs h = h
by_node-keeps route lo hi (k ∷ pending) b j jobs h =
    by_node-keeps route lo hi pending b j _ (ask_each-keeps k (slice lo hi (route k)) b j jobs h)

-- Each pending key is asked for at each address of its slice.
pub by_node-asks :
    (route : ℕ → List ℕ) (lo hi : ℕ) (pending : List ℕ) (a k : ℕ) (jobs : List (ℕ × List ℕ))
    → contains k pending ≡ true
    → contains a (slice lo hi (route k)) ≡ true
    → Asked a k (by_node route lo hi pending jobs)
unfolding by_node
by_node-asks route lo hi [] a k jobs h at = cc
by_node-asks route lo hi (j ∷ pending) a k jobs h at = elim (Bool-cases (j == k)) [
  | inl same ↦
      let e : j ≡ k = ground (arith, same) in
      rw e (
        by_node-keeps route lo hi pending a k _ (ask_each-asks k (slice lo hi (route k)) a jobs at))
  | inr other ↦ by_node-asks route lo hi pending a k _ (ground (arith, other, h)) at
]

module _ {ℓ} {A : Type ℓ} (p : A → Bool) where
  any-foldr : (xs : List A) → any p xs ≡ foldr (λ x b. p x || b) false xs
  any-foldr [] = refl
  any-foldr (x ∷ xs) = ap (λ b. p x || b) (any-foldr xs)

  swap_tests : (x y : A) (b : Bool) → (p x || (p y || b)) ≡ (p y || (p x || b))
  swap_tests x y b = ground arith

  pub any-Perm : {xs ys : List A} → Perm xs ys → any p xs ≡ any p ys
  any-Perm {xs} {ys} h =
      any-foldr xs
      ∙ Perm.foldr-eq Bool-set (λ x b. p x || b) swap_tests h false
      ∙ sym (any-foldr ys)

-- Values that are noted are kept, and noted under their keys.
pub note_values-keeps :
    (a : ℕ) (vals : Items) (s : Got) (k : ℕ)
    → has_key s.out k ≡ true
    → has_key (note_values a vals s).out k ≡ true
unfolding note_values
note_values-keeps a [] s k h = h
note_values-keeps a ((j, v) ∷ vals) s k h =
    note_values-keeps a vals _ k (ground (arith, has_key-assign s.out j k v, h))

pub note_values-has :
    (a : ℕ) (vals : Items) (s : Got) (k : ℕ)
    → has_key vals k ≡ true
    → has_key (note_values a vals s).out k ≡ true
unfolding note_values
note_values-has a [] s k h = cc
note_values-has a ((j, v) ∷ vals) s k h = elim (Bool-cases (j == k)) [
  | inl same ↦ note_values-keeps a vals _ k (ground (arith, has_key-assign s.out j k v, same))
  | inr other ↦ note_values-has a vals _ k (ground (arith, other, h))
]

pub contains-filter :
    (p : ℕ → Bool) (xs : List ℕ) (x : ℕ) → contains x (filter p xs) ≡ (contains x xs && p x)
contains-filter p [] x = refl
contains-filter p (y ∷ xs) x = elim (Bool-cases (y == x)) [
  | inl same ↦ let e : y ≡ x = ground (arith, same) in rw e (ground (arith, contains-filter p xs x))
  | inr other ↦ ground (arith, contains-filter p xs x, other)
]

pub not_empty : (xs : List ℕ) (x : ℕ) → contains x xs ≡ true → is_empty xs ≡ false
not_empty [] x h = cc
not_empty (y ∷ xs) x h = refl
