-- ===== src/Tests/Merging.antt =====
-- A merge of streams, for the runs of blindrange/sharded.py: it sorts all the rows by insertion.
use mathlib.Core.List.{Perm}
use mathlib.Core.List.Perm
use blindrange.Prelude.{
  ℕ, ◌≡◌, Bool, true, false, List, [], ◌∷◌, if◌then◌else◌, All, Bool-cases, inl, inr, arith,
}
use blindrange.Sharded.Streams.{concat}
use blindrange.Sharded.Streams.Merge.{IsSorted, in_order, Merges}

module _ {A : Type 0} (key : A → ℕ) (falling : Bool) where
  unfoldable pub put_in_order : A → List A → List A
  put_in_order x [] = x ∷ []
  put_in_order x (y ∷ ys) =
      let rest = put_in_order x ys in if in_order key falling x y then x ∷ y ∷ ys else y ∷ rest

  unfoldable pub sorted : List A → List A
  unfolding put_in_order
  sorted [] = []
  sorted (x ∷ xs) = put_in_order x (sorted xs)

  total : (x y : A) → in_order key falling x y ≡ false → in_order key falling y x ≡ true
  total x y h = ground arith

  All-before :
      (x y : A) (ys : List A)
      → in_order key falling x y ≡ true
      → All (λ z. in_order key falling y z ≡ true) ys
      → All (λ z. in_order key falling x z ≡ true) ys
  All-before x y [] h hs = tt
  All-before x y (z ∷ ys) h (hz, hs) = (ground (arith, h, hz), All-before x y ys h hs)

  All-put_in_order :
      (w x : A) (ys : List A)
      → in_order key falling w x ≡ true
      → All (λ z. in_order key falling w z ≡ true) ys
      → All (λ z. in_order key falling w z ≡ true) (put_in_order x ys)
  unfolding put_in_order
  All-put_in_order w x [] h hs = (h, tt)
  All-put_in_order w x (y ∷ ys) h (hy, hs) = elim (Bool-cases (in_order key falling x y)) [
    | inl here ↦ rw here (h, (hy, hs))
    | inr later ↦ rw later (hy, All-put_in_order w x ys h hs)
  ]

  put_in_order-IsSorted :
      (x : A) (ys : List A)
      → IsSorted (in_order key falling) ys
      → IsSorted (in_order key falling) (put_in_order x ys)
  unfolding put_in_order
  put_in_order-IsSorted x [] h = (tt, tt)
  put_in_order-IsSorted x (y ∷ ys) (h, hs) = elim (Bool-cases (in_order key falling x y)) [
    | inl here ↦ rw here ((here, All-before x y ys here h), (h, hs))
    | inr later ↦
        rw later (All-put_in_order y x ys (total x y later) h, put_in_order-IsSorted x ys hs)
  ]

  put_in_order-Perm : (x : A) (ys : List A) → Perm (put_in_order x ys) (x ∷ ys)
  unfolding put_in_order
  put_in_order-Perm x [] = Perm.refl (x ∷ [])
  put_in_order-Perm x (y ∷ ys) = elim (Bool-cases (in_order key falling x y)) [
    | inl here ↦ rw here (Perm.refl (x ∷ y ∷ ys))
    | inr later ↦ rw later (Perm.trans (Perm.cons y (put_in_order-Perm x ys)) (Perm.swap x y ys))
  ]

  sorted-IsSorted : (xs : List A) → IsSorted (in_order key falling) (sorted xs)
  unfolding sorted
  sorted-IsSorted [] = tt
  sorted-IsSorted (x ∷ xs) = put_in_order-IsSorted x (sorted xs) (sorted-IsSorted xs)

  sorted-Perm : (xs : List A) → Perm (sorted xs) xs
  unfolding sorted
  sorted-Perm [] = Perm.refl []
  sorted-Perm (x ∷ xs) = Perm.trans (put_in_order-Perm x (sorted xs)) (Perm.cons x (sorted-Perm xs))

abbrev pub merging : {A : Type 0} → (A → ℕ) → Bool → List (List A) → List A
merging key reverse streams = sorted key reverse (concat streams)

pub merging-Merges : {A : Type 0} → Merges {A = A} merging
merging-Merges = record {
  merge_law = λ key reverse streams h.
      (sorted-Perm key reverse (concat streams), sorted-IsSorted key reverse (concat streams));
}
