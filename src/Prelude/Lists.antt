-- ===== src/Prelude/Lists.antt =====
-- Lists measured and indexed by native numbers, under the library's names.
use Prim.Native.Nat.{ℕ, zero, suc, ◌+◌, ◌-◌, ◌<◌, ◌≤◌, min}
use mathlib.Core.Path.{◌≡◌, refl, ap, sym, ◌∙◌}
use mathlib.Core.Bool.{Bool, ◌&&◌, ◌||◌, true, false}
use mathlib.Core.List.{List, [], ◌∷◌, ◌++◌}
use mathlib.Core.Option.{Option, none, some}
use native.Mathlib.Nat.{zero-add, suc-add}
use native.Mathlib.Omega.{arith}
use blindrange.Prelude.Tests.{if◌then◌else◌}

module _ {ℓ} {A : Type ℓ} where
  abbrev pub length : List A → ℕ
  length [] = 0
  length (x ∷ xs) = suc (length xs)

  abbrev pub get_elem? : List A → ℕ → Option A
  get_elem? [] i = none
  get_elem? (x ∷ xs) zero = some x
  get_elem? (x ∷ xs) (suc i) = get_elem? xs i

  abbrev pub take : ℕ → List A → List A
  take zero xs = []
  take (suc n) [] = []
  take (suc n) (x ∷ xs) = x ∷ take n xs

  abbrev pub drop : ℕ → List A → List A
  drop zero xs = xs
  drop (suc n) [] = []
  drop (suc n) (x ∷ xs) = drop n xs

  pub length-append : (xs ys : List A) → length (xs ++ ys) ≡ length xs + length ys
  length-append [] ys = omega arith
  length-append (x ∷ xs) ys = omega (arith, length-append xs ys)

  pub length-take : (n : ℕ) (xs : List A) → length (take n xs) ≡ min n (length xs)
  length-take zero xs = omega arith
  length-take (suc n) [] = omega arith
  length-take (suc n) (x ∷ xs) = omega (arith, length-take n xs)

  pub length-drop : (n : ℕ) (xs : List A) → length (drop n xs) ≡ length xs - n
  length-drop zero xs = omega arith
  length-drop (suc n) [] = omega arith
  length-drop (suc n) (x ∷ xs) = omega (arith, length-drop n xs)

  pub take-append-drop : (n : ℕ) (xs : List A) → take n xs ++ drop n xs ≡ xs
  take-append-drop zero xs = refl
  take-append-drop (suc n) [] = refl
  take-append-drop (suc n) (x ∷ xs) = ap (◌∷◌ x) (take-append-drop n xs)

-- The numbers `i`, `i + 1`, …, `n` of them: Python's `range(i, i + n)`.
abbrev pub range_from : ℕ → ℕ → List ℕ
range_from i zero = []
range_from i (suc n) = i ∷ range_from (suc i) n

abbrev pub sum : List ℕ → ℕ
sum [] = 0
sum (x ∷ xs) = x + sum xs

pub sum-append : (xs ys : List ℕ) → sum (xs ++ ys) ≡ sum xs + sum ys
sum-append [] ys = omega arith
sum-append (x ∷ xs) ys = omega (arith, sum-append xs ys)

abbrev pub All {ℓ κ} : {A : Type ℓ} → (A → Type κ) → List A → Type κ
All P [] = Unit
All P (x ∷ xs) = P x × All P xs

pub All-append {ℓ κ} :
    {A : Type ℓ} (P : A → Type κ) (xs ys : List A) → All P xs → All P ys → All P (xs ++ ys)
All-append P [] ys hx hy = hy
All-append P (x ∷ xs) ys hx hy = (hx.0, All-append P xs ys hx.1 hy)

-- `any(...)` and `all(...)` of the source.
abbrev pub is_empty {ℓ} : {A : Type ℓ} → List A → Bool
is_empty [] = true
is_empty (x ∷ xs) = false

-- `[x for x in xs if p(x)]`
abbrev pub filter {ℓ} : {A : Type ℓ} → (A → Bool) → List A → List A
filter p [] = []
filter p (x ∷ xs) = let rest = filter p xs in if p x then x ∷ rest else rest

abbrev pub any {ℓ} : {A : Type ℓ} → (A → Bool) → List A → Bool
any p [] = false
any p (x ∷ xs) = p x || any p xs

abbrev pub all {ℓ} : {A : Type ℓ} → (A → Bool) → List A → Bool
all p [] = true
all p (x ∷ xs) = p x && all p xs

module _ {ℓ} {A : Type ℓ} where
  pub get_elem?-take : (k m : ℕ) (xs : List A) → m < k → get_elem? (take k xs) m ≡ get_elem? xs m
  get_elem?-take zero m xs h = elim h [ ]
  get_elem?-take (suc k) m [] h = refl
  get_elem?-take (suc k) zero (x ∷ xs) h = refl
  get_elem?-take (suc k) (suc m) (x ∷ xs) h = get_elem?-take k m xs (omega arith)

  pub get_elem?-drop : (k m : ℕ) (xs : List A) → get_elem? (drop k xs) m ≡ get_elem? xs (k + m)
  get_elem?-drop zero m xs = rw zero-add
  get_elem?-drop (suc k) m [] = refl
  get_elem?-drop (suc k) m (x ∷ xs) = rw suc-add (get_elem?-drop k m xs)

  take-nil : (k : ℕ) → take {A = A} k [] ≡ []
  take-nil zero = refl
  take-nil (suc k) = refl

  pub take-take : (j k : ℕ) (xs : List A) → j ≤ k → take j (take k xs) ≡ take j xs
  take-take zero k xs h = refl
  take-take (suc j) zero xs h = absurd (omega arith)
  take-take (suc j) (suc k) [] h = refl
  take-take (suc j) (suc k) (x ∷ xs) h = ap (◌∷◌ x) (take-take j k xs (omega arith))

  pub drop-take : (j k : ℕ) (xs : List A) → drop j (take k xs) ≡ take (k - j) (drop j xs)
  drop-take zero k xs = let e : k ≡ k - 0 = omega arith in ap (λ (t : ℕ). take t xs) e
  drop-take (suc j) zero xs =
      let e : 0 ≡ 0 - suc j = omega arith in ap (λ (t : ℕ). take t (drop (suc j) xs)) e
  drop-take (suc j) (suc k) [] = sym (take-nil (suc k - suc j))
  drop-take (suc j) (suc k) (x ∷ xs) =
      let e : k - j ≡ suc k - suc j = omega arith in
      drop-take j k xs ∙ ap (λ (t : ℕ). take t (drop j xs)) e

  pub take_all : (k : ℕ) (xs : List A) → k ≡ length xs → take k xs ≡ xs
  take_all zero [] e = refl
  take_all (suc k) [] e = refl
  take_all zero (x ∷ xs) e = absurd (omega arith)
  take_all (suc k) (x ∷ xs) e = ap (◌∷◌ x) (take_all k xs (omega arith))

  pub get_elem?-some : (m : ℕ) (xs : List A) {x : A} → get_elem? xs m ≡ some x → m < length xs
  get_elem?-some m [] h = cc
  get_elem?-some zero (x ∷ xs) h = omega arith
  get_elem?-some (suc m) (x ∷ xs) h = omega (arith, get_elem?-some m xs h)
