-- ===== src/Prelude/Sets.antt =====
-- Lists of numbers read as sets: membership as a test, and lists without repetition.
use Prim.Native.Nat.{ℕ, suc, ◌≤◌}
use mathlib.Core.Path.{◌≡◌, refl}
use mathlib.Core.Bool.{Bool, ◌||◌, true, false}
use mathlib.Core.List.{List, [], ◌∷◌, ◌++◌}
use native.Mathlib.Omega.{arith}
use blindrange.Prelude.Lists.{length, any, All}
use blindrange.Prelude.Tests.{◌==◌, if◌then◌else◌}

abbrev pub contains : ℕ → List ℕ → Bool
contains x ys = any (λ y. y == x) ys

abbrev pub Distinct : List ℕ → Type 0
Distinct [] = Unit
Distinct (x ∷ xs) = (contains x xs ≡ false) × Distinct xs

pub contains-append :
    (x : ℕ) (ys zs : List ℕ) → contains x (ys ++ zs) ≡ (contains x ys || contains x zs)
contains-append x [] zs = refl
contains-append x (y ∷ ys) zs = ground (arith, contains-append x ys zs)

pub Distinct-snoc :
    (xs : List ℕ) (x : ℕ) → Distinct xs → contains x xs ≡ false → Distinct (xs ++ x ∷ [])
Distinct-snoc [] x d h = (refl, tt)
Distinct-snoc (y ∷ xs) x (dy, d) h =
    (ground (arith, contains-append y xs (x ∷ [])), Distinct-snoc xs x d (ground arith))

-- The list without the first `x`.
abbrev remove : ℕ → List ℕ → List ℕ
remove x [] = []
remove x (y ∷ ys) = if y == x then ys else y ∷ remove x ys

length-remove :
    (x : ℕ) (ys : List ℕ) → contains x ys ≡ true → suc (length (remove x ys)) ≡ length ys
length-remove x [] h = cc
length-remove x (y ∷ ys) h = ground (arith, length-remove x ys)

contains-remove :
    (x z : ℕ) (ys : List ℕ)
    → contains z ys ≡ true
    → (z == x) ≡ false
    → contains z (remove x ys) ≡ true
contains-remove x z [] h n = h
contains-remove x z (y ∷ ys) h n = ground (arith, contains-remove x z ys)

All-remove :
    (x : ℕ) (xs ys : List ℕ)
    → contains x xs ≡ false
    → All (λ z. contains z ys ≡ true) xs
    → All (λ z. contains z (remove x ys) ≡ true) xs
All-remove x [] ys n h = tt
All-remove x (z ∷ xs) ys n (h, hs) =
    (contains-remove x z ys h (ground arith), All-remove x xs ys (ground arith) hs)

-- A list without repetition is not longer than one that has all its members.
pub Distinct-length :
    (xs ys : List ℕ) → Distinct xs → All (λ z. contains z ys ≡ true) xs → length xs ≤ length ys
Distinct-length [] ys d h = omega arith
Distinct-length (x ∷ xs) ys (dx, d) (h, hs) =
    omega
      (arith, length-remove x ys h, Distinct-length xs (remove x ys) d (All-remove x xs ys dx hs))
