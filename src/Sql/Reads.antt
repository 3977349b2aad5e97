-- ===== src/Sql/Reads.antt =====
-- What the readers of blindrange/sql.py leave of the tokens, and what they raise.
use blindrange.Prelude.{
  ℕ, ◌≤◌, ◌<◌, ◌≡◌, refl, Bool, true, false, [], ◌∷◌, if◌then◌else◌, length, String, str_eq, Option,
  none, some, Result, ok, raise, unsupported, key_error, inl, ◌⊎◌, Error, ◌>>=◌, arith,
}
use blindrange.Sql.{
  Tokens, str, num, kw, ident, op, next_kw, next_op, tail, eat_num, eat_str, eat_ident, eat_value,
  expect_op, expect_kw, done, Columns, Column, get_column, find,
}

-- A value that is returned is good, and what is raised is Unsupported.
abbrev pub Ensures {ℓ} : {A : Type ℓ} → (A → Type 0) → Result A → Type 0
Ensures P (ok a) = P a
Ensures P (raise x) = x ≡ unsupported

pub Ensures-bind {ℓ κ} :
    {A : Type ℓ} {B : Type κ} (P : A → Type 0) (Q : B → Type 0) (r : Result A) (f : A → Result B)
    → Ensures P r
    → ((a : A) → P a → Ensures Q (f a))
    → Ensures Q (r >>= f)
Ensures-bind P Q (ok a) f h g = g a h
Ensures-bind P Q (raise x) f h g = h

pub Ensures-if {ℓ} :
    {A : Type ℓ} (P : A → Type 0) (t : Bool) (x y : Result A)
    → (t ≡ true → Ensures P x)
    → (t ≡ false → Ensures P y)
    → Ensures P (if t then x else y)
Ensures-if P true x y f g = f refl
Ensures-if P false x y f g = g refl

pub Ensures-raises {ℓ} :
    {A : Type ℓ} (P : A → Type 0) (r : Result A) (x : Error)
    → Ensures P r
    → r ≡ raise x
    → x ≡ unsupported
Ensures-raises P (ok a) x h e = cc
Ensures-raises P (raise y) x h e = cc

-- A value that is returned is good, and what is raised is Unsupported or KeyError.
abbrev pub Reads {ℓ} : {A : Type ℓ} → (A → Type 0) → Result A → Type 0
Reads P (ok a) = P a
Reads P (raise x) = (x ≡ unsupported) ⊎ (x ≡ key_error)

pub Ensures-Reads {ℓ} : {A : Type ℓ} (P : A → Type 0) (r : Result A) → Ensures P r → Reads P r
Ensures-Reads P (ok a) h = h
Ensures-Reads P (raise x) h = inl h

pub Reads-then {ℓ κ} :
    {A : Type ℓ} {B : Type κ} (P : A → Type 0) (Q : B → Type 0) (r : Result A) (f : A → Result B)
    → Reads P r
    → ((a : A) → P a → Reads Q (f a))
    → Reads Q (r >>= f)
Reads-then P Q (ok a) f h g = g a h
Reads-then P Q (raise x) f h g = h

pub Reads-bind {ℓ κ} :
    {A : Type ℓ} {B : Type κ} (P : A → Type 0) (Q : B → Type 0) (r : Result A) (f : A → Result B)
    → Ensures P r
    → ((a : A) → P a → Reads Q (f a))
    → Reads Q (r >>= f)
Reads-bind P Q r f h g = Reads-then P Q r f (Ensures-Reads P r h) g

pub Reads-if {ℓ} :
    {A : Type ℓ} (P : A → Type 0) (t : Bool) (x y : Result A)
    → (t ≡ true → Reads P x)
    → (t ≡ false → Reads P y)
    → Reads P (if t then x else y)
Reads-if P true x y f g = f refl
Reads-if P false x y f g = g refl

-- Fewer than `n` tokens are left.
abbrev pub Below {ℓ} : {A : Type ℓ} → ℕ → A × Tokens → Type 0
Below n p = length p.1 < n

abbrev pub Left : ℕ → Tokens → Type 0
Left n ts = length ts < n

abbrev pub Anything {ℓ} : {A : Type ℓ} → A → Type 0
Anything a = Unit

pub next_kw-tail : (w : String) (ts : Tokens) → next_kw w ts ≡ true → length (tail ts) < length ts
next_kw-tail w [] h = cc
next_kw-tail w (t ∷ ts) h = omega arith

pub next_op-tail : (w : String) (ts : Tokens) → next_op w ts ≡ true → length (tail ts) < length ts
next_op-tail w [] h = cc
next_op-tail w (t ∷ ts) h = omega arith

pub eat_num-Ensures : (n : ℕ) (ts : Tokens) → length ts ≤ n → Ensures (Below n) (eat_num ts)
eat_num-Ensures n [] h = refl
eat_num-Ensures n (num v ∷ ts) h = omega (arith, h)
eat_num-Ensures n (str v ∷ ts) h = refl
eat_num-Ensures n (kw v ∷ ts) h = refl
eat_num-Ensures n (ident v ∷ ts) h = refl
eat_num-Ensures n (op v ∷ ts) h = refl

pub eat_str-Ensures : (n : ℕ) (ts : Tokens) → length ts ≤ n → Ensures (Below n) (eat_str ts)
eat_str-Ensures n [] h = refl
eat_str-Ensures n (str v ∷ ts) h = omega (arith, h)
eat_str-Ensures n (num v ∷ ts) h = refl
eat_str-Ensures n (kw v ∷ ts) h = refl
eat_str-Ensures n (ident v ∷ ts) h = refl
eat_str-Ensures n (op v ∷ ts) h = refl

pub eat_ident-Ensures : (n : ℕ) (ts : Tokens) → length ts ≤ n → Ensures (Below n) (eat_ident ts)
eat_ident-Ensures n [] h = refl
eat_ident-Ensures n (ident v ∷ ts) h = omega (arith, h)
eat_ident-Ensures n (num v ∷ ts) h = refl
eat_ident-Ensures n (kw v ∷ ts) h = refl
eat_ident-Ensures n (str v ∷ ts) h = refl
eat_ident-Ensures n (op v ∷ ts) h = refl

pub eat_value-Ensures : (n : ℕ) (ts : Tokens) → length ts ≤ n → Ensures (Below n) (eat_value ts)
unfolding eat_value
eat_value-Ensures n [] h = refl
eat_value-Ensures n (num v ∷ ts) h = omega (arith, h)
eat_value-Ensures n (str v ∷ ts) h = omega (arith, h)
eat_value-Ensures n (kw v ∷ ts) h = refl
eat_value-Ensures n (ident v ∷ ts) h = refl
eat_value-Ensures n (op v ∷ ts) h = refl

pub expect_kw-Ensures :
    (w : String) (n : ℕ) (ts : Tokens) → length ts ≤ n → Ensures (Left n) (expect_kw w ts)
expect_kw-Ensures w n ts h =
    Ensures-if (Left n) (next_kw w ts) _ _ (λ e. omega (arith, h, next_kw-tail w ts e)) (λ e. refl)

pub expect_op-Ensures :
    (w : String) (n : ℕ) (ts : Tokens) → length ts ≤ n → Ensures (Left n) (expect_op w ts)
expect_op-Ensures w n ts h =
    Ensures-if (Left n) (next_op w ts) _ _ (λ e. omega (arith, h, next_op-tail w ts e)) (λ e. refl)

pub done-Ensures : (ts : Tokens) → Ensures Anything (done ts)
unfolding done
done-Ensures [] = tt
done-Ensures (op o ∷ ts) = Ensures-if Anything (str_eq o ";") _ _ (λ e. done-Ensures ts) (λ e. refl)
done-Ensures (num v ∷ ts) = refl
done-Ensures (str v ∷ ts) = refl
done-Ensures (kw v ∷ ts) = refl
done-Ensures (ident v ∷ ts) = refl

pub get_column-Ensures : (c : String) (columns : Columns) → Ensures Anything (get_column c columns)
get_column-Ensures c columns = found (find c columns)
  where
    found :
        (o : Option Column)
        → Ensures Anything (elim o [ none ↦ raise unsupported | some column ↦ ok column ])
    found none = refl
    found (some column) = tt
