-- ===== src/Sql/Where/Raises.antt =====
-- The WHERE clause of blindrange/sql.py raises Unsupported or KeyError only, and its rounds are enough.
use blindrange.Prelude.{
  ℕ, zero, suc, ◌+◌, ◌≤◌, ◌<◌, ◌≡◌, refl, Bool, true, false, any, length, String, str_eq, Option,
  none, some, Result, ok, raise, unsupported, ◌>>=◌, inl, inr, arith,
}
use blindrange.Sql.{
  Text, Tokens, next_kw, next_op, tail, eat_num, eat_str, eat_ident, eat_value, expect_op,
  expect_kw, refused, Column, key, stored, int, text_column, Columns, get_column,
}
use blindrange.Sql.Reads.{
  Ensures, Reads, Reads-then, Reads-bind, Reads-if, Below, Left, Anything, next_kw-tail,
  next_op-tail, eat_num-Ensures, eat_str-Ensures, eat_ident-Ensures, eat_value-Ensures,
  expect_op-Ensures, expect_kw-Ensures, get_column-Ensures,
}
use blindrange.Sql.Where.{
  Narrowed, narrow, prefix, like_prefix, like_pattern, equality, comparison, on_key, on_column,
  condition, conditions, where_clause, nothing_narrowed,
}

narrow-Reads :
    (c : String) (lo end : Option ℕ) (spec : Column) (s : Narrowed)
    → Reads Anything (narrow c lo end spec s)
unfolding narrow
narrow-Reads c lo end (int bits blur) s = tt
narrow-Reads c lo end key s = inl refl
narrow-Reads c lo end stored s = inl refl
narrow-Reads c lo end (text_column chars blur) s = inl refl

prefix-Reads :
    (c : String) (v : Text) (spec : Column) (exact : Bool) (s : Narrowed)
    → Reads Anything (prefix c v spec exact s)
unfolding prefix
prefix-Reads c v (int bits blur) exact s = inr refl
prefix-Reads c v key exact s = inr refl
prefix-Reads c v stored exact s = inr refl
prefix-Reads c v (text_column chars blur) exact s =
    Reads-if Anything (any (λ p. str_eq p.0 c) s.prefixes) _ _ (λ e. inl refl) (λ e. tt)

like_pattern-Ensures : (pat : Text) → Ensures Anything (like_pattern pat)
unfolding like_pattern like_prefix
like_pattern-Ensures pat = found (like_prefix pat)
  where
    found :
        (o : Option Text) → Ensures Anything (elim o [ none ↦ raise unsupported | some s ↦ ok s ])
    found none = refl
    found (some s) = tt

-- A result together with the tokens that are left.
pub keep {ℓ} :
    {A : Type ℓ} (n : ℕ) (r : Result A) (t : Tokens)
    → Reads Anything r
    → length t < n
    → Reads (Below n) (r >>= λ x. ok (x, t))
keep n r t h less = Reads-then Anything (Below n) r _ h (λ x tt'. less)

-- A number, and a bound that is made of it.
bound-Reads :
    (c : String) (lo end : ℕ → Option ℕ) (spec : Column) (s : Narrowed) (n : ℕ) (ts : Tokens)
    → length ts ≤ n
    → Reads (Below n) (eat_num ts >>= λ (v, t1). narrow c (lo v) (end v) spec s >>= λ r. ok (r, t1))
bound-Reads c lo end spec s n ts h =
    Reads-bind (Below n) (Below n) (eat_num ts) _ (eat_num-Ensures n ts h)
      (λ p less. keep n _ p.1 (narrow-Reads c (lo p.0) (end p.0) spec s) less)

text-Reads :
    (c : String) (spec : Column) (s : Narrowed) (n : ℕ) (ts : Tokens)
    → length ts ≤ n
    → Reads (Below n) (eat_str ts >>= λ (v, t1). prefix c v spec true s >>= λ r. ok (r, t1))
text-Reads c spec s n ts h =
    Reads-bind (Below n) (Below n) (eat_str ts) _ (eat_str-Ensures n ts h)
      (λ p less. keep n _ p.1 (prefix-Reads c p.0 spec true s) less)

equality-Reads :
    (c : String) (s : Narrowed) (spec : Column) (n : ℕ) (ts : Tokens)
    → length ts ≤ n
    → Reads (Below n) (equality c s spec ts)
unfolding equality
equality-Reads c s (int bits blur) n ts h =
    bound-Reads c (λ v. some v) (λ v. some (v + 1)) (int bits blur) s n ts h
equality-Reads c s key n ts h = text-Reads c key s n ts h
equality-Reads c s stored n ts h = text-Reads c stored s n ts h
equality-Reads c s (text_column chars blur) n ts h = text-Reads c (text_column chars blur) s n ts h

between-Reads :
    (c : String) (spec : Column) (s : Narrowed) (n : ℕ) (ts : Tokens)
    → length ts ≤ n
    → Reads (Below n) (
        eat_num ts >>= λ (lo, t1). expect_kw "AND" t1 >>= λ t2.
        eat_num t2 >>= λ (hi, t3). narrow c (some lo) (some (hi + 1)) spec s >>= λ r. ok (r, t3))
between-Reads c spec s n ts h =
    Reads-bind (Below n) (Below n) (eat_num ts) _ (eat_num-Ensures n ts h) (λ p l1.
      Reads-bind (Left n) (Below n) (expect_kw "AND" p.1) _
        (expect_kw-Ensures "AND" n p.1 (omega (arith, l1)))
        (λ t2 l2.
          bound-Reads c (λ v. some p.0) (λ v. some (v + 1)) spec s n t2 (omega (arith, l2))))

like-Reads :
    (c : String) (spec : Column) (s : Narrowed) (n : ℕ) (ts : Tokens)
    → length ts ≤ n
    → Reads (Below n) (
        eat_str ts >>= λ (pat, t1).
        like_pattern pat >>= λ value. prefix c value spec false s >>= λ r. ok (r, t1))
like-Reads c spec s n ts h =
    Reads-bind (Below n) (Below n) (eat_str ts) _ (eat_str-Ensures n ts h) (λ p less.
      Reads-bind Anything (Below n) (like_pattern p.0) _ (like_pattern-Ensures p.0)
        (λ v any'. keep n _ p.1 (prefix-Reads c v spec false s) less))

comparison-Reads :
    (c : String) (spec : Column) (s : Narrowed) (n : ℕ) (ts : Tokens)
    → length ts ≤ n
    → Reads (Below n) (comparison c spec s ts)
unfolding comparison
comparison-Reads c spec s n ts h =
    let word = λ (w : String) (e : next_kw w ts ≡ true). less (next_kw-tail w ts e) in
    let sign = λ (o : String) (e : next_op o ts ≡ true). less (next_op-tail o ts e) in
    Reads-if (Below n) (next_kw "BETWEEN" ts) _ _
      (λ e. between-Reads c spec s n (tail ts) (word "BETWEEN" e))
      (λ e.
        Reads-if (Below n) (next_kw "LIKE" ts) _ _
          (λ e. like-Reads c spec s n (tail ts) (word "LIKE" e))
          (λ e.
            Reads-if (Below n) (next_op "=" ts) _ _
              (λ e. equality-Reads c s spec n (tail ts) (sign "=" e))
              (λ e.
                Reads-if (Below n) (next_op ">=" ts) _ _
                  (λ e. bound-Reads c (λ v. some v) (λ v. none) spec s n (tail ts) (sign ">=" e))
                  (λ e.
                    Reads-if (Below n) (next_op ">" ts) _ _
                      (λ e.
                        bound-Reads c (λ v. some (v + 1)) (λ v. none) spec s n (tail ts)
                          (sign ">" e))
                      (λ e.
                        Reads-if (Below n) (next_op "<=" ts) _ _
                          (λ e.
                            bound-Reads c (λ v. none) (λ v. some (v + 1)) spec s n (tail ts)
                              (sign "<=" e))
                          (λ e.
                            Reads-if (Below n) (next_op "<" ts) _ _
                              (λ e.
                                bound-Reads c (λ v. none) (λ v. some v) spec s n (tail ts)
                                  (sign "<" e))
                              (λ e. inl refl)))))))
  where
    less : length (tail ts) < length ts → length (tail ts) ≤ n
    less l = omega (arith, h, l)

module _ (key_bucket : String → Text → ℕ) (meta : Columns) where
  on_key-Reads :
      (c : String) (s : Narrowed) (n : ℕ) (ts : Tokens)
      → length ts ≤ n
      → Reads (Below n) (on_key key_bucket meta c s ts)
  unfolding on_key narrow
  on_key-Reads c s n ts h =
      Reads-bind (Left n) (Below n) (expect_op "=" ts) _ (expect_op-Ensures "=" n ts h) (λ t1 l1.
        Reads-bind (Below n) (Below n) (eat_value t1) _ (eat_value-Ensures n t1 (omega (arith, l1)))
          (λ p l2. l2))

  on_column-Reads :
      (c : String) (spec : Column) (s : Narrowed) (n : ℕ) (ts : Tokens)
      → length ts ≤ n
      → Reads (Below n) (on_column key_bucket meta c spec s ts)
  unfolding on_column
  on_column-Reads c key s n ts h = on_key-Reads c s n ts h
  on_column-Reads c stored s n ts h = inl refl
  on_column-Reads c (int bits blur) s n ts h = comparison-Reads c (int bits blur) s n ts h
  on_column-Reads c (text_column chars blur) s n ts h =
      comparison-Reads c (text_column chars blur) s n ts h

  condition-Reads :
      (s : Narrowed) (n : ℕ) (ts : Tokens)
      → length ts ≤ n
      → Reads (Below n) (condition key_bucket meta s ts)
  unfolding condition
  condition-Reads s n ts h =
      Reads-if (Below n) (refused ts) _ _ (λ e. inl refl)
        (λ e. Reads-bind (Below n) (Below n) (eat_ident ts) _ (eat_ident-Ensures n ts h) (λ p l.
          Reads-bind Anything (Below n) (get_column p.0 meta) _ (get_column-Ensures p.0 meta)
            (λ spec any'. on_column-Reads p.0 spec s n p.1 (omega (arith, l)))))

  conditions-Reads :
      (f : ℕ) (s : Narrowed) (ts : Tokens)
      → length ts < f
      → Reads (Below (length ts)) (conditions key_bucket meta f s ts)
  unfolding conditions
  conditions-Reads zero s ts h = absurd (omega (arith, h))
  conditions-Reads (suc f) s ts h =
      Reads-then (Below (length ts)) (Below (length ts)) (condition key_bucket meta s ts) _
        (condition-Reads s (length ts) ts (omega arith))
        (λ p l.
          again p l (next_kw "AND" p.1) (next_kw-tail "AND" p.1)
            (conditions-Reads f p.0 (tail p.1)))
    where
      again :
          (p : Narrowed × Tokens)
          → length p.1 < length ts
          → (t : Bool) → (t ≡ true → length (tail p.1) < length p.1)
          → (length (tail p.1) < f
              → Reads (Below (length (tail p.1))) (conditions key_bucket meta f p.0 (tail p.1)))
          → Reads (Below (length ts)) (elim t [
            | true ↦ conditions key_bucket meta f p.0 (tail p.1)
            | false ↦ ok (p.0, p.1)
          ])
      again p l false e ih = l
      again p l true e ih =
          let shorter = e refl in
          weaker (conditions key_bucket meta f p.0 (tail p.1)) (length (tail p.1))
            (omega (arith, l, shorter)) (ih (omega (arith, h, l, shorter)))
        where
          weaker :
              (r : Result (Narrowed × Tokens)) (m : ℕ)
              → m ≤ length ts
              → Reads (Below m) r
              → Reads (Below (length ts)) r
          weaker (ok q) m le less = omega (arith, le, less)
          weaker (raise x) m le e = e

  pub where_clause-Reads :
      (ts : Tokens) → Reads (Below (length ts)) (where_clause key_bucket meta ts)
  unfolding where_clause
  where_clause-Reads ts =
      Reads-then (Below (length ts)) (Below (length ts))
        (conditions key_bucket meta (suc (length ts)) nothing_narrowed ts) _
        (conditions-Reads (suc (length ts)) nothing_narrowed ts (omega arith)) (λ p l. l)
