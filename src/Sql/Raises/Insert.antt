-- ===== src/Sql/Raises/Insert.antt =====
-- What INSERT of blindrange/sql.py raises while it is read: the lookups of columns never fail.
use blindrange.Prelude.{
  ℕ, zero, suc, ◌≤◌, ◌<◌, ◌≡◌, ◌⊎◌, refl, sym, Bool, true, false, not, ◌||◌, ◌==◌, List, [], ◌∷◌,
  length, String, str_eq, str_eq_iff, none, some, Result, raise, key_error, arith, Bool-cases, inl,
  inr, ltb, ◌^◌, All,
}
use blindrange.Sql.{
  Tokens, next_op, tail, skip_kws, eat_ident, eat_value, expect_op, expect_kw, done, Value, number,
  text, Column, key, stored, int, text_column, Columns, find, assign, Fields,
}
use blindrange.Sql.Reads.{
  Ensures, Ensures-bind, Ensures-if, Below, Left, Anything, next_op-tail, eat_ident-Ensures,
  eat_value-Ensures, expect_op-Ensures, expect_kw-Ensures, done-Ensures,
}
use blindrange.Sql.Insert.{
  check_value, items, zip_fields, check_row, value_row, value_rows, missing, unknown, insert_rows,
  is_key, is_stored, given,
}
use blindrange.Sql.Insert.Filling.{find-assign}

-- A list in parentheses is shorter than the tokens it is read from.
items-Ensures :
    {A : Type 0} (eat : Tokens → Result (A × Tokens))
    → ((n : ℕ) (ts : Tokens) → length ts ≤ n → Ensures (Below n) (eat ts))
    → (f n : ℕ) (ts : Tokens) → length ts < f
    → length ts ≤ n
    → Ensures (Below n) (items eat f ts)
unfolding items
items-Ensures eat law zero n ts h le = absurd (omega (arith, h))
items-Ensures eat law (suc f) n ts h le =
    Ensures-bind (Below (length ts)) (Below n) (eat ts) _ (law (length ts) ts (omega arith)) (λ p l.
      Ensures-if (Below n) (next_op ")" p.1) _ _ (λ e. omega (arith, le, l, next_op-tail ")" p.1 e))
        (λ e.
          Ensures-bind (Left (length ts)) (Below n) (expect_op "," p.1) _
            (expect_op-Ensures "," (length ts) p.1 (omega (arith, l)))
            (λ t2 l2.
              Ensures-bind (Below n) (Below n) (items eat f t2) _
                (items-Ensures eat law f n t2 (omega (arith, h, l2)) (omega (arith, le, l2)))
                (λ q l3. l3))))

abbrev Found : String → Fields → Type 0
Found c row = (v : Value) × (find c row ≡ some v)

Found-assign :
    (c d : String) (v : Value) (row : Fields)
    → (str_eq d c ≡ true) ⊎ Found c row
    → Found c (assign d v row)
Found-assign c d v row h = elim (Bool-cases (str_eq d c)) [
  | inl here ↦ (v, rw (find-assign, here) refl)
  | inr away ↦ kept h away
]
  where
    kept : (str_eq d c ≡ true) ⊎ Found c row → str_eq d c ≡ false → Found c (assign d v row)
    kept (inl e) away = cc
    kept (inr (w, f)) away = (w, rw (find-assign, away) f)

-- Each name of the list has a value in the row that is zipped.
Found-zip_fields :
    (c : String) (cols : List String) (vals : List Value) (row : Fields)
    → length vals ≡ length cols
    → (given cols c ≡ true) ⊎ Found c row
    → Found c (zip_fields row cols vals)
unfolding zip_fields
Found-zip_fields c [] vals row e (inl h) = cc
Found-zip_fields c [] vals row e (inr h) = h
Found-zip_fields c (d ∷ cols) [] row e h = absurd (omega (arith, e))
Found-zip_fields c (d ∷ cols) (v ∷ vals) row e h =
    Found-zip_fields c cols vals (assign d v row) (omega (arith, e)) (next h)
  where
    next :
        (given (d ∷ cols) c ≡ true) ⊎ Found c row → (given cols c ≡ true) ⊎ Found c (assign d v row)
    next (inr f) = inr (Found-assign c d v row (inr f))
    next (inl g) = elim (Bool-cases (str_eq c d)) [
      | inl here ↦
          let back : str_eq d c ≡ true = (str_eq_iff d c).1 (sym ((str_eq_iff c d).0 here)) in
          inr (Found-assign c d v row (inl back))
      | inr away ↦ inl (rw away at g)
    ]

-- The indexed columns that are no KEY have values in the row.
abbrev Complete : Columns → Fields → Type 0
Complete meta row = All (λ p. ((is_stored p.1 || is_key p.1) ≡ true) ⊎ Found p.0 row) meta

missing-Complete :
    (meta : Columns) (cols : List String) (vals : List Value)
    → missing meta cols ≡ false
    → length vals ≡ length cols
    → Complete meta (zip_fields [] cols vals)
missing-Complete [] cols vals m e = tt
missing-Complete ((c, spec) ∷ rest) cols vals m e = (
  elim (Bool-cases (is_stored spec || is_key spec)) [
    | inl passed ↦ inl passed
    | inr indexed ↦
        let there : given cols c ≡ true = ground (arith, m, indexed) in
        inr (Found-zip_fields c cols vals [] e (inl there))
  ],
  missing-Complete rest cols vals (ground (arith, m)) e,
)

check_value-Ensures : (spec : Column) (v : Value) → Ensures Anything (check_value spec v)
unfolding check_value
check_value-Ensures stored v = tt
check_value-Ensures key v = tt
check_value-Ensures (int bits blur) (number n) =
    Ensures-if Anything (ltb n (2 ^ bits)) _ _ (λ e. tt) (λ e. refl)
check_value-Ensures (int bits blur) (text s) = refl
check_value-Ensures (text_column chars blur) (number n) = refl
check_value-Ensures (text_column chars blur) (text s) = tt

check_row-Ensures :
    (meta : Columns) (row : Fields) → Complete meta row → Ensures Anything (check_row meta row)
unfolding check_row
check_row-Ensures [] row h = tt
check_row-Ensures ((c, spec) ∷ rest) row (h, hs) =
    Ensures-if Anything (is_stored spec || is_key spec) _ _ (λ e. check_row-Ensures rest row hs)
      (λ e. Ensures-bind Anything Anything _ _ (value h e) (λ u a. check_row-Ensures rest row hs))
  where
    value :
        ((is_stored spec || is_key spec) ≡ true) ⊎ Found c row
        → (is_stored spec || is_key spec) ≡ false
        → Ensures Anything
            (elim (find c row) [ none ↦ raise key_error | some v ↦ check_value spec v ])
    value (inl x) e = absurd (both x e)
      where
        both : {t : Bool} → t ≡ true → t ≡ false → ⊥
        both p q = cc
    value (inr (v, f)) e = rw f (check_value-Ensures spec v)

value_row-Ensures :
    (meta : Columns) (cols : List String) (vals : List Value)
    → missing meta cols ≡ false
    → Ensures Anything (value_row meta cols vals)
unfolding value_row
value_row-Ensures meta cols vals m =
    Ensures-if Anything (not (length vals == length cols)) _ _ (λ e. refl)
      (λ e.
        Ensures-bind Anything Anything (check_row meta (zip_fields [] cols vals)) _
          (check_row-Ensures meta (zip_fields [] cols vals)
            (missing-Complete meta cols vals m (ground (arith, e))))
          (λ u a. tt))

value_rows-Ensures :
    (f : ℕ) (meta : Columns) (cols : List String) (ts : Tokens)
    → missing meta cols ≡ false
    → length ts < f
    → Ensures Anything (value_rows f meta cols ts)
unfolding value_rows
value_rows-Ensures zero meta cols ts m h = absurd (omega (arith, h))
value_rows-Ensures (suc f) meta cols ts m h =
    Ensures-bind (Left (length ts)) Anything (expect_op "(" ts) _
      (expect_op-Ensures "(" (length ts) ts (omega arith))
      (λ t1 l1.
        Ensures-bind (Below (length t1)) Anything (items eat_value (suc (length t1)) t1) _
          (items-Ensures eat_value eat_value-Ensures (suc (length t1)) (length t1) t1 (omega arith)
            (omega arith))
          (λ p l2.
            Ensures-bind Anything Anything (value_row meta cols p.0) _
              (value_row-Ensures meta cols p.0 m)
              (λ row a.
                Ensures-if Anything (next_op "," p.1) _ _
                  (λ e.
                    Ensures-bind Anything Anything (value_rows f meta cols (tail p.1)) _
                      (value_rows-Ensures f meta cols (tail p.1) m
                        (omega (arith, h, l1, l2, next_op-tail "," p.1 e)))
                      (λ q b. tt))
                  (λ e. tt))))

pub insert_rows-Ensures :
    (columns_of : String → Result Columns) (ts : Tokens)
    → ((name : String) → Ensures Anything (columns_of name))
    → Ensures Anything (insert_rows columns_of ts)
unfolding insert_rows
insert_rows-Ensures columns_of ts law =
    Ensures-bind (Below (suc n)) Anything (eat_ident t0) _
      (eat_ident-Ensures (suc n) t0 (omega arith))
      (λ p l. Ensures-bind Anything Anything (columns_of p.0) _ (law p.0) (λ meta a.
        Ensures-bind (Left (suc n)) Anything (expect_op "(" p.1) _
          (expect_op-Ensures "(" (suc n) p.1 (omega (arith, l)))
          (λ t2 l2.
            Ensures-bind (Below (suc n)) Anything (items eat_ident (suc (length t2)) t2) _
              (items-Ensures eat_ident eat_ident-Ensures (suc (length t2)) (suc n) t2 (omega arith)
                (omega (arith, l2)))
              (λ q l3.
                Ensures-if Anything (unknown meta q.0 || missing meta q.0) _ _ (λ e. refl)
                  (λ e.
                    Ensures-bind (Left (suc n)) Anything (expect_kw "VALUES" q.1) _
                      (expect_kw-Ensures "VALUES" (suc n) q.1 (omega (arith, l3)))
                      (λ t4 l4.
                        Ensures-bind Anything Anything (value_rows (suc (length t4)) meta q.0 t4) _
                          (value_rows-Ensures (suc (length t4)) meta q.0 t4 (ground (arith, e))
                            (omega arith))
                          (λ r b.
                            Ensures-bind Anything Anything (done r.1) _ (done-Ensures r.1)
                              (λ u c. tt))))))))
  where
    t0 : Tokens
    t0 = skip_kws ("INSERT" ∷ "INTO" ∷ []) ts

    n : ℕ
    n = length t0
