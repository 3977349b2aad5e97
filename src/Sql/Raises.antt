-- ===== src/Sql/Raises.antt =====
-- What the statements of blindrange/sql.py raise while they are read, and that their loops end.
pub mod Insert
pub mod Select
pub mod Readers
use blindrange.Prelude.{
  ℕ, zero, suc, ◌+◌, ◌≤◌, ◌<◌, ◌≡◌, refl, Bool, true, false, not, ◌||◌, ltb, ◌==◌, bit_and, ◌-◌,
  ◌*◌, ◌^◌, List, [], ◌∷◌, if◌then◌else◌, length, String, str_eq, Option, none, some, Result, ok,
  raise, unsupported, Error, subst, ◌>>=◌, arith, Bool-cases, inl, inr,
}
use blindrange.Client.Index.{Schema}
use blindrange.Sql.{
  Text, Tokens, next_kw, next_op, tail, try_kws, skip_kws, eat_num, eat_ident, eat_value, expect_op,
  expect_kw, done, Value, number, text, Column, key, stored, int, text_column, Columns, get_column,
  assign, Fields,
}
use blindrange.Sql.Reads.{
  Ensures, Reads, Reads-then, Reads-bind, Reads-if, Ensures-bind, Ensures-if, Ensures-raises, Below,
  Left, Anything, next_kw-tail, next_op-tail, eat_num-Ensures, eat_ident-Ensures, eat_value-Ensures,
  expect_op-Ensures, expect_kw-Ensures, done-Ensures, get_column-Ensures,
}
use blindrange.Sql.Where.{where_clause}
use blindrange.Sql.Where.Raises.{where_clause-Reads}
use blindrange.Sql.Create.{
  check_blur, Declared, int_column, text_of_chars, declaration, assign_spec, column_list,
  some_indexed, create_table,
}
use blindrange.Sql.Insert.{check_value}
use blindrange.Sql.Select.{Clause, where_if}
use blindrange.Sql.Select.{Engine}
use blindrange.Sql.Statements.{read_delete}
use blindrange.Sql.Update.{check_change, set_list, read_update}

guards-Ensures :
    (a b : Bool)
    → Ensures Anything
        (if a then raise unsupported else if b then raise unsupported else ok (tt {0}))
guards-Ensures true b = refl
guards-Ensures false true = refl
guards-Ensures false false = tt

check_blur-Ensures : (blur bits : ℕ) → Ensures Anything (check_blur blur bits)
unfolding check_blur
check_blur-Ensures blur bits =
    guards-Ensures (ltb blur 1 || not (bit_and blur (blur - 1) == 0)) (ltb (2 ^ bits) blur)

-- The blur, and what it completes.
blur-Ensures :
    (n bits : ℕ) (f : ℕ → Declared) (ts : Tokens)
    → length ts ≤ n
    → Ensures (Below n) (eat_num ts >>= λ (blur, t). check_blur blur bits >>= λ _. ok (f blur, t))
blur-Ensures n bits f ts h =
    Ensures-bind (Below n) (Below n) (eat_num ts) _ (eat_num-Ensures n ts h) (λ p l.
      Ensures-bind Anything (Below n) (check_blur p.0 bits) _ (check_blur-Ensures p.0 bits)
        (λ u a. l))

declaration-Ensures : (n : ℕ) (ts : Tokens) → length ts ≤ n → Ensures (Below n) (declaration ts)
unfolding declaration int_column text_of_chars
declaration-Ensures n ts h =
    Ensures-if (Below n) (next_kw "KEY" ts) _ _ (λ e. omega (arith, h, next_kw-tail "KEY" ts e))
      (λ e.
        Ensures-if (Below n) (next_kw "INT" ts) _ _ (λ e. int_case (next_kw-tail "INT" ts e))
          (λ e.
            Ensures-if (Below n) (next_kw "TEXT" ts) _ _ (λ e. text_case (next_kw-tail "TEXT" ts e))
              (λ e.
                Ensures-if (Below n) (next_kw "STORED" ts) _ _
                  (λ e. omega (arith, h, next_kw-tail "STORED" ts e)) (λ e. refl))))
  where
    int_case :
        length (tail ts) < length ts
        → Ensures (Below n) (
            expect_kw "BITS" (tail ts) >>= λ t1. eat_num t1 >>= λ (bits, t2).
            expect_kw "BLUR" t2 >>= λ t3. eat_num t3 >>= λ (blur, t4). int_column bits blur t4)
    int_case l =
        Ensures-bind (Left n) (Below n) (expect_kw "BITS" (tail ts)) _
          (expect_kw-Ensures "BITS" n (tail ts) (omega (arith, h, l)))
          (λ t1 l1.
            Ensures-bind (Below n) (Below n) (eat_num t1) _
              (eat_num-Ensures n t1 (omega (arith, l1)))
              (λ p l2.
                Ensures-bind (Left n) (Below n) (expect_kw "BLUR" p.1) _
                  (expect_kw-Ensures "BLUR" n p.1 (omega (arith, l2)))
                  (λ t3 l3. blur-Ensures n p.0 _ t3 (omega (arith, l3)))))

    text_case :
        length (tail ts) < length ts
        → Ensures (Below n) (
            expect_op "(" (tail ts) >>= λ t1. eat_num t1 >>= λ (chars, t2).
            expect_op ")" t2 >>= λ t3.
            expect_kw "BLUR" t3 >>= λ t4. eat_num t4 >>= λ (blur, t5). text_of_chars chars blur t5)
    text_case l =
        Ensures-bind (Left n) (Below n) (expect_op "(" (tail ts)) _
          (expect_op-Ensures "(" n (tail ts) (omega (arith, h, l)))
          (λ t1 l1.
            Ensures-bind (Below n) (Below n) (eat_num t1) _
              (eat_num-Ensures n t1 (omega (arith, l1)))
              (λ p l2.
                Ensures-bind (Left n) (Below n) (expect_op ")" p.1) _
                  (expect_op-Ensures ")" n p.1 (omega (arith, l2)))
                  (λ t3 l3.
                    Ensures-bind (Left n) (Below n) (expect_kw "BLUR" t3) _
                      (expect_kw-Ensures "BLUR" n t3 (omega (arith, l3)))
                      (λ t4 l4. blur-Ensures n (p.0 * 5) _ t4 (omega (arith, l4))))))

column_list-Ensures :
    (f : ℕ) (columns : Columns) (schema : Schema) (ts : Tokens)
    → length ts < f
    → Ensures Anything (column_list f columns schema ts)
unfolding column_list
column_list-Ensures zero columns schema ts h = absurd (omega (arith, h))
column_list-Ensures (suc f) columns schema ts h =
    Ensures-bind (Below (length ts)) Anything (eat_ident ts) _
      (eat_ident-Ensures (length ts) ts (omega arith))
      (λ p l.
        Ensures-bind (Below (length ts)) Anything (declaration p.1) _
          (declaration-Ensures (length ts) p.1 (omega (arith, l)))
          (λ q l2.
            Ensures-if Anything (next_op ")" q.1) _ _ (λ e. tt)
              (λ e.
                Ensures-bind (Left (length ts)) Anything (expect_op "," q.1) _
                  (expect_op-Ensures "," (length ts) q.1 (omega (arith, l2)))
                  (λ t l3.
                    column_list-Ensures f (assign p.0 q.0.0 columns) (assign_spec p.0 q.0.1 schema)
                      t (omega (arith, h, l3))))))

some_indexed-Ensures : (made : Columns × Schema) → Ensures Anything (some_indexed made)
unfolding some_indexed
some_indexed-Ensures (columns, []) = refl
some_indexed-Ensures (columns, s ∷ schema) = tt

pub create_table-Ensures :
    (exists : String → Bool) (ts : Tokens) → Ensures Anything (create_table exists ts)
unfolding create_table
create_table-Ensures exists ts =
    Ensures-bind (Below (suc n)) Anything (eat_ident t0) _
      (eat_ident-Ensures (suc n) t0 (omega arith))
      (λ p l.
        Ensures-if Anything (exists p.0) _ _ (λ e. refl)
          (λ e.
            Ensures-bind (Left (suc n)) Anything (expect_op "(" p.1) _
              (expect_op-Ensures "(" (suc n) p.1 (omega (arith, l)))
              (λ t2 l2.
                Ensures-bind Anything Anything (column_list (suc (length t2)) [] [] t2) _
                  (column_list-Ensures (suc (length t2)) [] [] t2 (omega arith))
                  (λ q a. Ensures-bind Anything Anything (done q.1) _ (done-Ensures q.1) (λ u b.
                    Ensures-bind Anything Anything (some_indexed q.0) _ (some_indexed-Ensures q.0)
                      (λ w c. tt))))))
  where
    t0 : Tokens
    t0 = skip_kws ("CREATE" ∷ "TABLE" ∷ []) ts

    n : ℕ
    n = length t0

check_change-Ensures : (spec : Column) (v : Value) → Ensures Anything (check_change spec v)
unfolding check_change check_value
check_change-Ensures stored v = tt
check_change-Ensures key v = tt
check_change-Ensures (int bits blur) (number n) =
    Ensures-if Anything (ltb n (2 ^ bits)) _ _ (λ e. tt) (λ e. refl)
check_change-Ensures (int bits blur) (text s) = refl
check_change-Ensures (text_column chars blur) (number n) = refl
check_change-Ensures (text_column chars blur) (text s) = tt

set_list-Ensures :
    (f : ℕ) (meta : Columns) (changes : Fields) (ts : Tokens)
    → length ts < f
    → Ensures Anything (set_list f meta changes ts)
unfolding set_list
set_list-Ensures zero meta changes ts h = absurd (omega (arith, h))
set_list-Ensures (suc f) meta changes ts h =
    let n = length ts in
    Ensures-bind (Below n) Anything (eat_ident ts) _ (eat_ident-Ensures n ts (omega arith)) (λ p l.
      Ensures-bind Anything Anything (get_column p.0 meta) _ (get_column-Ensures p.0 meta)
        (λ spec a.
          Ensures-bind (Left n) Anything (expect_op "=" p.1) _
            (expect_op-Ensures "=" n p.1 (omega (arith, l)))
            (λ t2 l2.
              Ensures-bind (Below n) Anything (eat_value t2) _
                (eat_value-Ensures n t2 (omega (arith, l2)))
                (λ q l3.
                  Ensures-bind Anything Anything (check_change spec q.0) _
                    (check_change-Ensures spec q.0)
                    (λ u b.
                      Ensures-if Anything (next_op "," q.1) _ _
                        (λ e.
                          set_list-Ensures f meta (assign p.0 q.0 changes) (tail q.1)
                            (omega (arith, h, l3, next_op-tail "," q.1 e)))
                        (λ e. tt))))))

pub where_if-Reads :
    (kb : String → Text → ℕ) (meta : Columns) (ts : Tokens) → Reads Anything (where_if kb meta ts)
unfolding where_if
where_if-Reads kb meta ts =
    Reads-if Anything (next_kw "WHERE" ts) _ _
      (λ e. anything (where_clause kb meta (tail ts)) (where_clause-Reads kb meta (tail ts)))
      (λ e. tt)
  where
    anything :
        (r : Result (Clause × Tokens)) → Reads (Below (length (tail ts))) r → Reads Anything r
    anything (ok a) h = tt
    anything (raise x) h = h

module _ (kb : String → Text → ℕ) (columns_of : String → Result Columns) where
  pub read_update-Reads :
      (ts : Tokens)
      → ((name : String) → Ensures Anything (columns_of name))
      → Reads Anything (read_update kb columns_of ts)
  unfolding read_update
  read_update-Reads ts law =
      let n = suc (length ts) in
      Reads-bind (Below n) Anything (eat_ident ts) _ (eat_ident-Ensures n ts (omega arith)) (λ p l.
        Reads-bind Anything Anything (columns_of p.0) _ (law p.0) (λ meta a.
          Reads-bind (Left n) Anything (expect_kw "SET" p.1) _
            (expect_kw-Ensures "SET" n p.1 (omega (arith, l)))
            (λ t2 l2.
              Reads-bind Anything Anything (set_list (suc (length t2)) meta [] t2) _
                (set_list-Ensures (suc (length t2)) meta [] t2 (omega arith))
                (λ q b.
                  Reads-then Anything Anything (where_if kb meta q.1) _ (where_if-Reads kb meta q.1)
                    (λ r c.
                      Reads-bind Anything Anything (done r.1) _ (done-Ensures r.1) (λ u d. tt))))))

  pub read_delete-Reads :
      {St : Type 0} (e : Engine St) (random : ℕ → Text) (upper : String → String) (ts : Tokens)
      → ((name : String) → Ensures Anything (columns_of name))
      → Reads Anything (read_delete e kb random upper columns_of ts)
  unfolding read_delete
  read_delete-Reads e random upper ts law =
      let n = suc (length ts) in
      Reads-bind (Below n) Anything (eat_ident ts) _ (eat_ident-Ensures n ts (omega arith)) (λ p l.
        Reads-bind Anything Anything (columns_of p.0) _ (law p.0) (λ meta a.
          Reads-then Anything Anything (where_if kb meta p.1) _ (where_if-Reads kb meta p.1)
            (λ q b. Reads-bind Anything Anything (done q.1) _ (done-Ensures q.1) (λ u c. tt))))
