-- ===== src/Sql/Raises/Select.antt =====
-- What SELECT of blindrange/sql.py raises while it is read.
use blindrange.Prelude.{
  ℕ, zero, suc, ◌<◌, refl, Bool, true, false, [], ◌∷◌, if◌then◌else◌, length, String, Option, none,
  some, Result, ok, raise, unsupported, ◌>>=◌, arith,
}
use blindrange.Sql.{
  Text, Tokens, next_kw, next_op, tail, try_kws, skip_kws, eat_num, eat_ident, expect_op, expect_kw,
  done, Column, key, stored, int, text_column, Columns, get_column,
}
use blindrange.Sql.Reads.{
  Ensures, Reads, Reads-then, Reads-bind, Ensures-Reads, Ensures-bind, Ensures-if, Below, Left,
  Anything, next_op-tail, eat_num-Ensures, eat_ident-Ensures, expect_kw-Ensures, done-Ensures,
  get_column-Ensures,
}
use blindrange.Sql.Raises.{where_if-Reads}
use blindrange.Sql.Select.{
  Goal, name_list, projection, Clause, where_if, check_order, order_by, limit_to, after_where,
  read_select,
}

name_list-Ensures : (f : ℕ) (ts : Tokens) → length ts < f → Ensures Anything (name_list f ts)
unfolding name_list
name_list-Ensures zero ts h = absurd (omega (arith, h))
name_list-Ensures (suc f) ts h =
    Ensures-bind (Below (length ts)) Anything (eat_ident ts) _
      (eat_ident-Ensures (length ts) ts (omega arith))
      (λ p l.
        Ensures-if Anything (next_op "," p.1) _ _
          (λ e.
            Ensures-bind Anything Anything (name_list f (tail p.1)) _
              (name_list-Ensures f (tail p.1) (omega (arith, h, l, next_op-tail "," p.1 e)))
              (λ q a. tt))
          (λ e. tt))

expected : (o : String) (ts : Tokens) → Ensures Anything (expect_op o ts)
expected o ts = Ensures-if Anything (next_op o ts) _ _ (λ e. tt) (λ e. refl)

projection-Ensures : (ts : Tokens) → Ensures Anything (projection ts)
unfolding projection
projection-Ensures ts =
    Ensures-if Anything (next_kw "COUNT" ts) _ _
      (λ e.
        Ensures-bind Anything Anything (expect_op "(" (tail ts)) _ (expected "(" (tail ts)) (λ t1 a.
          Ensures-bind Anything Anything (expect_op "*" t1) _ (expected "*" t1) (λ t2 b.
            Ensures-bind Anything Anything (expect_op ")" t2) _ (expected ")" t2) (λ t3 c. tt))))
      (λ e. sums (try_kws ("APPROX" ∷ "SUM" ∷ []) ts))
  where
    sums :
        (o : Option Tokens)
        → Ensures {A = Goal × Tokens} Anything (elim o [
          | some t1 ↦
              (expect_op "(" t1 >>= λ t2.
              eat_ident t2 >>= λ (c, t3). expect_op ")" t3 >>= λ t4. ok (Goal.sum_of c, t4))
          | none ↦
              (if next_kw "SUM" ts
                then raise unsupported
                else if next_op "*" ts
                then ok (Goal.everything, tail ts)
                else (name_list (suc (length ts)) ts >>= λ (cs, t1). ok (Goal.columns cs, t1)))
        ])
    sums (some t1) = Ensures-bind Anything Anything (expect_op "(" t1) _ (expected "(" t1) (λ t2 a.
        Ensures-bind (Below (suc (length t2))) Anything (eat_ident t2) _
          (eat_ident-Ensures (suc (length t2)) t2 (omega arith))
          (λ p b.
            Ensures-bind Anything Anything (expect_op ")" p.1) _ (expected ")" p.1) (λ t4 c. tt)))
    sums none =
        Ensures-if Anything (next_kw "SUM" ts) _ _ (λ e. refl)
          (λ e.
            Ensures-if Anything (next_op "*" ts) _ _ (λ e. tt)
              (λ e.
                Ensures-bind Anything Anything (name_list (suc (length ts)) ts) _
                  (name_list-Ensures (suc (length ts)) ts (omega arith)) (λ p a. tt)))

check_order-Ensures : (spec : Column) → Ensures Anything (check_order spec)
unfolding check_order
check_order-Ensures key = refl
check_order-Ensures stored = refl
check_order-Ensures (int bits blur) = tt
check_order-Ensures (text_column chars blur) = tt

order_by-Ensures : (meta : Columns) (ts : Tokens) → Ensures Anything (order_by meta ts)
unfolding order_by
order_by-Ensures meta ts = ordered (try_kws ("ORDER" ∷ "BY" ∷ []) ts)
  where
    ordered :
        (o : Option Tokens)
        → Ensures {A = Option (String × Bool) × Tokens} Anything (elim o [
          | none ↦ ok (none, ts)
          | some t1 ↦
              (eat_ident t1 >>= λ (c, t2). get_column c meta >>= λ spec. check_order spec >>= λ _.
              (if next_kw "DESC" t2
                then ok (some (c, true), tail t2)
                else ok (some (c, false), skip_kws ("ASC" ∷ []) t2)))
        ])
    ordered none = tt
    ordered (some t1) =
        Ensures-bind (Below (suc (length t1))) Anything (eat_ident t1) _
          (eat_ident-Ensures (suc (length t1)) t1 (omega arith))
          (λ p a.
            Ensures-bind Anything Anything (get_column p.0 meta) _ (get_column-Ensures p.0 meta)
              (λ spec b.
                Ensures-bind Anything Anything (check_order spec) _ (check_order-Ensures spec)
                  (λ u c. Ensures-if Anything (next_kw "DESC" p.1) _ _ (λ e. tt) (λ e. tt))))

limit_to-Ensures : (ts : Tokens) → Ensures Anything (limit_to ts)
unfolding limit_to
limit_to-Ensures ts =
    Ensures-if Anything (next_kw "LIMIT" ts) _ _
      (λ e.
        Ensures-bind (Below (suc (length (tail ts)))) Anything (eat_num (tail ts)) _
          (eat_num-Ensures (suc (length (tail ts))) (tail ts) (omega arith)) (λ p a. tt))
      (λ e. tt)

module _ (kb : String → Text → ℕ) (columns_of : String → Result Columns) where
  after_where-Ensures :
      (goal : Goal) (name : String) (meta : Columns) (clause : Clause) (ts : Tokens)
      → Ensures Anything (after_where kb columns_of goal name meta clause ts)
  unfolding after_where
  after_where-Ensures goal name meta (none, posts) ts =
      Ensures-bind Anything Anything (done ts) _ (done-Ensures ts) (λ u a. tt)
  after_where-Ensures goal name meta (some preds, posts) ts =
      Ensures-bind Anything Anything (order_by meta ts) _ (order_by-Ensures meta ts) (λ p a.
        Ensures-bind Anything Anything (limit_to p.1) _ (limit_to-Ensures p.1)
          (λ q b. Ensures-bind Anything Anything (done q.1) _ (done-Ensures q.1) (λ u c. tt)))

  pub read_select-Reads :
      (ts : Tokens)
      → ((name : String) → Ensures Anything (columns_of name))
      → Reads Anything (read_select kb columns_of ts)
  unfolding read_select
  read_select-Reads ts law =
      Reads-bind Anything Anything (projection ts) _ (projection-Ensures ts) (λ g a.
        Reads-bind (Left (suc (length g.1))) Anything (expect_kw "FROM" g.1) _
          (expect_kw-Ensures "FROM" (suc (length g.1)) g.1 (omega arith))
          (λ t2 b.
            Reads-bind (Below (suc (length t2))) Anything (eat_ident t2) _
              (eat_ident-Ensures (suc (length t2)) t2 (omega arith))
              (λ p c. Reads-bind Anything Anything (columns_of p.0) _ (law p.0) (λ meta d.
                Reads-then Anything Anything (where_if kb meta p.1) _ (where_if-Reads kb meta p.1)
                  (λ q f. Ensures-Reads Anything _ (after_where-Ensures g.0 p.0 meta q.0 q.1))))))
