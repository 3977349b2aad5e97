-- ===== src/Sql/Create/Accepted.antt =====
-- What CREATE TABLE of blindrange/sql.py accepts, and what the index makes of it.
use blindrange.Prelude.{
  ℕ, zero, suc, ◌-◌, ◌*◌, ◌^◌, ◌≤◌, ◌<◌, ◌≡◌, refl, sym, ap, ◌∙◌, ◌↔◌, ◌⊎◌, inl, inr, subst,
  bit_and, Bool, [], ◌∷◌, ltb, leb, length, String, str_eq, Option, none, some, Result, ok, raise,
  Error, value_error, ◌>>=◌, All, arith, Bool-cases, bind-returns, power_of_two, bit_and-two_pow,
  bit_length, two_pow_le, two_pow_lt, two_pow_pos, bit_length-two_pow,
}
use blindrange.Dyadic.{max_level}
use blindrange.Dyadic.Bounds.{max_level-ok_iff}
use blindrange.Client.Index.{Spec, Schema}
use blindrange.Sql.{
  assign, skip_kws, Tokens, next_kw, next_op, tail, eat_num, eat_ident, expect_op, expect_kw, done,
  key, stored, Columns, key_bits,
}
use blindrange.Sql.Create.{
  check_blur, Declared, int_column, text_of_chars, declaration, assign_spec, column_list,
  some_indexed, create_table,
}

check_blur-power :
    (blur bits : ℕ) → check_blur blur bits ≡ ok tt → (k : ℕ) × (k ≤ bits) × (blur ≡ 2 ^ k)
unfolding check_blur
check_blur-power blur bits e =
    let pos : 0 < blur = ground (arith, e) in
    let bare : bit_and blur (blur - 1) ≡ 0 = ground (arith, e) in
    let k = bit_length blur - 1 in
    let p = power_of_two blur pos bare in
    let small : blur ≤ 2 ^ bits = ground (arith, e) in
    (k, two_pow_le k bits (omega (arith, p, small)), p)

two_pow_mono : (i j : ℕ) → i ≤ j → 2 ^ i ≤ 2 ^ j
two_pow_mono i j h = elim (Bool-cases (leb (2 ^ i) (2 ^ j))) [
  | inl small ↦ ground (arith, small)
  | inr big ↦
      let below : 2 ^ j < 2 ^ i = ground (arith, big) in
      absurd (omega (arith, h, two_pow_lt j i below))
]

check_blur-two_pow : (k bits : ℕ) → k ≤ bits → check_blur (2 ^ k) bits ≡ ok tt
unfolding check_blur
check_blur-two_pow k bits h =
    ground (arith, two_pow_mono k bits h, bit_and-two_pow k, two_pow_pos k)

-- A specification that an insert accepts, or whose blur is as wide as the domain.
abbrev pub IsIndexable : ℕ → ℕ → Type 0
IsIndexable bits blur = ((m : ℕ) × (max_level bits blur ≡ ok m)) ⊎ (blur ≡ 2 ^ bits)

check_blur-IsIndexable : (blur bits : ℕ) → check_blur blur bits ≡ ok tt → IsIndexable bits blur
check_blur-IsIndexable blur bits e =
    let (k, le, p) = check_blur-power blur bits e in
    elim (Bool-cases (ltb k bits)) [
      | inl inside ↦
          let same : bits - (bits - k) ≡ k = omega (arith, le) in
          inl (
            bits - k,
            (max_level-ok_iff bits blur (bits - k)).1
                (p ∙ ap (λ (t : ℕ). 2 ^ t) (sym same), ground (arith, inside), omega arith),
          )
      | inr whole ↦
          let same : k ≡ bits = ground (arith, whole, le) in inr (p ∙ ap (λ (t : ℕ). 2 ^ t) same)
    ]

IsIndexable-check_blur : (blur bits : ℕ) → IsIndexable bits blur → check_blur blur bits ≡ ok tt
IsIndexable-check_blur blur bits (inl (m, e)) =
    let (p, low, high) = (max_level-ok_iff bits blur m).0 e in
    rw p (check_blur-two_pow (bits - m) bits (omega arith))
IsIndexable-check_blur blur bits (inr p) = rw p (check_blur-two_pow bits bits (omega arith))

whole_domain : (bits : ℕ) → max_level bits (2 ^ bits) ≡ raise value_error
unfolding max_level
whole_domain bits = ground (arith, bit_length-two_pow bits, two_pow_pos bits, bit_and-two_pow bits)

-- CREATE accepts a blur exactly if `max_level` does, or it is as wide as the whole domain, which
-- `max_level` refuses.
pub check_blur_iff :
    (blur bits : ℕ)
    → ((check_blur blur bits ≡ ok tt) ↔ IsIndexable bits blur)
      × (max_level bits (2 ^ bits) ≡ raise value_error)
check_blur_iff blur bits =
    ((check_blur-IsIndexable blur bits, IsIndexable-check_blur blur bits), whole_domain bits)

-- The specifications of a schema.
abbrev pub AllIndexable : Schema → Type 0
AllIndexable schema = All (λ entry. IsIndexable entry.1.bits entry.1.leaf_width) schema

abbrev SpecIndexable : Option Spec → Type 0
SpecIndexable none = Unit
SpecIndexable (some spec) = IsIndexable spec.bits spec.leaf_width

indexed :
    (r : Result (Unit {0})) (d : Declared) (ts : Tokens) (out : Declared) (rest : Tokens)
    → (r ≡ ok tt → SpecIndexable d.1)
    → ◌>>=◌ {B = Declared × Tokens} r (λ _. ok (d, ts)) ≡ ok (out, rest)
    → SpecIndexable out.1
indexed (ok tt') d ts out rest h e =
    let same : d ≡ out = cc in subst (λ t. SpecIndexable t.1) same (h refl)
indexed (raise x) d ts out rest h e = cc

int_branch :
    (ts : Tokens) (out : Declared) (rest : Tokens)
    → (expect_kw "BITS" ts >>= λ t1. eat_num t1 >>= λ (bits, t2).
        expect_kw "BLUR" t2 >>= λ t3. eat_num t3 >>= λ (blur, t4). int_column bits blur t4)
      ≡ ok (out, rest)
    → SpecIndexable out.1
unfolding int_column
int_branch ts out rest e =
    let (t1, e1, r1) = bind-returns (expect_kw "BITS" ts) _ e in
    let (p, e2, r2) = bind-returns (eat_num t1) _ r1 in
    let (t3, e3, r3) = bind-returns (expect_kw "BLUR" p.1) _ r2 in
    let (q, e4, r4) = bind-returns (eat_num t3) _ r3 in
    indexed (check_blur q.0 p.0) _ q.1 out rest (check_blur-IsIndexable q.0 p.0) r4

text_branch :
    (ts : Tokens) (out : Declared) (rest : Tokens)
    → (expect_op "(" ts >>= λ t1. eat_num t1 >>= λ (chars, t2). expect_op ")" t2 >>= λ t3.
        expect_kw "BLUR" t3 >>= λ t4. eat_num t4 >>= λ (blur, t5). text_of_chars chars blur t5)
      ≡ ok (out, rest)
    → SpecIndexable out.1
unfolding text_of_chars
text_branch ts out rest e =
    let (t1, e1, r1) = bind-returns (expect_op "(" ts) _ e in
    let (p, e2, r2) = bind-returns (eat_num t1) _ r1 in
    let (t3, e3, r3) = bind-returns (expect_op ")" p.1) _ r2 in
    let (t4, e4, r4) = bind-returns (expect_kw "BLUR" t3) _ r3 in
    let (q, e5, r5) = bind-returns (eat_num t4) _ r4 in
    indexed (check_blur q.0 (p.0 * 5)) _ q.1 out rest (check_blur-IsIndexable q.0 (p.0 * 5)) r5

key-IsIndexable : IsIndexable key_bits 4
unfolding max_level bit_length
key-IsIndexable = inl (18, refl)

declaration-SpecIndexable :
    (ts : Tokens) (out : Declared) (rest : Tokens)
    → declaration ts ≡ ok (out, rest)
    → SpecIndexable out.1
unfolding declaration
declaration-SpecIndexable ts out rest e = elim (Bool-cases (next_kw "KEY" ts)) [
  | inl k ↦
      let e' = (rw k at e) in
      let same : (key, some (record { bits = key_bits; leaf_width = 4 })) ≡ out = cc in
      subst (λ (t : Declared). SpecIndexable t.1) same key-IsIndexable
  | inr k ↦ elim (Bool-cases (next_kw "INT" ts)) [
    | inl i ↦ int_branch (tail ts) out rest (rw i at (rw k at e))
    | inr i ↦ elim (Bool-cases (next_kw "TEXT" ts)) [
      | inl t ↦ text_branch (tail ts) out rest (rw t at (rw i at (rw k at e)))
      | inr t ↦ elim (Bool-cases (next_kw "STORED" ts)) [
        | inl s ↦
            let e' = (rw s at (rw t at (rw i at (rw k at e)))) in
            let same : ◌≡◌ {A = Declared} (stored, none) out = cc in
            subst (λ (t : Declared). SpecIndexable t.1) same tt
        | inr s ↦ let e' = (rw s at (rw t at (rw i at (rw k at e)))) in cc
      ]
    ]
  ]
]

AllIndexable-assign :
    (c : String) (spec : Spec) (schema : Schema)
    → IsIndexable spec.bits spec.leaf_width
    → AllIndexable schema
    → AllIndexable (assign c spec schema)
unfolding assign
AllIndexable-assign c spec [] i h = (i, tt)
AllIndexable-assign c spec ((d, s) ∷ rest) i (h, hs) = elim (Bool-cases (str_eq d c)) [
  | inl here ↦ rw here (i, hs)
  | inr other ↦ rw other (h, AllIndexable-assign c spec rest i hs)
]

AllIndexable-assign_spec :
    (c : String) (spec : Option Spec) (schema : Schema)
    → SpecIndexable spec
    → AllIndexable schema
    → AllIndexable (assign_spec c spec schema)
unfolding assign_spec
AllIndexable-assign_spec c none schema i h = h
AllIndexable-assign_spec c (some spec) schema i h = AllIndexable-assign c spec schema i h

AllIndexable-column_list :
    (f : ℕ) (columns : Columns) (schema : Schema) (ts : Tokens) (out : Columns × Schema)
    (rest : Tokens)
    → AllIndexable schema
    → column_list f columns schema ts ≡ ok (out, rest)
    → AllIndexable out.1
unfolding column_list
AllIndexable-column_list zero columns schema ts out rest h e = cc
AllIndexable-column_list (suc f) columns schema ts out rest h e =
    let (p, e1, r1) = bind-returns (eat_ident ts) _ e in
    let (q, e2, r2) = bind-returns (declaration p.1) _ r1 in
    let columns' = assign p.0 q.0.0 columns in
    let schema' = assign_spec p.0 q.0.1 schema in
    let h' =
      AllIndexable-assign_spec p.0 q.0.1 schema (declaration-SpecIndexable p.1 q.0 q.1 e2) h in
    elim (Bool-cases (next_op ")" q.1)) [
      | inl closed ↦
          let r3 = (rw closed at r2) in
          let same : (columns', schema') ≡ out = cc in
          subst (λ (t : Columns × Schema). AllIndexable t.1) same h'
      | inr more ↦
          let r3 = (rw more at r2) in
          let (t3, e3, r4) = bind-returns (expect_op "," q.1) _ r3 in
          AllIndexable-column_list f columns' schema' t3 out rest h' r4
    ]

same_schema :
    (n m : String) (c d : Columns) (s t : Schema)
    → ◌≡◌ {A = Result (String × Columns × Schema)} (ok (n, c, s)) (ok (m, d, t))
    → s ≡ t
same_schema n m c d s t h = cc

not_raised : {A : Type 0} (x : Error) (a : A) → ◌≡◌ {A = Result A} (raise x) (ok a) → ⊥
not_raised x a h = cc

-- The schema of a table that CREATE TABLE makes has a specification, and each is one that an insert
-- accepts, or has a blur as wide as the domain.
pub create_table-AllIndexable :
    (exists : String → Bool) (ts : Tokens) (name : String) (columns : Columns) (schema : Schema)
    → create_table exists ts ≡ ok (name, columns, schema)
    → AllIndexable schema × (0 < length schema)
unfolding create_table some_indexed
create_table-AllIndexable exists ts name columns schema e =
    let (p, e1, r1) = bind-returns (eat_ident (skip_kws ("CREATE" ∷ "TABLE" ∷ []) ts)) _ e in
    elim (Bool-cases (exists p.0)) [
      | inl there ↦ absurd (not_raised _ _ (rw there at r1))
      | inr fresh ↦
          let r2 = (rw fresh at r1) in
          let (t2, e2, r3) = bind-returns (expect_op "(" p.1) _ r2 in
          let (q, e3, r4) = bind-returns (column_list (suc (length t2)) [] [] t2) _ r3 in
          let (u, e4, r5) = bind-returns (done q.1) _ r4 in
          let (w, e5, r6) = bind-returns (some_indexed q.0) _ r5 in
          let same = same_schema p.0 name w.0 columns w.1 schema r6 in
          subst (λ t. AllIndexable t × (0 < length t)) same
            (kept q.0.0 q.0.1 w (AllIndexable-column_list (suc (length t2)) [] [] t2 q.0 q.1 tt e3)
              e5)
    ]
  where
    kept :
        (cols : Columns) (made : Schema) (w : Columns × Schema)
        → AllIndexable made
        → some_indexed (cols, made) ≡ ok w
        → AllIndexable w.1 × (0 < length w.1)
    kept cols [] w h e = cc
    kept cols (m ∷ made) w h e =
        let same : ◌≡◌ {A = Columns × Schema} (cols, m ∷ made) w = cc in
        subst (λ (t : Columns × Schema). AllIndexable t.1 × (0 < length t.1)) same (h, omega arith)
