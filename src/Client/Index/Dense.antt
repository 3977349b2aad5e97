-- ===== src/Client/Index/Dense.antt =====
-- `insert_many` of blindrange/client.py: the counters of the entries that it writes.
use blindrange.Prelude.{
  ℕ, ◌+◌, ◌≡◌, refl, ap, ◌∙◌, sym, true, List, [], ◌∷◌, ◌++◌, map, if◌then◌else◌, String, Option,
  none, some, ok, bind-returns, range_from, Bool-cases, inl, inr, arith, str_eq, str_eq_iff, subst,
  suc, zero,
}
use mathlib.Core.List.{foldl, append-nil}
use blindrange.Dyadic.{max_level, levels_for}
use blindrange.Client.Index.{
  Word, same_word, Spec, Schema, Put, Index, index_word, index_value, Row, index_field,
  index_fields, insert_many,
}

-- The counters under which the entries of a word were written, in the order of the puts.
unfoldable pub counters : Word → List Put → List ℕ
counters w [] = []
counters w (Put.blob rid ∷ ps) = counters w ps
counters w (Put.entry x i rid ∷ ps) = if same_word x w then i ∷ counters w ps else counters w ps

counters-append :
    (w : Word) (ps qs : List Put) → counters w (ps ++ qs) ≡ counters w ps ++ counters w qs
unfolding counters
counters-append w [] qs = refl
counters-append w (Put.blob rid ∷ ps) qs = counters-append w ps qs
counters-append w (Put.entry x i rid ∷ ps) qs = elim (Bool-cases (same_word x w)) [
  | inl e ↦ rw e (ap (◌∷◌ i) (counters-append w ps qs))
  | inr e ↦ rw e (counters-append w ps qs)
]

range_from-snoc : (s n : ℕ) → range_from s n ++ (s + n) ∷ [] ≡ range_from s (suc n)
range_from-snoc s zero = ap (λ (t : ℕ). t ∷ []) (omega arith)
range_from-snoc s (suc n) =
    ap (◌∷◌ s)
      (ap (λ (t : ℕ). range_from (suc s) n ++ t ∷ []) (omega arith) ∙ range_from-snoc (suc s) n)

next_counter : (n : ℕ) → range_from 1 n ++ (n + 1) ∷ [] ≡ range_from 1 (n + 1)
next_counter n =
    let e : n + 1 ≡ suc n = omega arith in
    let f : n + 1 ≡ 1 + n = omega arith in
    subst (λ (t : ℕ). range_from 1 n ++ t ∷ [] ≡ range_from 1 (n + 1)) (sym f)
      (subst (λ (t : ℕ). range_from 1 n ++ (1 + n) ∷ [] ≡ range_from 1 t) (sym e)
        (range_from-snoc 1 n))

pub same_word_eq : (w x : Word) → same_word w x ≡ true → w ≡ x
same_word_eq (f, (l, i)) (g, (m, j)) h =
    let fields : str_eq f g ≡ true = ground arith in
    let levels : l ≡ m = ground arith in
    let indices : i ≡ j = ground arith in let names : f ≡ g = (str_eq_iff f g).0 fields in cc

-- The entries of each word are written under 1, 2, …, and the word's counter is the last.
unfoldable pub IsDense : Index → Type 0
unfolding counters
IsDense s = (w : Word) → counters w s.puts ≡ range_from 1 (s.chains w)

index_word-IsDense : (rid : ℕ) (s : Index) (w : Word) → IsDense s → IsDense (index_word rid s w)
unfolding index_word counters IsDense
index_word-IsDense rid s w h x = elim (Bool-cases (same_word w x)) [
  | inl e ↦
      let same = same_word_eq w x e in
      rw (e, counters-append, e, h x, same) (next_counter (s.chains x))
  | inr e ↦ rw (e, counters-append, e, h x) (append-nil _)
]

index_words-IsDense :
    (rid : ℕ) (ws : List Word) (s : Index) → IsDense s → IsDense (foldl (index_word rid) s ws)
index_words-IsDense rid [] s h = h
index_words-IsDense rid (w ∷ ws) s h =
    index_words-IsDense rid ws (index_word rid s w) (index_word-IsDense rid s w h)

index_value-IsDense :
    (rid : ℕ) (field : String) (spec : Spec) (v : ℕ) (s s' : Index)
    → IsDense s
    → index_value rid field spec v s ≡ ok s'
    → IsDense s'
unfolding index_value
index_value-IsDense rid field spec v s s' h e =
    let (mlvl, level, done) = bind-returns (max_level spec.bits spec.leaf_width) _ e in
    let words = map (λ c. (field, c)) (levels_for v spec.bits mlvl) in
    let same : foldl (index_word rid) s words ≡ s' = cc in
    subst IsDense same (index_words-IsDense rid words s h)

index_field-IsDense :
    (rid : ℕ) (field : String) (spec : Spec) (o : Option ℕ) (s s' : Index)
    → IsDense s
    → index_field rid field spec o s ≡ ok s'
    → IsDense s'
unfolding index_field
index_field-IsDense rid field spec none s s' h e = let same : s ≡ s' = cc in subst IsDense same h
index_field-IsDense rid field spec (some v) s s' h e = index_value-IsDense rid field spec v s s' h e

index_fields-IsDense :
    (rid : ℕ) (rec : Row) (schema : Schema) (s s' : Index)
    → IsDense s
    → index_fields rid rec schema s ≡ ok s'
    → IsDense s'
unfolding index_fields
index_fields-IsDense rid rec [] s s' h e = let same : s ≡ s' = cc in subst IsDense same h
index_fields-IsDense rid rec ((field, spec) ∷ rest) s s' h e =
    let (s1, e1, e2) = bind-returns (index_field rid field spec (rec field) s) _ e in
    index_fields-IsDense rid rec rest s1 s'
      (index_field-IsDense rid field spec (rec field) s s1 h e1) e2

blob-IsDense :
    (rid : ℕ) (s : Index) → IsDense s → IsDense (record s { puts = s.puts ++ Put.blob rid ∷ [] })
unfolding counters IsDense
blob-IsDense rid s h x = rw (counters-append, h x) (append-nil _)

-- An insert that returns keeps, for every word, the counters of its entries at 1, 2, …, n, where n
-- is the length that the index has for the word.
pub insert_many-IsDense :
    (schema : Schema) (rows : List (ℕ × Row)) (s s' : Index)
    → IsDense s
    → insert_many schema rows s ≡ ok s'
    → IsDense s'
unfolding insert_many
insert_many-IsDense schema [] s s' h e = let same : s ≡ s' = cc in subst IsDense same h
insert_many-IsDense schema ((rid, rec) ∷ rest) s s' h e =
    let (s1, e1, e2) = bind-returns (index_fields rid rec schema _) _ e in
    insert_many-IsDense schema rest s1 s'
      (index_fields-IsDense rid rec schema _ s1 (blob-IsDense rid s h) e1) e2
