-- ===== src/Sharded/Refine/Indexed.antt =====
-- A shard of blindrange/sharded.py that is an `Owner` of blindrange/client.py as Client/Index models it:
-- one field of its schema, and the chains of its own writer in its epoch.
use blindrange.Prelude.{
  ℕ, ◌≡◌, refl, ap, List, [], ◌∷◌, ◌++◌, String, length, Result, ok, raise, All, bind-returns,
  arith,
}
use blindrange.Dyadic.{max_level, dyadic_cover}
use blindrange.Client.Index.{
  Spec, Schema, Index, Row, insert_many, count, approx_sum, histogram, chain_total,
}
use blindrange.Client.Index.Count.{Other, InDomain, matches, total-insert_many, chain_total-writers}
use blindrange.Sharded.{Text, Owner}
use blindrange.Sharded.Refine.{Counts}

abbrev inserted_into : ℕ → Index → Result Index → Result ℕ × Index
inserted_into n s (ok s') = (ok n, s')
inserted_into n s (raise e) = (raise e, s)

module _ (delete : List Text → Index → Result ℕ × Index) (before after : Schema) (field : String)
    (spec : Spec) (epoch writer : ℕ) where
  -- A query is a range of the field; a record comes with its id. `delete` is the shard's delete_many.
  abbrev pub indexed : Owner Index (ℕ × Row) (ℕ × ℕ)
  indexed = record {
    insert_many = λ rows s.
        inserted_into (length rows) s (insert_many (before ++ (field, spec) ∷ after) rows s);
    delete_many = delete;
    count = λ q s. count (λ ep u c. s.chains (field, c)) (epoch ∷ []) (writer ∷ []) spec q.0 q.1;
    approx_sum =
        λ q s. approx_sum (λ ep u c. s.chains (field, c)) (epoch ∷ []) (writer ∷ []) spec q.0 q.1;
    histogram =
        λ q s. histogram (λ ep u c. s.chains (field, c)) (epoch ∷ []) (writer ∷ []) spec q.0 q.1 0;
  }

  abbrev pub Fits : ℕ × Row → Type 0
  Fits row = InDomain spec (row.1 field)

  abbrev pub matching : ℕ × ℕ → ℕ × Row → ℕ
  matching q row = matches q.0 q.1 spec.leaf_width (row.1 field)

  inserted_into_returns :
      (n k : ℕ) (s : Index) (r : Result Index)
      → (inserted_into n s r).0 ≡ ok k
      → r ≡ ok (inserted_into n s r).1
  inserted_into_returns n k s (ok s') h = refl
  inserted_into_returns n k s (raise e) h = cc

  -- The index satisfies what `sharded-Counts` relies on, if the field stands once in the schema.
  pub indexed-Counts :
      All (Other field) before → All (Other field) after → Counts indexed Fits matching
  unfolding count
  indexed-Counts hb ha = record {
    insert_law = λ rows s n q c f e h.
        let schema : Schema = before ++ (field, spec) ∷ after in
        let (mlvl, level, counted) = bind-returns (max_level spec.bits spec.leaf_width) _ h in
        let cs = dyadic_cover q.0 q.1 spec.bits mlvl in
        let s' = (indexed.insert_many rows s).1 in
        let done = inserted_into_returns (length rows) n s (insert_many schema rows s) e in
        let grown =
          total-insert_many before after field spec mlvl hb ha level q.0 q.1 rows s s' f done in
        let old =
          chain_total-writers (λ ep u c. s.chains (field, c)) (epoch ∷ []) (writer ∷ []) cs in
        let new =
          chain_total-writers (λ ep u c. s'.chains (field, c)) (epoch ∷ []) (writer ∷ []) cs in
        let same : chain_total (λ ep u c. s.chains (field, c)) (epoch ∷ []) (writer ∷ []) cs ≡ c =
          cc in
        rw level (ap ok (omega (arith, new, grown, old, same)));
  }
