-- ===== src/Client/Index/Returns.antt =====
-- `insert_many` of blindrange/client.py: when it returns.
use blindrange.Prelude.{
  ℕ, ◌≡◌, refl, List, [], ◌∷◌, String, Option, none, some, Result, ok, ◌>>=◌, All,
}
use blindrange.Dyadic.{max_level}
use blindrange.Client.Index.{
  Spec, Schema, Index, index_value, Row, index_field, index_fields, insert_many,
}

abbrev pub Accepted : String × Spec → Type 0
Accepted entry = (m : ℕ) × (max_level entry.1.bits entry.1.leaf_width ≡ ok m)

abbrev Returns {ℓ} : {A : Type ℓ} → Result A → Type ℓ
Returns r = (a : _) × (r ≡ ok a)

Returns-bind {ℓ κ} :
    {A : Type ℓ} {B : Type κ} (r : Result A) (f : A → Result B)
    → Returns r
    → ((a : A) → Returns (f a))
    → Returns (r >>= f)
Returns-bind r f (a, e) h = ((h a).0, rw e (h a).1)

Returns-index_field :
    (rid : ℕ) (field : String) (spec : Spec) (o : Option ℕ) (s : Index)
    → Accepted (field, spec)
    → Returns (index_field rid field spec o s)
unfolding index_field index_value
Returns-index_field rid field spec none s h = (s, refl)
Returns-index_field rid field spec (some v) s h =
    Returns-bind (max_level spec.bits spec.leaf_width) _ h (λ m. (_, refl))

Returns-index_fields :
    (rid : ℕ) (rec : Row) (schema : Schema) (s : Index)
    → All Accepted schema
    → Returns (index_fields rid rec schema s)
unfolding index_fields
Returns-index_fields rid rec [] s h = (s, refl)
Returns-index_fields rid rec ((field, spec) ∷ rest) s (h, hs) =
    Returns-bind (index_field rid field spec (rec field) s) _
      (Returns-index_field rid field spec (rec field) s h)
      (λ t. Returns-index_fields rid rec rest t hs)

-- An insert returns if `max_level` accepts every field of the schema.
pub insert_many_returns :
    (schema : Schema) (rows : List (ℕ × Row)) (s : Index)
    → All Accepted schema
    → (s' : Index) × (insert_many schema rows s ≡ ok s')
unfolding insert_many
insert_many_returns schema [] s h = (s, refl)
insert_many_returns schema ((rid, rec) ∷ rest) s h =
    Returns-bind (index_fields rid rec schema _) _ (Returns-index_fields rid rec schema _ h)
      (λ t. insert_many_returns schema rest t h)
