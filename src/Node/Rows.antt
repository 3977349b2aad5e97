-- ===== src/Node/Rows.antt =====
-- The table kv of blindrange/node.py: what a read returns after the writes.
use blindrange.Prelude.{
  ℕ, ◌≡◌, refl, sym, ap, ◌∙◌, true, false, List, [], ◌∷◌, ◌==◌, if◌then◌else◌, Option, none, some,
  arith, Bool-cases, inl, inr, ◌⊎◌, contains, subst,
}
use blindrange.Node.{
  Store, lookup, replace, replace_all, put, delete_row, delete_rows, delete, set_found, fetch, mget,
}

lookup-replace :
    (rows : List (ℕ × ℕ)) (k v x : ℕ)
    → lookup (replace rows k v) x ≡ (if k == x then some v else lookup rows x)
unfolding lookup replace
lookup-replace [] k v x = refl
lookup-replace ((a, w) ∷ rows) k v x = ground (arith, lookup-replace rows k v x)

-- The value that the last entry for a key writes, or what was there before.
unfoldable pub last_write : List (ℕ × ℕ) → ℕ → Option ℕ → Option ℕ
last_write [] x o = o
last_write ((k, v) ∷ entries) x o = last_write entries x (if k == x then some v else o)

lookup-replace_all :
    (entries rows : List (ℕ × ℕ)) (x : ℕ)
    → lookup (replace_all rows entries) x ≡ last_write entries x (lookup rows x)
unfolding replace_all last_write
lookup-replace_all [] rows x = refl
lookup-replace_all ((k, v) ∷ entries) rows x =
    lookup-replace_all entries (replace rows k v) x
    ∙ ap (last_write entries x) (lookup-replace rows k v x)

lookup-set_found :
    (o : Option ℕ) (k x : ℕ) (out : List (ℕ × ℕ))
    → lookup out x ≡ none ⊎ (lookup out x ≡ o)
    → (k == x) ≡ true
    → lookup (set_found o k out) x ≡ o
unfolding set_found
lookup-set_found none k x out (inl e) s = e
lookup-set_found none k x out (inr e) s = e
lookup-set_found (some v) k x out h s = lookup-replace out k v x ∙ rw s refl

other-set_found :
    (o : Option ℕ) (k x : ℕ) (out : List (ℕ × ℕ))
    → (k == x) ≡ false
    → lookup (set_found o k out) x ≡ lookup out x
unfolding set_found
other-set_found none k x out s = refl
other-set_found (some v) k x out s = lookup-replace out k v x ∙ rw s refl

lookup-fetch :
    (rows : List (ℕ × ℕ)) (keys : List ℕ) (out : List (ℕ × ℕ)) (x : ℕ)
    → lookup out x ≡ none ⊎ (lookup out x ≡ lookup rows x)
    → lookup (fetch rows keys out) x ≡ (if contains x keys then lookup rows x else lookup out x)
unfolding fetch
lookup-fetch rows [] out x h = refl
lookup-fetch rows (k ∷ keys) out x h = elim (Bool-cases (k == x)) [
  | inl same ↦
      let at : k ≡ x = ground arith in
      let e : lookup (set_found (lookup rows k) k out) x ≡ lookup rows x =
        subst (λ t. lookup (set_found (lookup rows t) k out) x ≡ lookup rows x) (sym at)
          (lookup-set_found (lookup rows x) k x out h same) in
      ground (arith, lookup-fetch rows keys (set_found (lookup rows k) k out) x (inr e), e)
  | inr other ↦
      let e = other-set_found (lookup rows k) k x out other in
      ground (
        arith,
        lookup-fetch rows keys (set_found (lookup rows k) k out) x
            (subst (λ t. t ≡ none ⊎ (t ≡ lookup rows x)) (sym e) h),
        e,
      )
]

lookup-delete_row :
    (rows : List (ℕ × ℕ)) (k x : ℕ)
    → lookup (delete_row rows k).0 x ≡ (if k == x then none else lookup rows x)
unfolding lookup delete_row
lookup-delete_row [] k x = ground arith
lookup-delete_row ((a, w) ∷ rows) k x = ground (arith, lookup-delete_row rows k x)

lookup-delete_rows :
    (keys : List ℕ) (rows : List (ℕ × ℕ)) (x : ℕ)
    → lookup (delete_rows rows keys).0 x ≡ (if contains x keys then none else lookup rows x)
unfolding delete_rows
lookup-delete_rows [] rows x = refl
lookup-delete_rows (k ∷ keys) rows x =
    ground (arith, lookup-delete_rows keys (delete_row rows k).0 x, lookup-delete_row rows k x)

-- A read after a write and a delete: a key that is asked for has no value if it was deleted, else
-- the value of the last entry that writes it, else the one it had; a key that is not asked for has
-- none.
pub mget-put-delete :
    (entries : List (ℕ × ℕ)) (gone keys : List ℕ) (s : Store) (x : ℕ)
    → lookup (mget keys (delete gone (put entries s)).0).1 x ≡ (
        if contains x keys
        then if contains x gone then none else last_write entries x (lookup s.kv x)
        else none)
unfolding mget delete put
mget-put-delete entries gone keys s x =
    let rows = replace_all s.kv entries in
    lookup-fetch (delete_rows rows gone).0 keys [] x (inl (unfold lookup in refl))
    ∙ rw (lookup-delete_rows gone rows x, lookup-replace_all entries s.kv x) (unfold lookup in refl)
