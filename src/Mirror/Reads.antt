-- ===== src/Mirror/Reads.antt =====
-- What the mirror returns after writes and deletes.
use blindrange.Prelude.{
  ℕ, zero, suc, ◌≤◌, ◌≡◌, refl, sym, ap, ◌∙◌, Bool, false, not, ◌||◌, List, [], ◌∷◌, ◌==◌,
  if◌then◌else◌, Option, some, none, Bool-cases, inl, inr, ◌⊎◌, length, take, drop, length-drop,
  take-append-drop, contains, contains-append, filter, find_key, has_key, assign, find_key-assign,
  has_key-assign, arith,
}
use blindrange.Mirror.{
  Items, Mirror, update, select_in, get_chunks, get_many, put_many, delete_in, delete_chunks,
  delete_many,
}
use blindrange.Node.Rows.{last_write}

-- The keys are a primary key.
abbrev Unique : Items → Type 0
Unique [] = Unit
Unique ((k, v) ∷ d) = (has_key d k ≡ false) × Unique d

pub record IsValid (m : Mirror) : Type 0 where
  pub unique : Unique m.rows

abbrev or_else : Option ℕ → Option ℕ → Option ℕ
or_else none o = o
or_else (some v) o = some v

absent_none : (d : Items) (k : ℕ) → has_key d k ≡ false → find_key d k ≡ none
absent_none [] k h = refl
absent_none ((j, v) ∷ d) k h = ground (arith, h, absent_none d k)

find_key-update :
    (d items : Items) (x : ℕ)
    → Unique items
    → find_key (update d items) x ≡ or_else (find_key items x) (find_key d x)
unfolding update
find_key-update d [] x u = refl
find_key-update d ((k, v) ∷ items) x (a, u) = elim (Bool-cases (k == x)) [
  | inl same ↦
      let e : k ≡ x = ground (arith, same) in
      let gone = absent_none items k a in
      let gone' = rw e at gone in
      find_key-update (assign d k v) items x u ∙ rw (gone', find_key-assign d k x v, same) refl
  | inr other ↦ find_key-update (assign d k v) items x u ∙ rw (find_key-assign d k x v, other) refl
]

module _ (p : ℕ → Bool) where
  has_key-filter :
      (rows : Items) (x : ℕ)
      → has_key rows x ≡ false
      → has_key (filter (λ item. p item.0) rows) x ≡ false
  has_key-filter [] x h = refl
  has_key-filter ((k, v) ∷ rows) x h = ground (arith, h, has_key-filter rows x)

  filter-Unique : (rows : Items) → Unique rows → Unique (filter (λ item. p item.0) rows)
  filter-Unique [] u = u
  filter-Unique ((k, v) ∷ rows) (a, u) = elim (Bool-cases (p k)) [
    | inl keep ↦ rw keep (has_key-filter rows k a, filter-Unique rows u)
    | inr drop_it ↦ rw drop_it (filter-Unique rows u)
  ]

  find_key-filter :
      (rows : Items) (x : ℕ)
      → find_key (filter (λ item. p item.0) rows) x ≡ (if p x then find_key rows x else none)
  find_key-filter [] x = ground arith
  find_key-filter ((k, v) ∷ rows) x = elim (Bool-cases (k == x)) [
    | inl same ↦
        let e : k ≡ x = ground (arith, same) in rw e (ground (arith, find_key-filter rows x))
    | inr other ↦ ground (arith, find_key-filter rows x, other)
  ]

contains-chunk :
    (x n : ℕ) (keys : List ℕ)
    → contains x keys ≡ (contains x (take n keys) || contains x (drop n keys))
contains-chunk x n keys =
    ap (contains x) (sym (take-append-drop n keys)) ∙ contains-append x (take n keys) (drop n keys)

or_else_known : (o o' : Option ℕ) → (o' ≡ none) ⊎ (o' ≡ o) → or_else o o' ≡ o
or_else_known (some v) o' h = refl
or_else_known none o' (inl e) = e
or_else_known none o' (inr e) = e

-- One chunk: what was asked for in it is found as it stands in the table.
module _ (chunk : List ℕ) (rows out : Items) (x : ℕ) (u : Unique rows)
    (h : (find_key out x ≡ none) ⊎ (find_key out x ≡ find_key rows x)) where
  with_chunk :
      find_key (update out (select_in chunk rows)) x
      ≡ (if contains x chunk then find_key rows x else find_key out x)
  unfolding select_in
  with_chunk = elim (Bool-cases (contains x chunk)) [
    | inl here ↦
        find_key-update out (filter (λ item. contains item.0 chunk) rows) x
          (filter-Unique (λ k. contains k chunk) rows u)
        ∙ rw (find_key-filter (λ k. contains k chunk) rows x, here)
            (or_else_known (find_key rows x) (find_key out x) h)
    | inr away ↦
        find_key-update out (filter (λ item. contains item.0 chunk) rows) x
          (filter-Unique (λ k. contains k chunk) rows u)
        ∙ rw (find_key-filter (λ k. contains k chunk) rows x, away) refl
  ]

  still_known :
      (find_key (update out (select_in chunk rows)) x ≡ none)
      ⊎ (find_key (update out (select_in chunk rows)) x ≡ find_key rows x)
  still_known = elim (Bool-cases (contains x chunk)) [
    | inl here ↦ inr (with_chunk ∙ rw here refl)
    | inr away ↦ elim h [
      | inl e ↦ inl (with_chunk ∙ rw away e)
      | inr e ↦ inr (with_chunk ∙ rw away e)
    ]
  ]

find_key-get_chunks :
    (f : ℕ) (keys : List ℕ) (rows out : Items) (x : ℕ)
    → length keys ≤ f
    → Unique rows
    → (find_key out x ≡ none) ⊎ (find_key out x ≡ find_key rows x)
    → find_key (get_chunks f keys rows out) x
      ≡ (if contains x keys then find_key rows x else find_key out x)
unfolding get_chunks
find_key-get_chunks zero [] rows out x le u h = refl
find_key-get_chunks zero (k ∷ keys) rows out x le u h = absurd (omega arith)
find_key-get_chunks (suc f) [] rows out x le u h = refl
find_key-get_chunks (suc f) (k ∷ keys) rows out x le u h =
    let chunk = take 512 (k ∷ keys) in
    let rest = drop 512 (k ∷ keys) in
    let shorter : length rest ≤ f = omega (arith, length-drop 512 (k ∷ keys), le) in
    find_key-get_chunks f rest rows (update out (select_in chunk rows)) x shorter u
      (still_known chunk rows out x u h)
    ∙ rw (with_chunk chunk rows out x u h, contains-chunk x 512 (k ∷ keys))
        (test_or (contains x chunk) (contains x rest))
  where
    test_or :
        (c d : Bool)
        → (if d then find_key rows x else (if c then find_key rows x else find_key out x))
          ≡ (if c || d then find_key rows x else find_key out x)
    test_or c d = ground arith

find_key-delete_chunks :
    (f : ℕ) (keys : List ℕ) (rows : Items) (x : ℕ)
    → length keys ≤ f
    → find_key (delete_chunks f keys rows) x ≡ (if contains x keys then none else find_key rows x)
unfolding delete_chunks delete_in
find_key-delete_chunks zero [] rows x le = refl
find_key-delete_chunks zero (k ∷ keys) rows x le = absurd (omega arith)
find_key-delete_chunks (suc f) [] rows x le = refl
find_key-delete_chunks (suc f) (k ∷ keys) rows x le =
    let chunk = take 512 (k ∷ keys) in
    let rest = drop 512 (k ∷ keys) in
    let shorter : length rest ≤ f = omega (arith, length-drop 512 (k ∷ keys), le) in
    find_key-delete_chunks f rest (delete_in chunk rows) x shorter
    ∙ rw (find_key-filter (λ j. not (contains j chunk)) rows x, contains-chunk x 512 (k ∷ keys))
        (test_or (contains x chunk) (contains x rest))
  where
    test_or :
        (c d : Bool)
        → (if d then none else (if not c then find_key rows x else none))
          ≡ (if c || d then none else find_key rows x)
    test_or c d = ground arith

update-Unique : (d items : Items) → Unique d → Unique (update d items)
unfolding update
update-Unique d [] u = u
update-Unique d ((k, v) ∷ items) u = update-Unique (assign d k v) items (assign-Unique d k v u)
  where
    assign-Unique : (d : Items) (k v : ℕ) → Unique d → Unique (assign d k v)
    assign-Unique [] k v u = (refl, tt)
    assign-Unique ((j, w) ∷ d) k v (a, u) = elim (Bool-cases (j == k)) [
      | inl same ↦ rw same (a, u)
      | inr other ↦
          rw other (ground (arith, has_key-assign d k j v, a, other), assign-Unique d k v u)
    ]

find_key-put :
    (pairs d : Items) (x : ℕ) → find_key (update d pairs) x ≡ last_write pairs x (find_key d x)
unfolding update last_write
find_key-put [] d x = refl
find_key-put ((k, v) ∷ pairs) d x =
    find_key-put pairs (assign d k v) x ∙ ap (last_write pairs x) (find_key-assign d k x v)

delete_chunks-Unique :
    (f : ℕ) (keys : List ℕ) (rows : Items) → Unique rows → Unique (delete_chunks f keys rows)
unfolding delete_chunks delete_in
delete_chunks-Unique zero keys rows u = u
delete_chunks-Unique (suc f) [] rows u = u
delete_chunks-Unique (suc f) (k ∷ keys) rows u =
    delete_chunks-Unique f (drop 512 (k ∷ keys)) (delete_in (take 512 (k ∷ keys)) rows)
      (filter-Unique (λ j. not (contains j (take 512 (k ∷ keys)))) rows u)

-- The mirror returns the rows of the keys that it is asked for.
pub find_key-get_many :
    (keys : List ℕ) (m : Mirror) (x : ℕ)
    → IsValid m
    → find_key (get_many keys m) x ≡ (if contains x keys then find_key m.rows x else none)
unfolding get_many
find_key-get_many keys m x v =
    find_key-get_chunks (length keys) keys m.rows [] x (omega arith) v.unique (inl refl)

-- After pairs are written and keys deleted, the keys of the mirror are still different, and a read has,
-- for a key that it asks for and that was not deleted, the value of the last pair that writes it, or the
-- one that it had.
pub mirror-reads :
    (pairs : Items) (gone keys : List ℕ) (m : Mirror) (x : ℕ)
    → IsValid m
    → IsValid (delete_many gone (put_many pairs m))
      × (find_key (get_many keys (delete_many gone (put_many pairs m))) x ≡ (
          if contains x keys
          then (if contains x gone then none else last_write pairs x (find_key m.rows x))
          else none))
unfolding delete_many put_many
mirror-reads pairs gone keys m x v =
    let u =
      delete_chunks-Unique (length gone) gone (update m.rows pairs)
        (update-Unique m.rows pairs v.unique) in
    let after = delete_many gone (put_many pairs m) in
    (
      record { unique = u },
      find_key-get_many keys after x (record { unique = u })
          ∙ rw
              (
                find_key-delete_chunks (length gone) gone (update m.rows pairs) x (omega arith),
                find_key-put pairs m.rows x,
              )
              refl,
    )
