-- ===== src/Sql/Update/Kept.antt =====
-- What UPDATE of blindrange/sql.py writes for a row: the changes, and what it keeps of the old row.
use blindrange.Prelude.{
  ℕ, ◌≡◌, ◌⊎◌, refl, sym, ap, ◌∙◌, Bool, true, false, List, [], ◌∷◌, filter, if◌then◌else◌, String,
  str_eq, str_eq_iff, Option, none, some, Bool-cases, inl, inr,
}
use blindrange.Sql.{
  Text, Value, number, text_of, Column, key, stored, int, text_column, Columns, find, assign,
  Fields, Stored,
}
use blindrange.Sql.Insert.Filling.{find-assign}
use blindrange.Sql.Update.{
  is_key_column, update_columns, rekey, rekey_one, kept_part, keeps_column, keeps_handle,
  replacement,
}

-- Each name stands once, as in a dict.
abbrev pub IsDict {ℓ} : {A : Type ℓ} → List (String × A) → Type ℓ
IsDict [] = Unit
IsDict ((c, a) ∷ rest) = (find c rest ≡ none) × IsDict rest

abbrev pub or_else {ℓ} : {A : Type ℓ} → Option A → Option A → Option A
or_else none o = o
or_else (some a) o = some a

find-filter {ℓ} :
    {A : Type ℓ} (keeps : String → Bool) (xs : List (String × A)) (c : String)
    → find c (filter (λ p. keeps p.0) xs) ≡ (if keeps c then find c xs else none)
find-filter keeps [] c = elim (Bool-cases (keeps c)) [ inl k ↦ rw k refl | inr k ↦ rw k refl ]
find-filter keeps ((d, a) ∷ xs) c = elim (Bool-cases (str_eq d c)) [
  | inl here ↦
      let same = ap keeps ((str_eq_iff d c).0 here) in
      elim (Bool-cases (keeps c)) [
        | inl k ↦ let kd = same ∙ k in rw (kd, k, here) refl
        | inr k ↦ let kd = same ∙ k in rw (kd, k) (find-filter keeps xs c ∙ rw k refl)
      ]
  | inr away ↦
      let rest = find-filter keeps xs c in
      elim (Bool-cases (keeps d)) [ inl k ↦ rw (k, away) rest | inr k ↦ rw (k, away) rest ]
]

find-update_columns :
    (meta : Columns) (changes row : Fields) (c : String)
    → IsDict changes
    → find c (update_columns meta changes row)
      ≡ (if is_key_column (find c meta) then find c row else or_else (find c changes) (find c row))
unfolding update_columns
find-update_columns meta [] row c d = elim (Bool-cases (is_key_column (find c meta))) [
  | inl k ↦ rw k refl
  | inr k ↦ rw k refl
]
find-update_columns meta ((b, v) ∷ changes) row c (e, d) =
    find-update_columns meta changes (if is_key_column (find b meta) then row else assign b v row) c
      d
    ∙ step (Bool-cases (str_eq b c))
  where
    step :
        (str_eq b c ≡ true) ⊎ (str_eq b c ≡ false)
        → (if is_key_column (find c meta)
            then find c (if is_key_column (find b meta) then row else assign b v row)
            else or_else
                (find c changes)
                (find c (if is_key_column (find b meta) then row else assign b v row)))
          ≡ (if is_key_column (find c meta)
              then find c row
              else or_else (find c ((b, v) ∷ changes)) (find c row))
    step (inl here) =
        let same : b ≡ c = (str_eq_iff b c).0 here in
        let fresh : find c changes ≡ none = ap (λ t. find t changes) (sym same) ∙ e in
        elim (Bool-cases (is_key_column (find c meta))) [
          | inl k ↦ rw (k, same, k) refl
          | inr k ↦ rw (k, same, k, fresh, find-assign, (str_eq_iff c c).1 refl) refl
        ]
    step (inr away) = elim (Bool-cases (is_key_column (find b meta))) [
      | inl k ↦ rw (k, away) refl
      | inr k ↦ rw (k, away, find-assign, away) refl
    ]

module _ (key_bucket : String → Text → ℕ) where
  -- The bucket of a KEY column, and its handle.
  abbrev pub new_bucket : String → Option Value → Option Value → Option Value
  unfolding text_of
  new_bucket c none old = old
  new_bucket c (some v) old = some (number (key_bucket c (text_of v)))

  abbrev pub new_handle : Option Value → Option Text → Option Text
  unfolding text_of
  new_handle none old = old
  new_handle (some v) old = some (text_of v)

  abbrev Rekeyed : Bool → String → Option Value → Stored → Stored → Type 0
  unfolding new_bucket new_handle
  Rekeyed is_key c change r new =
      (find c new.columns
        ≡ (if is_key then new_bucket c change (find c r.columns) else find c r.columns))
      × (find c new.plain ≡ (if is_key then new_handle change (find c r.plain) else find c r.plain))

  rekey_one-Rekeyed :
      (c d : String) (change : Option Value) (r : Stored)
      → Rekeyed (str_eq d c) c change r (rekey_one key_bucket d change r)
  unfolding rekey_one Rekeyed
  rekey_one-Rekeyed c d none r = elim (Bool-cases (str_eq d c)) [
    | inl e ↦ rw e (refl, refl)
    | inr e ↦ rw e (refl, refl)
  ]
  rekey_one-Rekeyed c d (some v) r = elim (Bool-cases (str_eq d c)) [
    | inl e ↦
        let same : d ≡ c = (str_eq_iff d c).0 e in
        rw (find-assign, find-assign, e)
          (ap (λ t. some (number (key_bucket t (text_of v)))) same, refl)
    | inr e ↦ rw (find-assign, find-assign, e) (refl, refl)
  ]

  -- A column that is no KEY is passed over.
  skip :
      (c b : String) (spec : Column) (rest : Columns) (changes : Fields) (r new : Stored)
      → is_key_column (some spec) ≡ false
      → find b rest ≡ none
      → Rekeyed (is_key_column (find c rest)) c (find c changes) r new
      → Rekeyed (is_key_column (find c ((b, spec) ∷ rest))) c (find c changes) r new
  unfolding Rekeyed
  skip c b spec rest changes r new plain e (p, q) = elim (Bool-cases (str_eq b c)) [
    | inl here ↦
        let same : b ≡ c = (str_eq_iff b c).0 here in
        let fresh : find c rest ≡ none = ap (λ t. find t rest) (sym same) ∙ e in
        rw (here, plain) ((rw fresh at p), (rw fresh at q))
    | inr away ↦ rw away (p, q)
  ]

  rekey-Rekeyed :
      (c : String) (meta : Columns) (changes : Fields) (r : Stored)
      → IsDict meta
      → Rekeyed (is_key_column (find c meta)) c (find c changes) r (rekey key_bucket meta changes r)
  unfolding rekey Rekeyed
  rekey-Rekeyed c [] changes r d = (refl, refl)
  rekey-Rekeyed c ((b, key) ∷ rest) changes r (e, d) =
      key_step (rekey-Rekeyed c rest changes (rekey_one key_bucket b (find b changes) r) d)
        (Bool-cases (str_eq b c))
    where
      key_step :
          Rekeyed
            (is_key_column (find c rest))
            c
            (find c changes)
            (rekey_one key_bucket b (find b changes) r)
            (rekey key_bucket rest changes (rekey_one key_bucket b (find b changes) r))
          → (str_eq b c ≡ true) ⊎ (str_eq b c ≡ false)
          → Rekeyed
              (is_key_column (find c ((b, key) ∷ rest)))
              c
              (find c changes)
              r
              (rekey key_bucket rest changes (rekey_one key_bucket b (find b changes) r))
      key_step (p, q) (inl here) =
          let same : b ≡ c = (str_eq_iff b c).0 here in
          let fresh : find c rest ≡ none = ap (λ t. find t rest) (sym same) ∙ e in
          let (x, y) = rekey_one-Rekeyed c b (find b changes) r in
          rw here (
            (rw fresh at p)
                ∙ (rw here at x)
                ∙ ap (λ t. new_bucket c (find t changes) (find c r.columns)) same,
            (rw fresh at q)
                ∙ (rw here at y)
                ∙ ap (λ t. new_handle (find t changes) (find c r.plain)) same,
          )
      key_step (p, q) (inr away) =
          let (x, y) = rekey_one-Rekeyed c b (find b changes) r in
          rw away (
            p
                ∙ ap
                    (λ t.
                      if is_key_column (find c rest) then new_bucket c (find c changes) t else t)
                    (rw away at x),
            q
                ∙ ap (λ t. if is_key_column (find c rest) then new_handle (find c changes) t else t)
                    (rw away at y),
          )
  rekey-Rekeyed c ((b, stored) ∷ rest) changes r (e, d) =
      skip c b stored rest changes r (rekey key_bucket rest changes r) refl e
        (rekey-Rekeyed c rest changes r d)
  rekey-Rekeyed c ((b, int bits blur) ∷ rest) changes r (e, d) =
      skip c b (int bits blur) rest changes r (rekey key_bucket rest changes r) refl e
        (rekey-Rekeyed c rest changes r d)
  rekey-Rekeyed c ((b, text_column chars blur) ∷ rest) changes r (e, d) =
      skip c b (text_column chars blur) rest changes r (rekey key_bucket rest changes r) refl e
        (rekey-Rekeyed c rest changes r d)

  -- The row that UPDATE writes: each changed column has its new value, each changed KEY column its new
  -- handle and the bucket of that handle. Of the old row it keeps the columns of the table and the
  -- handles, except those whose name starts with `_`, which are lost unless they are changed.
  pub replacement_lem :
      (meta : Columns) (changes : Fields) (r : Stored) (c : String)
      → IsDict meta
      → IsDict changes
      → (let old = if keeps_column meta c then find c r.columns else none in
          let old_handle = if keeps_handle c then find c r.plain else none in
          (find c (replacement key_bucket meta changes r).columns ≡ (
            if is_key_column (find c meta)
            then new_bucket c (find c changes) old
            else or_else (find c changes) old))
          × (find c (replacement key_bucket meta changes r).plain ≡ (
              if is_key_column (find c meta)
              then new_handle (find c changes) old_handle
              else old_handle)))
  unfolding replacement kept_part Rekeyed
  replacement_lem meta changes r c dm dc =
      let kept = kept_part meta r in
      let written : Stored = record {
        columns = update_columns meta changes kept.columns;
        plain = kept.plain;
      } in
      let (p, q) = rekey-Rekeyed c meta changes written dm in
      let u = find-update_columns meta changes kept.columns c dc in
      let old = find-filter (keeps_column meta) r.columns c in
      let old_handle = find-filter keeps_handle r.plain c in
      (
        elim (Bool-cases (is_key_column (find c meta))) [
          | inl k ↦ rw k ((rw k at p) ∙ ap (new_bucket c (find c changes)) ((rw k at u) ∙ old))
          | inr k ↦ rw k ((rw k at p) ∙ (rw k at u) ∙ ap (or_else (find c changes)) old)
        ],
        q
            ∙ ap (λ h. if is_key_column (find c meta) then new_handle (find c changes) h else h)
                old_handle,
      )
