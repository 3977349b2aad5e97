-- ===== src/Sql/Session/Writes.antt =====
-- Reads of blindrange/sql.py see the session's own writes: what `_flush` leaves.
use blindrange.Prelude.{
  ◌≡◌, refl, sym, ap, ◌∙◌, true, false, List, [], ◌∷◌, if◌then◌else◌, String, str_eq, str_eq_iff,
  Option, none, some, Result, ok, raise, Error, file_not_found, ◌||◌, ◌⊎◌, Bool-cases, inl, inr,
  arith,
}
use blindrange.Sql.{find, assign}
use blindrange.Sql.Insert.Filling.{find-assign}
use blindrange.Sql.Select.{Engine}
use blindrange.Sql.Session.{Session, contains, discard, with_owner, on_owner, after, flush}

contains-discard :
    (name other : String) (names : List String)
    → contains other (discard name names)
      ≡ (if str_eq name other then false else contains other names)
unfolding discard
contains-discard name other [] = elim (Bool-cases (str_eq name other)) [
  | inl e ↦ rw e refl
  | inr e ↦ rw e refl
]
contains-discard name other (n ∷ names) = elim (Bool-cases (str_eq n name)) [
  | inl here ↦
      let same : n ≡ name = (str_eq_iff n name).0 here in
      rw (here, contains-discard name other names, same) (ground arith)
  | inr away ↦
      rw (away, contains-discard name other names) (later (Bool-cases (str_eq n other)) away)
]
  where
    later :
        (str_eq n other ≡ true) ⊎ (str_eq n other ≡ false)
        → str_eq n name ≡ false
        → (str_eq n other || (if str_eq name other then false else contains other names))
          ≡ (if str_eq name other then false else str_eq n other || contains other names)
    later (inl x) o = elim (Bool-cases (str_eq name other)) [
      | inl y ↦
          let one : n ≡ name = (str_eq_iff n other).0 x ∙ sym ((str_eq_iff name other).0 y) in
          let both : str_eq n name ≡ true = (str_eq_iff n name).1 one in cc
      | inr y ↦ rw (x, y) refl
    ]
    later (inr x) o = rw x refl

-- What is left of a step that did not raise.
after-ok :
    {St : Type 0} (r : Result (Unit {0})) (t : Session St) (k : Session St → Session St)
    (s' : Session St)
    → after (r, t) (λ _ x. (ok tt, k x)) ≡ (ok tt, s')
    → s' ≡ k t
after-ok (ok u) t k s' h = sym (ap (λ p. p.1) h)
after-ok (raise x) t k s' h = absurd (raised x (ap (λ p. p.0) h))
  where
    raised : (x : Error) → ◌≡◌ {A = Result (Unit {0})} (raise x) (ok tt) → ⊥
    raised x e = cc

module _ {St : Type 0} (e : Engine St) where
  drained :
      (name : String) (o : Option St) (s s' : Session St)
      → find name s.owners ≡ o
      → after
          (on_owner name e.drain o s)
          (λ _ x. (ok tt, record x { dirty = discard name x.dirty }))
        ≡ (ok tt, s')
      → (p : St) × (find name s.owners ≡ some p)
        × (s' ≡ record s {
          owners = assign name (e.drain p).1 s.owners;
          dirty = discard name s.dirty;
        })
  unfolding on_owner
  drained name none s s' f h = absurd (not_found (ap (λ p. p.0) h))
    where
      not_found : ◌≡◌ {A = Result (Unit {0})} (raise file_not_found) (ok tt) → ⊥
      not_found e = cc
  drained name (some o) s s' f h =
      (o, f, after-ok (e.drain o).0 _ (λ x. record x { dirty = discard name x.dirty }) s' h)

  -- What a flush leaves of the session.
  pub record Flushed (name other : String) (s s' : Session St) : Type 0 where
    pub clean :
        contains other s'.dirty ≡ (if str_eq name other then false else contains other s.dirty)
    pub others : str_eq name other ≡ false → find other s'.owners ≡ find other s.owners
    pub sent :
        (o : St)
        → contains name s.dirty ≡ true
        → find name s.owners ≡ some o
        → find name s'.owners ≡ some (e.drain o).1

  -- A flush that returns leaves the table without writes that are not sent: the owner has drained
  -- them if the table was dirty, and the other tables are as they were.
  pub flush_lem :
      (name other : String) (s s' : Session St)
      → flush e name s ≡ (ok tt, s')
      → Flushed name other s s'
  unfolding flush with_owner
  flush_lem name other s s' h = elim (Bool-cases (contains name s.dirty)) [
    | inl is_dirty ↦
        let (p, found, same) = drained name (find name s.owners) s s' refl (rw is_dirty at h) in
        rw same (record {
          clean = contains-discard name other s.dirty;
          others = λ apart. rw (find-assign, apart) refl;
          sent = λ o d f.
              let one : p ≡ o = some_same p o (sym found ∙ f) in
              rw (find-assign, (str_eq_iff name name).1 refl) (ap (λ t. some (e.drain t).1) one);
        })
    | inr is_clean ↦
        let same : s' ≡ s = sym (ap (λ p. p.1) (rw is_clean at h)) in
        rw same (record { clean = unchanged is_clean; others = λ apart. refl; sent = λ o d f. cc })
  ]
    where
      some_same : (p o : St) → ◌≡◌ {A = Option St} (some p) (some o) → p ≡ o
      some_same p o e = cc

      unchanged :
          contains name s.dirty ≡ false
          → contains other s.dirty ≡ (if str_eq name other then false else contains other s.dirty)
      unchanged c = elim (Bool-cases (str_eq name other)) [
        | inl e ↦
            let one : name ≡ other = (str_eq_iff name other).0 e in
            rw e (ap (λ t. contains t s.dirty) (sym one) ∙ c)
        | inr e ↦ rw e refl
      ]
