-- ===== src/Ring/Diversity.antt =====
-- The second loop of `_diversify` of blindrange/ring.py: what it adds to the nodes picked before.
use blindrange.Prelude.{
  ℕ, ◌≤◌, ◌<◌, ◌≡◌, refl, sym, ◌∙◌, Bool, true, false, List, [], ◌∷◌, ◌++◌, leb, if◌then◌else◌,
  length, length-append, All-append, contains, contains-append, Distinct, Distinct-snoc, All, arith,
}
use mathlib.Core.List.{append_assoc, append-nil}
use blindrange.Ring.{Groups, group_of, noted, complete}

-- The groups of the labelled nodes of a list.
unfoldable pub labels : Groups → List ℕ → List ℕ
unfolding noted
labels groups [] = []
labels groups (x ∷ xs) = noted (group_of groups x) ++ labels groups xs

pub labels-append :
    (groups : Groups) (xs ys : List ℕ)
    → labels groups (xs ++ ys) ≡ labels groups xs ++ labels groups ys
unfolding labels
labels-append groups [] ys = refl
labels-append groups (x ∷ xs) ys =
    rw (labels-append groups xs ys) (sym (append_assoc _ (labels groups xs) (labels groups ys)))

-- What holds of each way out of a loop's body holds of the loop.
pub branches {ℓ} :
    (P : List ℕ → Type ℓ) (t u : Bool) (a b c : List ℕ)
    → (t ≡ true → P a)
    → (t ≡ false → u ≡ true → P b)
    → (t ≡ false → u ≡ false → P c)
    → P (if t then a else if u then b else c)
branches P true u a b c f g h = f refl
branches P false true a b c f g h = g refl refl
branches P false false a b c f g h = h refl refl

-- What `complete` makes of the nodes picked before it; all of them are among `whole`.
pub record Completed (whole : List ℕ) (want : ℕ) (order picked r : List ℕ) : Type 0 where
  pub more : List ℕ
  pub extends : r ≡ picked ++ more
  pub distinct : Distinct r
  pub short : length r ≤ want
  pub full : length r < want → All (λ z. contains z r ≡ true) order
  pub chosen : All (λ z. contains z whole ≡ true) r

pub complete-Completed :
    (whole : List ℕ) (want : ℕ) (order picked : List ℕ)
    → Distinct picked
    → length picked ≤ want
    → All (λ z. contains z whole ≡ true) picked
    → All (λ z. contains z whole ≡ true) order
    → Completed whole want order picked (complete want order picked)
unfolding complete
complete-Completed whole want [] picked d h hp ho = record {
  more = [];
  extends = sym (append-nil picked);
  distinct = d;
  short = h;
  full = λ _. tt;
  chosen = hp;
}
complete-Completed whole want (node ∷ order) picked d h hp (hn, ho) =
    branches (Completed whole want (node ∷ order) picked) (leb want (length picked))
      (contains node picked) _ _ _
      (λ enough. record {
        more = [];
        extends = sym (append-nil picked);
        distinct = d;
        short = h;
        full = λ low. absurd (ground arith);
        chosen = hp;
      })
      (λ room old.
        let rest = complete-Completed whole want order picked d h hp ho in
        record {
          more = rest.more;
          extends = rest.extends;
          distinct = rest.distinct;
          short = rest.short;
          full = λ low. (
            rw rest.extends (ground (arith, contains-append node picked rest.more)),
            rest.full low,
          );
          chosen = rest.chosen;
        })
      (λ room new.
        let rest =
          complete-Completed whole want order (picked ++ node ∷ [])
            (Distinct-snoc picked node d new) (ground (arith, length-append picked (node ∷ [])))
            (All-append (λ z. contains z whole ≡ true) picked (node ∷ []) hp (hn, tt)) ho in
        record {
          more = node ∷ rest.more;
          extends = rest.extends ∙ append_assoc picked (node ∷ []) rest.more;
          distinct = rest.distinct;
          short = rest.short;
          full = λ low. (
            rw (rest.extends, append_assoc)
                (ground (arith, contains-append node picked (node ∷ rest.more))),
            rest.full low,
          );
          chosen = rest.chosen;
        })
