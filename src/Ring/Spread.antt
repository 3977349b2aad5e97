-- ===== src/Ring/Spread.antt =====
-- `_diversify` of blindrange/ring.py: distinct nodes, as many as wanted, of different groups if the
-- window has them.
use blindrange.Prelude.{
  ℕ, ◌≤◌, ◌<◌, ◌≡◌, sym, ap, ◌∙◌, true, false, ◌||◌, List, [], ◌∷◌, ◌++◌, leb, length,
  length-append, contains, contains-append, Distinct, Distinct-snoc, All, All-append, Option, none,
  some, arith, subst,
}
use mathlib.Core.List.{append_assoc, append-nil}
use blindrange.Ring.{Groups, group_of, clashes, noted, pick}
use blindrange.Ring.Diversity.{labels, labels-append, branches}

-- The node is there, or one of its group is.
abbrev pub Represented : Groups → List ℕ → ℕ → Type 0
Represented groups r z = (contains z r || clashes (group_of groups z) (labels groups r)) ≡ true

pub record Picked (whole : List ℕ) (groups : Groups) (want : ℕ) (window picked r : List ℕ)
    : Type 0 where
  pub more : List ℕ
  pub extends : r ≡ picked ++ more
  pub distinct : Distinct r
  pub spread : Distinct (labels groups r)
  pub short : length r ≤ want
  pub full : length r < want → All (Represented groups r) window
  pub chosen : All (λ z. contains z whole ≡ true) r

fresh_rest :
    (node : ℕ) (window picked : List ℕ)
    → contains node window ≡ false
    → All (λ z. contains z picked ≡ false) window
    → All (λ z. contains z (picked ++ node ∷ []) ≡ false) window
fresh_rest node [] picked n h = tt
fresh_rest node (z ∷ window) picked n (h, hs) = (
  ground (arith, contains-append z picked (node ∷ [])),
  fresh_rest node window picked (ground arith) hs,
)

labels-snoc :
    (groups : Groups) (picked : List ℕ) (node : ℕ)
    → labels groups (picked ++ node ∷ []) ≡ labels groups picked ++ noted (group_of groups node)
unfolding labels
labels-snoc groups picked node =
    labels-append groups picked (node ∷ []) ∙ ap (λ t. labels groups picked ++ t) (append-nil _)

Distinct-noted :
    (g : Option ℕ) (seen : List ℕ)
    → Distinct seen
    → clashes g seen ≡ false
    → Distinct (seen ++ noted g)
unfolding clashes noted
Distinct-noted none seen d h = subst Distinct (sym (append-nil seen)) d
Distinct-noted (some g) seen d h = Distinct-snoc seen g d h

clashes-append :
    (g : Option ℕ) (seen more : List ℕ) → clashes g seen ≡ true → clashes g (seen ++ more) ≡ true
unfolding clashes
clashes-append none seen more h = cc
clashes-append (some g) seen more h = ground (arith, contains-append g seen more)

-- What is represented stays so when nodes are appended.
pub Represented-append :
    (groups : Groups) (xs ys : List ℕ) (z : ℕ)
    → Represented groups xs z
    → Represented groups (xs ++ ys) z
Represented-append groups xs ys z h = rw (labels-append groups xs ys) (
    ground (
      arith,
      contains-append z xs ys,
      clashes-append (group_of groups z) (labels groups xs) (labels groups ys),
    ))

pub All-map {ℓ} :
    {A : Type 0} {P Q : A → Type ℓ} (xs : List A) → ((x : A) → P x → Q x) → All P xs → All Q xs
All-map [] f h = tt
All-map (x ∷ xs) f (h, hs) = (f x h, All-map xs f hs)

pub pick-Picked :
    (whole : List ℕ) (groups : Groups) (want : ℕ) (window picked : List ℕ)
    → Distinct picked
    → Distinct window
    → Distinct (labels groups picked)
    → length picked ≤ want
    → All (λ z. contains z whole ≡ true) picked
    → All (λ z. contains z whole ≡ true) window
    → All (λ z. contains z picked ≡ false) window
    → Picked whole groups want window picked (pick groups want window picked (labels groups picked))
unfolding pick
pick-Picked whole groups want [] picked d dw dl h hp hw f = record {
  more = [];
  extends = sym (append-nil picked);
  distinct = d;
  spread = dl;
  short = h;
  full = λ _. tt;
  chosen = hp;
}
pick-Picked whole groups want (node ∷ window) picked d (dn, dw) dl h hp (hn, hw) (fn, f) =
    branches (Picked whole groups want (node ∷ window) picked) (leb want (length picked))
      (clashes (group_of groups node) (labels groups picked)) _ _ _
      (λ enough. record {
        more = [];
        extends = sym (append-nil picked);
        distinct = d;
        spread = dl;
        short = h;
        full = λ low. absurd (ground arith);
        chosen = hp;
      })
      (λ room clash.
        let rest = pick-Picked whole groups want window picked d dw dl h hp hw f in
        record {
          more = rest.more;
          extends = rest.extends;
          distinct = rest.distinct;
          spread = rest.spread;
          short = rest.short;
          full = λ low. (
            subst (λ t. Represented groups t node) (sym rest.extends)
                (Represented-append groups picked rest.more node (ground arith)),
            rest.full low,
          );
          chosen = rest.chosen;
        })
      (λ room clear.
        let same = labels-snoc groups picked node in
        let dl' : Distinct (labels groups (picked ++ node ∷ [])) =
          subst Distinct (sym same)
            (Distinct-noted (group_of groups node) (labels groups picked) dl clear) in
        let rest' =
          pick-Picked whole groups want window (picked ++ node ∷ [])
            (Distinct-snoc picked node d fn) dw dl'
            (ground (arith, length-append picked (node ∷ [])))
            (All-append (λ z. contains z whole ≡ true) picked (node ∷ []) hp (hn, tt)) hw
            (fresh_rest node window picked dn f) in
        let rest =
          subst
            (λ t.
              Picked whole groups want window (picked ++ node ∷ [])
                (pick groups want window (picked ++ node ∷ []) t))
            same rest' in
        record {
          more = node ∷ rest.more;
          extends = rest.extends ∙ append_assoc picked (node ∷ []) rest.more;
          distinct = rest.distinct;
          spread = rest.spread;
          short = rest.short;
          full = λ low. (
            rw (rest.extends, append_assoc)
                (ground (arith, contains-append node picked (node ∷ rest.more))),
            rest.full low,
          );
          chosen = rest.chosen;
        })
