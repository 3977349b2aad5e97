-- ===== src/Sharded/Handles.antt =====
-- The handles of blindrange/sharded.py: what `_tag` writes, `_untag` reads; and which shard a delete
-- of a handle goes to.
use blindrange.Prelude.{
  is_empty, ℕ, ◌≡◌, refl, sym, ap, ◌∙◌, true, false, List, [], ◌∷◌, ◌++◌, ◌==◌, if◌then◌else◌, ok,
  raise, bind-returns, show, read-show, show-digits, is_digit, all, any, arith, Bool-cases, inl,
  inr,
}
use mathlib.Core.List.{append-nil, append_assoc}
use blindrange.Sharded.{Text, partition, tag, untag, set_default, group_handles}

-- A text without the separator is what stands before it.
partition-append :
    (c : ℕ) (xs ys : Text) → any (λ x. x == c) xs ≡ false → partition c (xs ++ c ∷ ys) ≡ (xs, ys)
unfolding partition
partition-append c [] ys h = ground arith
partition-append c (x ∷ xs) ys h = ground (arith, partition-append c xs ys)

digits_no_colon : (xs : Text) → all is_digit xs ≡ true → any (λ x. x == b':') xs ≡ false
digits_no_colon [] h = refl
digits_no_colon (x ∷ xs) h = ground (arith, digits_no_colon xs)

-- The handle of a shard is read back as the shard's number and the bare handle, unless that is empty.
pub untag-tag : (n : ℕ) (rid : Text) → is_empty rid ≡ false → untag (tag n rid) ≡ ok (n, rid)
unfolding untag tag
untag-tag n rid h =
    rw
      (
        partition-append b':' (show n) rid (digits_no_colon (show n) (show-digits n)),
        h,
        read-show n,
      )
      refl

-- The bare handles of the shard `n` among handles that are all read.
unfoldable pub bare_of : ℕ → List Text → List Text
unfolding untag
bare_of n [] = []
bare_of n (rid ∷ rids) = elim (untag rid) [
  | raise e ↦ bare_of n rids
  | ok p ↦ if p.0 == n then p.1 ∷ bare_of n rids else bare_of n rids
]

-- What a list of groups has for a shard.
unfoldable pub group_of : ℕ → List (ℕ × List Text) → List Text
group_of n [] = []
group_of n ((m, rids) ∷ groups) = if m == n then rids else group_of n groups

group_of-set_default :
    (n m : ℕ) (bare : Text) (groups : List (ℕ × List Text))
    → group_of n (set_default m bare groups)
      ≡ (if m == n then group_of n groups ++ bare ∷ [] else group_of n groups)
unfolding group_of set_default
group_of-set_default n m bare [] = refl
group_of-set_default n m bare ((k, rids) ∷ groups) =
    ground (arith, group_of-set_default n m bare groups)

-- All the handles are read, or the first that is not raises.
group_handles_lem :
    (rids : List Text) (before out : List (ℕ × List Text)) (n : ℕ)
    → group_handles rids before ≡ ok out
    → group_of n out ≡ group_of n before ++ bare_of n rids
unfolding group_handles bare_of
group_handles_lem [] before out n e =
    let same : out ≡ before = cc in rw same (sym (append-nil (group_of n before)))
group_handles_lem (rid ∷ rids) before out n e =
    let (p, e1, e2) = bind-returns (untag rid) _ e in
    group_handles_lem rids (set_default p.0 p.1 before) out n e2
    ∙ ap (λ t. t ++ bare_of n rids) (group_of-set_default n p.0 p.1 before)
    ∙ split p.0 p.1 e1
  where
    split :
        (m : ℕ) (bare : Text)
        → untag rid ≡ ok (m, bare)
        → (if m == n then group_of n before ++ bare ∷ [] else group_of n before) ++ bare_of n rids
          ≡ group_of n before ++ bare_of n (rid ∷ rids)
    split m bare e1 = elim (Bool-cases (m == n)) [
      | inl here ↦
          rw (here, bare_of, e1, here)
            (append_assoc (group_of n before) (bare ∷ []) (bare_of n rids))
      | inr other ↦ rw (other, bare_of, e1, other) refl
    ]

-- When every handle is read, the group of a shard has the bare handles of that shard, in order.
pub group_of-group_handles :
    (rids : List Text) (groups : List (ℕ × List Text)) (n : ℕ)
    → group_handles rids [] ≡ ok groups
    → group_of n groups ≡ bare_of n rids
group_of-group_handles rids groups n e =
    group_handles_lem rids [] groups n e ∙ unfold group_of in refl
