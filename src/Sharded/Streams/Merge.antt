-- ===== src/Sharded/Streams/Merge.antt =====
-- `query_stream` of blindrange/sharded.py with ORDER BY: the order's sign, and the merge it asks for.
use mathlib.Core.List.{Perm}
use blindrange.Prelude.{
  ℕ, ◌+◌, ◌≡◌, refl, Bool, true, false, List, [], ◌∷◌, leb, ◌==◌, if◌then◌else◌, All, Option, some,
}
use blindrange.Sharded.{Text}
use blindrange.Sharded.Streams.{Found, tagged, tag_all, concat, limited, merged, query_stream}

-- Each row may stand before all those after it.
abbrev pub IsSorted {ℓ} : {A : Type ℓ} → (A → A → Bool) → List A → Type ℓ
IsSorted before [] = Unit
IsSorted before (x ∷ xs) = All (λ y. before x y ≡ true) xs × IsSorted before xs

-- Rising by the key, or falling.
abbrev pub in_order {ℓ} : {A : Type ℓ} → (A → ℕ) → Bool → A → A → Bool
in_order key falling x y = if falling then leb (key y) (key x) else leb (key x) (key y)

-- What is relied on of heapq.merge: of streams that rise by the key, or that fall if `reverse` is set,
-- it makes one that does so too and has their rows.
pub record Merges {ℓ} {A : Type ℓ} (merge : (A → ℕ) → Bool → List (List A) → List A) : Type ℓ where
  pub merge_law :
      (key : A → ℕ) (reverse : Bool) (streams : List (List A))
      → All (IsSorted (in_order key reverse)) streams
      → Perm (merge key reverse streams) (concat streams)
        × IsSorted (in_order key reverse) (merge key reverse streams)

-- An order by a field as a text: a falling one has a minus sign in front.
abbrev pub with_sign : Bool → Text → Text
with_sign true name = b'-' ∷ name
with_sign false name = name

module _ {A : Type 0} (key : A → ℕ) (falling : Bool) where
  abbrev before : Found A → Found A → Bool
  before = in_order (λ r. key r.body) falling

  All-tagged :
      (n : ℕ) (r : Found A) (rows : List (Found A))
      → All (λ s. before r s ≡ true) rows
      → All (λ s. before r s ≡ true) (tagged n rows)
  unfolding tagged
  All-tagged n r [] h = tt
  All-tagged n r (s ∷ rows) (h, hs) = (h, All-tagged n r rows hs)

  tagged-IsSorted :
      (n : ℕ) (rows : List (Found A)) → IsSorted before rows → IsSorted before (tagged n rows)
  unfolding tagged
  tagged-IsSorted n [] h = tt
  tagged-IsSorted n (r ∷ rows) (h, hs) = (All-tagged n r rows h, tagged-IsSorted n rows hs)

  tag_all-IsSorted :
      (n : ℕ) (streams : List (List (Found A)))
      → All (IsSorted before) streams
      → All (IsSorted before) (tag_all n streams)
  unfolding tag_all
  tag_all-IsSorted n [] h = tt
  tag_all-IsSorted n (rows ∷ streams) (h, hs) =
      (tagged-IsSorted n rows h, tag_all-IsSorted (n + 1) streams hs)

module _ {A : Type 0} (heapq_merge : (Found A → ℕ) → Bool → List (List (Found A)) → List (Found A))
    (law : Merges heapq_merge) (value : Text → A → ℕ) where
  abbrev pub asked : Bool → Text → Found A → Found A → Bool
  asked falling name = in_order (λ r. value name r.body) falling

  -- The answer to an order by a field whose name starts with no minus sign, written as the name for the
  -- rising order and with a minus sign in front for the falling one: if the stream of each shard is in
  -- that order, so are the rows of all the shards, tagged, each once, of which the answer has as many
  -- of the first as the limit says.
  pub query_stream-IsSorted :
      (falling : Bool) (c : ℕ) (name : Text) (limit : Option ℕ) (streams : List (List (Found A)))
      → (c == b'-') ≡ false
      → All (IsSorted (asked falling (c ∷ name))) streams
      → (rows : List (Found A)) × Perm rows (concat (tag_all 0 streams))
        × IsSorted (asked falling (c ∷ name)) rows
        × (query_stream heapq_merge value (some (with_sign falling (c ∷ name))) limit streams
            ≡ limited limit rows)
  unfolding query_stream merged
  query_stream-IsSorted true c name limit streams h sorted =
      let key = λ (r : Found A). value (c ∷ name) r.body in
      let (rows, order) =
        law.merge_law key true (tag_all 0 streams)
          (tag_all-IsSorted (value (c ∷ name)) true 0 streams sorted) in
      (heapq_merge key true (tag_all 0 streams), rows, order, refl)
  query_stream-IsSorted false c name limit streams h sorted =
      let key = λ (r : Found A). value (c ∷ name) r.body in
      let (rows, order) =
        law.merge_law key false (tag_all 0 streams)
          (tag_all-IsSorted (value (c ∷ name)) false 0 streams sorted) in
      (heapq_merge key false (tag_all 0 streams), rows, order, rw h refl)
