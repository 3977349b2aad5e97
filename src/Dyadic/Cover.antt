-- ===== src/Dyadic/Cover.antt =====
-- `dyadic_cover` against `levels_for`: which of a value's labels a range query looks up.
use blindrange.Prelude.{
  ℕ, zero, suc, ◌+◌, ◌-◌, ◌*◌, ◌/◌, ◌^◌, ◌≤◌, ◌<◌, ◌≡◌, sym, ap, ◌∙◌, Bool, true, false, ◌&&◌, ◌||◌,
  List, [], ◌∷◌, ◌++◌, ltb, leb, ◌==◌, if◌then◌else◌, arith, two_pow_suc, two_pow_add, two_pow_pos,
  not, Bool-cases, inl, inr,
}
use native.Mathlib.Nat.{
  div-mul-le_self, lt-div-mul-add, div-div-eq-div-mul, mul-le-mul_right, mul_comm, div-eq_of_lt,
}
use blindrange.Dyadic.{Label, cover_rec, dyadic_cover}

-- The label stands for an interval that holds the value.
unfoldable pub holds : ℕ → ℕ → Label → Bool
holds bits v (l, i) = v / 2 ^ (bits - l) == i

unfoldable pub hits : ℕ → ℕ → List Label → ℕ
hits bits v [] = 0
hits bits v (c ∷ cs) = (if holds bits v c then 1 else 0) + hits bits v cs

pub hits-append :
    (bits v : ℕ) (xs ys : List Label) → hits bits v (xs ++ ys) ≡ hits bits v xs + hits bits v ys
unfolding hits
hits-append bits v [] ys = omega arith
hits-append bits v (x ∷ xs) ys = omega (arith, hits-append bits v xs ys)

-- The leaf of the value, an interval of width `w`, meets [a, b].
unfoldable pub overlaps : ℕ → ℕ → ℕ → ℕ → Bool
overlaps a b w v = leb a (v / w * w + w - 1) && leb (v / w * w) b

-- A number lies in its block of width `p`.
div_block : (v p : ℕ) → 0 < p → (v / p * p ≤ v) × (v < v / p * p + p)
div_block v p h = (div-mul-le_self v p, lt-div-mul-add h)

-- The leaf of width `w` lies in the block of width `q * w`.
leaf_in_block :
    (v q w : ℕ)
    → 0 < q
    → (v / (w * q) * (w * q) ≤ v / w * w) × (v / w * w + w ≤ v / (w * q) * (w * q) + w * q)
leaf_in_block v q w h = rw (← div-div-eq-div-mul v w q) (go (v / w) (div_block (v / w) q h))
  where
    go :
        (u : ℕ)
        → (u / q * q ≤ u) × (u < u / q * q + q)
        → (u / q * (w * q) ≤ u * w) × (u * w + w ≤ u / q * (w * q) + w * q)
    go u (p0, p1) = (omega (arith, mul-le-mul_right w p0), omega (arith, mul-le-mul_right w p1))

-- What the two tests of the recursion say of a leaf inside the interval [lo, lo + p).
outside :
    (a b w v lo p : ℕ)
    → 0 < w
    → lo ≤ v / w * w
    → v / w * w + w ≤ lo + p
    → (ltb (lo + p - 1) a || ltb b lo) ≡ true
    → overlaps a b w v ≡ false
unfolding overlaps
outside a b w v lo p w0 h1 h2 e = ground arith

inside :
    (a b w v lo p : ℕ)
    → 0 < w
    → lo ≤ v / w * w
    → v / w * w + w ≤ lo + p
    → (leb a lo && leb (lo + p - 1) b) ≡ true
    → overlaps a b w v ≡ true
unfolding overlaps
inside a b w v lo p w0 h1 h2 e = ground arith

at_leaf : (a b w v : ℕ) → overlaps a b w v ≡ not (ltb (v / w * w + w - 1) a || ltb b (v / w * w))
unfolding overlaps
at_leaf a b w v = ground arith

leaf_in_cell :
    (v q w p idx lo : ℕ)
    → 0 < q
    → p ≡ w * q
    → lo ≡ idx * p
    → v / p ≡ idx
    → (lo ≤ v / w * w) × (v / w * w + w ≤ lo + p)
leaf_in_cell v q w p idx lo hq hp hl e = rw (hl, ← e, hp) (leaf_in_block v q w hq)

-- One interval of the recursion: `k` is the exponent of its width, `d` the levels below it.
record Node (bits mlvl d k lvl idx lo hi : ℕ) : Type 0 where
  depth : lvl + d ≡ mlvl
  width : lvl + k ≡ bits
  room : d ≤ k
  first : lo ≡ idx * 2 ^ k
  last : hi ≡ lo + 2 ^ k - 1

-- What a node adds to the labels that are looked up.
abbrev share : ℕ → ℕ → ℕ → ℕ → ℕ → ℕ → ℕ
share a b w v p idx = if v / p == idx then (if overlaps a b w v then 1 else 0) else 0

module _ {bits mlvl d k lvl idx lo hi : ℕ} (n : Node bits mlvl d k lvl idx lo hi) (a b v : ℕ) where
  abbrev leaf : ℕ
  leaf = 2 ^ (bits - mlvl)

  block : 2 ^ k ≡ leaf * 2 ^ d
  block =
      let e : bits - mlvl + d ≡ k = omega (arith, n.depth, n.width, n.room) in
      omega (arith, two_pow_add (bits - mlvl) d, ap (λ (t : ℕ). 2 ^ t) e)

  leaf_within : v / 2 ^ k ≡ idx → (lo ≤ v / leaf * leaf) × (v / leaf * leaf + leaf ≤ lo + 2 ^ k)
  leaf_within e = leaf_in_cell v (2 ^ d) leaf (2 ^ k) idx lo (two_pow_pos d) block n.first e

  pruned : (ltb hi a || ltb b lo) ≡ true → share a b leaf v (2 ^ k) idx ≡ 0
  pruned t = ground (
    arith,
    leaf_within,
    λ (e : v / 2 ^ k ≡ idx).
        outside a b leaf v lo (2 ^ k) (two_pow_pos (bits - mlvl)) (leaf_within e).0
          (leaf_within e).1 (rw (← n.last) t),
  )

  one_leaf : lvl ≡ mlvl → 2 ^ k ≡ leaf
  one_leaf e =
      let z : d ≡ 0 = omega (arith, n.depth) in omega (arith, block, ap (λ (t : ℕ). leaf * 2 ^ t) z)

  overlap_taken :
      v / 2 ^ k ≡ idx
      → (ltb hi a || ltb b lo) ≡ false
      → (leb a lo && leb hi b && leb 1 lvl || lvl == mlvl) ≡ true
      → overlaps a b leaf v ≡ true
  unfolding overlaps
  overlap_taken e f t =
      ground (arith, leaf_within e, n.last, one_leaf, two_pow_pos (bits - mlvl), two_pow_pos k)

  taken :
      (ltb hi a || ltb b lo) ≡ false
      → (leb a lo && leb hi b && leb 1 lvl || lvl == mlvl) ≡ true
      → share a b leaf v (2 ^ k) idx ≡ (if v / 2 ^ k == idx then 1 else 0)
  taken f t = ground (arith, λ (e : v / 2 ^ k ≡ idx). overlap_taken e f t)

-- The two halves of a node, and the values that they share out.
halve :
    (v p q idx c : ℕ)
    → p ≡ 2 * q
    → (if v / p == idx then c else 0)
      ≡ (if v / q == idx * 2 then c else 0) + (if v / q == idx * 2 + 1 then c else 0)
halve v p q idx c e = rw (e, mul_comm 2 q, ← div-div-eq-div-mul v q 2) (ground arith)

module _ {bits mlvl d k lvl idx lo hi : ℕ} (n : Node bits mlvl (suc d) (suc k) lvl idx lo hi) where
  doubled : idx * 2 ^ suc k ≡ idx * (2 * 2 ^ k)
  doubled = ap (λ (t : ℕ). idx * t) (two_pow_suc k)

  left-Node : Node bits mlvl d k (lvl + 1) (idx * 2) lo ((lo + hi) / 2)
  left-Node = record {
    depth = omega (arith, n.depth);
    width = omega (arith, n.width);
    room = omega (arith, n.room);
    first = omega (arith, n.first, doubled);
    last = omega (arith, n.last, two_pow_suc k, two_pow_pos k);
  }

  right-Node : Node bits mlvl d k (lvl + 1) (idx * 2 + 1) ((lo + hi) / 2 + 1) hi
  right-Node = record {
    depth = omega (arith, n.depth);
    width = omega (arith, n.width);
    room = omega (arith, n.room);
    first = omega (arith, n.first, n.last, doubled, two_pow_suc k, two_pow_pos k);
    last = omega (arith, n.last, two_pow_suc k, two_pow_pos k);
  }

abbrev HitsNode : (bits mlvl d k lvl idx lo hi a b v : ℕ) → Type 0
HitsNode bits mlvl d k lvl idx lo hi a b v =
    hits bits v (cover_rec a b mlvl (suc d) lo hi lvl idx)
    ≡ share a b (2 ^ (bits - mlvl)) v (2 ^ k) idx

module _ {bits mlvl d k lvl idx lo hi : ℕ} (n : Node bits mlvl d k lvl idx lo hi) (a b v : ℕ) where
  -- Either the recursion stops at this node, or it goes on below it.
  hits_stop :
      ((ltb hi a || ltb b lo) ≡ false
        → (leb a lo && leb hi b && leb 1 lvl || lvl == mlvl) ≡ false
        → hits bits v (
            cover_rec a b mlvl d lo ((lo + hi) / 2) (lvl + 1) (idx * 2)
            ++ cover_rec a b mlvl d ((lo + hi) / 2 + 1) hi (lvl + 1) (idx * 2 + 1))
          ≡ share a b (2 ^ (bits - mlvl)) v (2 ^ k) idx)
      → HitsNode bits mlvl d k lvl idx lo hi a b v
  unfolding cover_rec hits holds
  hits_stop below = elim (Bool-cases (ltb hi a || ltb b lo)) [
    | inl out ↦ rw out (sym (pruned n a b v out))
    | inr near ↦ elim (Bool-cases (leb a lo && leb hi b && leb 1 lvl || lvl == mlvl)) [
      | inl stop ↦
          let e : bits - lvl ≡ k = omega (arith, n.width) in
          rw (near, stop) (rw e (omega (arith, taken n a b v near stop)))
      | inr deeper ↦ rw (near, deeper) (below near deeper)
    ]
  ]

-- A node's labels hold the value once, if the value is in the node and its leaf meets [a, b].
hits-cover_rec :
    {bits mlvl : ℕ} (d k : ℕ) {lvl idx lo hi : ℕ}
    → Node bits mlvl d k lvl idx lo hi
    → (a b v : ℕ) → HitsNode bits mlvl d k lvl idx lo hi a b v
hits-cover_rec zero k {lvl = lvl} n a b v =
    hits_stop n a b v (λ near deeper. absurd (ground (arith, n.depth)))
hits-cover_rec (suc d) zero n a b v = absurd (omega (arith, n.room))
hits-cover_rec {bits} {mlvl} (suc d) (suc k) {lvl} {idx} {lo} {hi} n a b v =
    hits_stop n a b v λ near deeper.
      rw
        (
          hits-append,
          hits-cover_rec d k (left-Node n) a b v,
          hits-cover_rec d k (right-Node n) a b v,
        )
        (sym (halve v (2 ^ suc k) (2 ^ k) idx _ (two_pow_suc k)))

pub hits-dyadic_cover :
    (a b bits mlvl v : ℕ)
    → mlvl ≤ bits
    → v < 2 ^ bits
    → hits bits v (dyadic_cover a b bits mlvl)
      ≡ (if overlaps a b (2 ^ (bits - mlvl)) v then 1 else 0)
unfolding dyadic_cover
hits-dyadic_cover a b bits mlvl v h lt = hits-cover_rec mlvl bits root a b v ∙ rw (div-eq_of_lt lt)
  where
    root : Node bits mlvl mlvl bits 0 0 0 (2 ^ bits - 1)
    root = record {
      depth = omega arith;
      width = omega arith;
      room = h;
      first = omega arith;
      last = omega arith;
    }
