-- ===== src/Sharded/Streams/Interleave.antt =====
-- `_interleave` of blindrange/sharded.py: every row of every stream is yielded once.
use mathlib.Core.List.{Perm, perm_middle}
use mathlib.Core.List.Perm
use blindrange.Prelude.{
  ℕ, zero, suc, ◌+◌, ◌≤◌, ◌≡◌, refl, List, [], ◌∷◌, ◌++◌, length, length-append, min, arith,
}
use blindrange.Sharded.Streams.{concat, heads, still_live, interleave}

module _ {ℓ} {A : Type ℓ} where
  swap_front : (xs ys zs : List A) → Perm (xs ++ (ys ++ zs)) (ys ++ (xs ++ zs))
  swap_front [] ys zs = Perm.refl _
  swap_front (x ∷ xs) ys zs =
      Perm.trans (Perm.cons x (swap_front xs ys zs)) (Perm.symm (perm_middle ys (xs ++ zs)))

  round-Perm : (live : List (List A)) → Perm (heads live ++ concat (still_live live)) (concat live)
  unfolding heads still_live
  round-Perm [] = Perm.refl []
  round-Perm ([] ∷ live) = round-Perm live
  round-Perm ((x ∷ xs) ∷ live) = Perm.cons x (
      Perm.trans (swap_front (heads live) xs (concat (still_live live)))
        (Perm.append_left xs (round-Perm live)))

  -- A round that yields nothing is the last.
  round-length :
      (live : List (List A))
      → (length (heads live) + length (concat (still_live live)) ≡ length (concat live))
        × (length (still_live live) ≡ length (heads live))
  unfolding heads still_live
  round-length [] = (refl, refl)
  round-length ([] ∷ live) = round-length live
  round-length ((x ∷ xs) ∷ live) =
      let (a, b) = round-length live in
      (
        omega
            (arith, a, length-append xs (concat (still_live live)), length-append xs (concat live)),
        omega (arith, b),
      )

  -- Rounds enough: one for each row, and one to drop the streams that have ended.
  interleave_enough :
      (fuel : ℕ) (live : List (List A))
      → length (concat live) + min 1 (length live) ≤ fuel
      → Perm (interleave fuel live) (concat live)
  unfolding interleave
  interleave_enough fuel [] h = Perm.refl []
  interleave_enough zero (s ∷ live) h = absurd (omega arith)
  interleave_enough (suc f) (s ∷ live) h =
      let (a, b) = round-length (s ∷ live) in
      Perm.trans
        (Perm.append_left (heads (s ∷ live))
          (interleave_enough f (still_live (s ∷ live)) (omega (arith, a, b, h))))
        (round-Perm (s ∷ live))

  -- `_interleave` yields every row of every stream once; one round more than there are rows is enough.
  pub interleave-Perm :
      (streams : List (List A))
      → Perm (interleave (suc (length (concat streams))) streams) (concat streams)
  interleave-Perm streams = interleave_enough (suc (length (concat streams))) streams (omega arith)
