-- ===== src/Merkle/Consistency.antt =====
-- `consistency_proof`, `_subproof`, `verify_consistency` and `Log.consistency` of
-- blindrange/merkle.py.
pub mod Subproof
pub mod Levels
pub mod AtRoot
pub mod Full
pub mod Complete
pub mod Runs
pub mod Sound
use blindrange.Prelude.{
  is_empty, ℕ, zero, suc, ◌+◌, ◌-◌, ◌*◌, ◌/◌, ◌%◌, Bool, true, false, ◌&&◌, ◌||◌, not, List, [],
  ◌∷◌, ◌++◌, ltb, leb, ◌==◌, if◌then◌else◌, length, take, drop, bit_and, Result, ok, raise,
  index_error, Option, some, none,
}
use blindrange.Merkle.{Bytes, bytes_eq, split, node_hash, root}
use blindrange.Merkle.Log.{Log}

-- The state of `verify_consistency`'s loop: the two heads so far, and the places of the last nodes
-- of the old and of the new tree in the level it has come to.
pub record Heads : Type 0 where
  pub fr : Bytes
  pub sr : Bytes
  pub fn : ℕ
  pub sn : ℕ

-- `while fn % 2 == 1`, on fuel: `m` rounds are enough for `fn = m - 1`.
unfoldable pub strip : ℕ → ℕ → ℕ → ℕ × ℕ
strip zero fn sn = (fn, sn)
strip (suc f) fn sn = let rest = strip f (fn / 2) (sn / 2) in if fn % 2 == 1 then rest else (fn, sn)

-- `while fn != 0 and fn % 2 == 0`, on fuel: `fn` rounds are enough.
unfoldable pub lift : ℕ → ℕ → ℕ → ℕ × ℕ
lift zero fn sn = (fn, sn)
lift (suc f) fn sn =
    let rest = lift f (fn / 2) (sn / 2) in if not (fn == 0) && fn % 2 == 0 then rest else (fn, sn)

unfoldable pub agrees : Bytes → Bytes → Option Heads → Bool
agrees old_root new_root none = false
agrees old_root new_root (some s) = s.sn == 0 && bytes_eq s.fr old_root && bytes_eq s.sr new_root

module _ (sha256 : Bytes → Bytes) where
  -- `_subproof`, on fuel: the number of leaves is enough.
  unfoldable pub subproof_fuel : ℕ → List Bytes → ℕ → Bool → List Bytes
  subproof_fuel zero hashes m at_root = if at_root then [] else root sha256 hashes ∷ []
  subproof_fuel (suc f) hashes m at_root =
      let k = split (length hashes) in
      let left = subproof_fuel f (take k hashes) m at_root ++ root sha256 (drop k hashes) ∷ [] in
      let right =
        subproof_fuel f (drop k hashes) (m - k) false ++ root sha256 (take k hashes) ∷ [] in
      if m == length hashes
      then (if at_root then [] else root sha256 hashes ∷ [])
      else (if leb m k then left else right)

  unfoldable pub subproof : List Bytes → ℕ → Bool → List Bytes
  unfolding subproof_fuel
  subproof hashes m at_root = subproof_fuel (length hashes) hashes m at_root

  unfoldable pub consistency_proof : List Bytes → ℕ → Result (List Bytes)
  unfolding subproof
  consistency_proof hashes m =
      if ltb 0 m && leb m (length hashes) then ok (subproof hashes m true) else raise index_error

  -- One round of `verify_consistency`'s loop, after its test that `sn` is not 0.
  unfoldable pub rebuild_step : Heads → Bytes → Heads
  unfolding lift
  rebuild_step s step =
      if s.fn % 2 == 1 || s.fn == s.sn
      then (let (fn, sn) = lift s.fn s.fn s.sn in
          record {
            fr = node_hash sha256 step s.fr;
            sr = node_hash sha256 step s.sr;
            fn = fn / 2;
            sn = sn / 2;
          })
      else record { fr = s.fr; sr = node_hash sha256 s.sr step; fn = s.fn / 2; sn = s.sn / 2 }

  -- The loop; `none` where it returns False.
  unfoldable pub rebuild : Heads → List Bytes → Option Heads
  unfolding rebuild_step
  rebuild s [] = some s
  rebuild s (step ∷ proof) =
      let rest = rebuild (rebuild_step s step) proof in if s.sn == 0 then none else rest

  -- From the path whose first node starts both heads.
  unfoldable pub rebuild_from : ℕ → ℕ → List Bytes → Option Heads
  unfolding rebuild strip
  rebuild_from m n [] = none
  rebuild_from m n (first ∷ proof) =
      let (fn, sn) = strip m (m - 1) (n - 1) in
      rebuild (record { fr = first; sr = first; fn = fn; sn = sn }) proof

  unfoldable pub verify_consistency : ℕ → Bytes → ℕ → Bytes → List Bytes → Bool
  unfolding rebuild_from agrees
  verify_consistency m old_root n new_root proof =
      let path = if bit_and m (m - 1) == 0 then old_root ∷ proof else proof in
      if ltb m 1 || ltb n m
      then false
      else (if m == n
          then bytes_eq old_root new_root && is_empty proof
          else (if is_empty proof then false else agrees old_root new_root (rebuild_from m n path)))

  -- `Log.consistency`.
  unfoldable pub consistency : Log → ℕ → Result (List Bytes)
  unfolding consistency_proof
  consistency log m = consistency_proof log.hashes m
