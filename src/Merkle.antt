-- ===== src/Merkle.antt =====
-- blindrange/merkle.py: an append-only Merkle log with inclusion and consistency proofs.
-- A byte string is a list of numbers. `sha256` is a parameter.
pub mod Split
pub mod Root
pub mod Steps
pub mod Full
pub mod Inclusion
pub mod Log
pub mod Consistency
use blindrange.Prelude.{
  ℕ, zero, suc, ◌+◌, ◌-◌, ◌*◌, ◌/◌, ◌%◌, Bool, true, false, ◌&&◌, ◌||◌, not, List, [], ◌∷◌, ◌++◌,
  map, ltb, leb, ◌==◌, if◌then◌else◌, length, take, drop, bit_and, Result, ok, raise, index_error,
  ◌>>=◌,
}

abbrev pub Bytes : Type 0
Bytes = List ℕ

-- `==` on byte strings.
unfoldable pub bytes_eq : Bytes → Bytes → Bool
bytes_eq [] [] = true
bytes_eq [] (y ∷ ys) = false
bytes_eq (x ∷ xs) [] = false
bytes_eq (x ∷ xs) (y ∷ ys) = x == y && bytes_eq xs ys

-- `while k << 1 < n: k <<= 1`, on fuel: `n` rounds are enough.
unfoldable pub split_loop : ℕ → ℕ → ℕ → ℕ
split_loop zero k n = k
split_loop (suc f) k n = let rest = split_loop f (k * 2) n in if ltb (k * 2) n then rest else k

unfoldable pub split : ℕ → ℕ
unfolding split_loop
split n = split_loop n 1 n

-- The state of `verify_inclusion`'s loop.
pub record Climb : Type 0 where
  pub hash : Bytes
  pub index : ℕ
  pub size : ℕ

-- `while index % 2 == 0 and size > 1`, on fuel: `size` rounds are enough.
unfoldable pub climb : ℕ → ℕ → ℕ → ℕ × ℕ
climb zero index size = (index, size)
climb (suc f) index size =
    let rest = climb f (index / 2) ((size + 1) / 2) in
    if index % 2 == 0 && ltb 1 size then rest else (index, size)

module _ (sha256 : Bytes → Bytes) where
  unfoldable pub leaf_hash : Bytes → Bytes
  leaf_hash entry = sha256 (0 ∷ entry)

  unfoldable pub node_hash : Bytes → Bytes → Bytes
  node_hash left right = sha256 (1 ∷ left ++ right)

  -- `root`, on fuel: the number of leaves is enough.
  unfoldable pub root_fuel : ℕ → List Bytes → Bytes
  root_fuel zero hashes = sha256 []
  root_fuel (suc f) [] = sha256 []
  root_fuel (suc f) (h ∷ []) = h
  root_fuel (suc f) (h ∷ h' ∷ hs) =
      let hashes = h ∷ h' ∷ hs in
      let k = split (length hashes) in
      node_hash (root_fuel f (take k hashes)) (root_fuel f (drop k hashes))

  unfoldable pub root : List Bytes → Bytes
  unfolding root_fuel
  root hashes = root_fuel (length hashes) hashes

  -- The body of `inclusion_proof` after its bounds test, which the recursive calls pass.
  unfoldable pub path_fuel : ℕ → List Bytes → ℕ → List Bytes
  path_fuel zero hashes m = []
  path_fuel (suc f) [] m = []
  path_fuel (suc f) (h ∷ []) m = []
  path_fuel (suc f) (h ∷ h' ∷ hs) m =
      let hashes = h ∷ h' ∷ hs in
      let k = split (length hashes) in
      let left = path_fuel f (take k hashes) m ++ root (drop k hashes) ∷ [] in
      let right = path_fuel f (drop k hashes) (m - k) ++ root (take k hashes) ∷ [] in
      if ltb m k then left else right

  unfoldable pub inclusion_proof : List Bytes → ℕ → Result (List Bytes)
  unfolding path_fuel
  inclusion_proof hashes m =
      if ltb m (length hashes) then ok (path_fuel (length hashes) hashes m) else raise index_error

  -- One round of `verify_inclusion`'s loop.
  unfoldable pub climb_step : Climb → Bytes → Climb
  unfolding climb
  climb_step s sibling =
      if s.index % 2 == 1 || s.index + 1 == s.size
      then (let (index, size) = climb s.size s.index s.size in
          record { hash = node_hash sibling s.hash; index = index / 2; size = (size + 1) / 2 })
      else record { hash = node_hash s.hash sibling; index = s.index / 2; size = (s.size + 1) / 2 }

  unfoldable pub climb_all : Climb → List Bytes → Climb
  climb_all s [] = s
  climb_all s (sibling ∷ proof) = climb_all (climb_step s sibling) proof

  unfoldable pub verify_inclusion : Bytes → ℕ → ℕ → List Bytes → Bytes → Bool
  unfolding climb_step climb_all
  verify_inclusion leaf m n proof expect_root =
      if not (ltb m n)
      then false
      else (let s = climb_all (record { hash = leaf; index = m; size = n }) proof in
          bytes_eq s.hash expect_root && s.size == 1)
