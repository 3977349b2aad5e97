-- ===== src/Tests/Merkle.antt =====
-- Runs of the functions of blindrange/merkle.py, and instances of the theorems about them.
use blindrange.Prelude.{
  ◌+◌, ◌*◌, ◌%◌, ◌++◌, ◌≡◌, refl, List, [], ◌∷◌, true, false, ok, sum, length, take, arith, ◌⊎◌,
}
use blindrange.Merkle.{Bytes, split, node_hash, bytes_eq, leaf_hash, root}
use blindrange.Merkle.Consistency.{subproof, consistency_proof, verify_consistency}
use blindrange.Merkle.Consistency.Complete.{consistency_complete}
use blindrange.Merkle.Consistency.Runs.{Collision}
use blindrange.Merkle.Consistency.Sound.{consistency_sound}
use blindrange.Merkle.Log.{Log, append, IsValid, Proves, ProvesAll, append-Proves}

-- A hash of one number.
abbrev checksum : Bytes → Bytes
checksum bs = (sum bs * 7 + length bs) % 251 ∷ []

abbrev five : List Bytes
five = (3 ∷ []) ∷ (1 ∷ []) ∷ (4 ∷ []) ∷ (1 ∷ []) ∷ (5 ∷ []) ∷ []

abbrev log : Log
log = record {
  entries = (9 ∷ []) ∷ (2 ∷ []) ∷ [];
  hashes = leaf_hash checksum (9 ∷ []) ∷ leaf_hash checksum (2 ∷ []) ∷ [];
}

log-IsValid : IsValid checksum log
log-IsValid = record { hashed = refl }

append-Proves_example :
    IsValid checksum (append checksum (6 ∷ []) log).0
    × ((append checksum (6 ∷ []) log).0.entries ≡ log.entries ++ (6 ∷ []) ∷ [])
    × ((append checksum (6 ∷ []) log).1 ≡ length log.entries)
    × Proves checksum (append checksum (6 ∷ []) log).0 (append checksum (6 ∷ []) log).1 (6 ∷ [])
    × ProvesAll checksum log.entries (append checksum (6 ∷ []) log).0
append-Proves_example = append-Proves checksum (6 ∷ []) log log-IsValid

abbrev three_of_five : List Bytes
three_of_five = (4 ∷ []) ∷ (1 ∷ []) ∷ (38 ∷ []) ∷ (5 ∷ []) ∷ []

subproof-three_of_five : subproof checksum five 3 true ≡ three_of_five
unfolding subproof root split node_hash
subproof-three_of_five = refl

accepts_three : verify_consistency checksum 3 (53 ∷ []) 5 (root checksum five) three_of_five ≡ true
unfolding verify_consistency root split node_hash bytes_eq
accepts_three = refl

refuses_three : verify_consistency checksum 3 (54 ∷ []) 5 (root checksum five) three_of_five ≡ false
unfolding verify_consistency root split node_hash bytes_eq
refuses_three = refl

consistency_complete_example :
    (proof : List Bytes) × (consistency_proof checksum five 3 ≡ ok proof)
    × (verify_consistency checksum 3 (root checksum (take 3 five)) 5 (root checksum five) proof
        ≡ true)
consistency_complete_example = consistency_complete checksum five 3 (omega arith) (omega arith)

consistency_sound_example : (53 ∷ [] ≡ root checksum (take 3 five)) ⊎ Collision checksum
consistency_sound_example =
    consistency_sound checksum 1 (λ x. refl) five 3 (53 ∷ []) three_of_five
      (refl, (refl, (refl, (refl, (refl, tt))))) refl (refl, (refl, (refl, (refl, tt))))
      accepts_three
