-- ===== src/Merkle/Log.antt =====
-- `Log` of blindrange/merkle.py: the entries and their leaf hashes, side by side.
use blindrange.Prelude.{
  ℕ, zero, suc, ◌-◌, ◌≡◌, refl, sym, ap, ◌∙◌, List, [], ◌∷◌, ◌++◌, map, length, length-append,
  get_elem?, some, true, ok, Result, arith,
}
use blindrange.Merkle.{Bytes, leaf_hash, root, inclusion_proof, verify_inclusion}
use blindrange.Merkle.Inclusion.{inclusion_complete}

pub record Log : Type 0 where
  pub entries : List Bytes
  pub hashes : List Bytes

module _ (sha256 : Bytes → Bytes) where
  unfoldable pub init : List Bytes → Log
  init entries = record { entries = entries; hashes = map (leaf_hash sha256) entries }

  -- The new log, and the place of the entry.
  unfoldable pub append : Bytes → Log → Log × ℕ
  append entry log =
      let log' : Log = record {
        entries = log.entries ++ entry ∷ [];
        hashes = log.hashes ++ leaf_hash sha256 entry ∷ [];
      } in
      (log', length (log.entries ++ entry ∷ []) - 1)

  unfoldable pub log_root : Log → Bytes
  log_root log = root sha256 log.hashes

  unfoldable pub inclusion : Log → ℕ → Result (List Bytes)
  inclusion log m = inclusion_proof sha256 log.hashes m

  -- The hashes are those of the entries.
  pub record IsValid (log : Log) : Type 0 where
    pub hashed : log.hashes ≡ map (leaf_hash sha256) log.entries

  -- The log's own proof for the entry at a place is accepted against the log's head.
  abbrev pub Proves : Log → ℕ → Bytes → Type 0
  Proves log m entry =
      (proof : List Bytes) × (inclusion log m ≡ ok proof)
      × (verify_inclusion sha256 (leaf_hash sha256 entry) m (length log.entries) proof
            (log_root log)
          ≡ true)

  map-append_one :
      (xs : List Bytes) (x : Bytes)
      → map (leaf_hash sha256) (xs ++ x ∷ []) ≡ map (leaf_hash sha256) xs ++ leaf_hash sha256 x ∷ []
  map-append_one [] x = refl
  map-append_one (y ∷ xs) x = ap (◌∷◌ (leaf_hash sha256 y)) (map-append_one xs x)

  length-hashes : (xs : List Bytes) → length (map (leaf_hash sha256) xs) ≡ length xs
  length-hashes [] = refl
  length-hashes (x ∷ xs) = ap suc (length-hashes xs)

  get-hashes :
      (m : ℕ) (xs : List Bytes) (e : Bytes)
      → get_elem? xs m ≡ some e
      → get_elem? (map (leaf_hash sha256) xs) m ≡ some (leaf_hash sha256 e)
  get-hashes m [] e h = cc
  get-hashes zero (x ∷ xs) e h = cc
  get-hashes (suc m) (x ∷ xs) e h = get-hashes m xs e h

  proves :
      (log : Log) (m : ℕ) (entry : Bytes)
      → IsValid log
      → get_elem? log.entries m ≡ some entry
      → Proves log m entry
  unfolding inclusion log_root
  proves log m entry v h =
      rw (v.hashed, ← length-hashes log.entries)
        (inclusion_complete sha256 (map (leaf_hash sha256) log.entries) m (leaf_hash sha256 entry)
          (get-hashes m log.entries entry h))

  get-append_last : (xs : List Bytes) (e : Bytes) → get_elem? (xs ++ e ∷ []) (length xs) ≡ some e
  get-append_last [] e = refl
  get-append_last (x ∷ xs) e = get-append_last xs e

  get-append :
      (m : ℕ) (xs : List Bytes) (e x : Bytes)
      → get_elem? xs m ≡ some x
      → get_elem? (xs ++ e ∷ []) m ≡ some x
  get-append m [] e x h = cc
  get-append zero (y ∷ xs) e x h = h
  get-append (suc m) (y ∷ xs) e x h = get-append m xs e x h

  append-IsValid : (entry : Bytes) (log : Log) → IsValid log → IsValid (append entry log).0
  unfolding append
  append-IsValid entry log v = record {
    hashed =
        ap (λ hs. hs ++ leaf_hash sha256 entry ∷ []) v.hashed
        ∙ sym (map-append_one log.entries entry);
  }

  -- The log proves each entry of a list at the place where it stands there.
  abbrev pub ProvesAll : List Bytes → Log → Type 0
  ProvesAll entries log =
      (m : ℕ) (entry : Bytes) → get_elem? entries m ≡ some entry → Proves log m entry

  -- After an append to a log whose hashes are those of its entries, the first append included, they
  -- still are; the entries are the old ones and the new one; and the log proves the new entry at the
  -- place that the append returned, which is the last, and each older one at its place.
  pub append-Proves :
      (entry : Bytes) (log : Log)
      → IsValid log
      → IsValid (append entry log).0
        × ((append entry log).0.entries ≡ log.entries ++ entry ∷ [])
        × ((append entry log).1 ≡ length log.entries)
        × Proves (append entry log).0 (append entry log).1 entry
        × ProvesAll log.entries (append entry log).0
  unfolding append
  append-Proves entry log v =
      let v' = append-IsValid entry log v in
      let place : length (log.entries ++ entry ∷ []) - 1 ≡ length log.entries =
        omega (arith, length-append log.entries (entry ∷ [])) in
      (
        v',
        refl,
        place,
        proves (append entry log).0 (append entry log).1 entry v'
            (rw place (get-append_last log.entries entry)),
        λ m old h. proves (append entry log).0 m old v' (get-append m log.entries entry old h),
      )
