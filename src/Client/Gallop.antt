-- ===== src/Client/Gallop.antt =====
-- `_discover_ends` of blindrange/client.py: the ends of append-only chains by batched probes.
-- What `_mget` says of a key is a parameter: found, absent, or unresolved because replicas were
-- silent (`last_unresolved`).
pub mod Rounds
pub mod Ends
use blindrange.Prelude.{
  ℕ, zero, suc, ◌+◌, ◌*◌, ◌/◌, Bool, true, false, List, [], ◌∷◌, ◌++◌, map, any, ◌==◌,
  if◌then◌else◌, Option, none, some, Result, ok, raise, connection_error,
}

pub data Answer : Type 0 where
  hit miss unresolved : Answer

unfoldable pub is_unresolved : Answer → Bool
is_unresolved unresolved = true
is_unresolved _ = false

abbrev pub is_hit : Answer → Bool
is_hit hit = true
is_hit _ = false

-- The state of one chain; `hi` is `None` until a probe has missed.
pub record Probe : Type 0 where
  pub lo : ℕ
  pub hi : Option ℕ
  pub step : ℕ

abbrev pub started : ℕ → Probe
started known = record { lo = known; hi = none; step = 1 }

unfoldable pub next_probe : Probe → ℕ
next_probe st = elim st.hi [ none ↦ st.lo + st.step | some h ↦ (st.lo + h) / 2 ]

pub data Progress : Type 0 where
  found : ℕ → Progress
  going : Probe → Progress

-- `if st["hi"] == st["lo"] + 1`
unfoldable pub settle : ℕ → ℕ → ℕ → Progress
settle lo hi step =
    if hi == lo + 1 then found lo else going (record { lo = lo; hi = some hi; step = step })

-- What the answer for the probe of a chain makes of its state.
unfoldable pub advance : Probe → Bool → Progress
unfolding next_probe settle
advance st answer = elim st.hi [
  | none ↦
      if answer
      then going (record { lo = next_probe st; hi = none; step = st.step * 2 })
      else settle st.lo (next_probe st) st.step
  | some h ↦
      if answer then settle (next_probe st) h st.step else settle st.lo (next_probe st) st.step
]

module _ {Cid : Type 0} where
  unfoldable pub split_done : List (Cid × Progress) → List (Cid × ℕ) × List (Cid × Probe)
  split_done [] = ([], [])
  split_done ((cid, found e) ∷ rest) = let (done, left) = split_done rest in ((cid, e) ∷ done, left)
  split_done ((cid, going st) ∷ rest) =
      let (done, left) = split_done rest in (done, (cid, st) ∷ left)

  -- `answers round cid i` is what the network says in that round of entry `i` of the chain. The
  -- fuel counts rounds; `none` means that it ran out.
  module _ (answers : ℕ → Cid → ℕ → Answer) where
    unfoldable pub advanced : ℕ → List (Cid × Probe) → List (Cid × Progress)
    advanced round = map (λ e. (e.0, advance e.1 (is_hit (answers round e.0 (next_probe e.1)))))

    unfoldable pub poisoned : ℕ → List (Cid × Probe) → Bool
    unfolding is_unresolved
    poisoned round = any (λ e. is_unresolved (answers round e.0 (next_probe e.1)))

    unfoldable pub discover :
        ℕ → ℕ → List (Cid × Probe) → List (Cid × ℕ) → Option (Result (List (Cid × ℕ)))
    discover fuel round [] ends = some (ok ends)
    discover zero round (c ∷ cs) ends = none
    discover (suc fuel) round (c ∷ cs) ends =
        let (done, left) = split_done (advanced round (c ∷ cs)) in
        let rest = discover fuel (suc round) left (ends ++ done) in
        if poisoned round (c ∷ cs) then some (raise connection_error) else rest

    unfoldable pub discover_ends : ℕ → List (Cid × ℕ) → Option (Result (List (Cid × ℕ)))
    unfolding discover advanced poisoned split_done
    discover_ends fuel chains = discover fuel 0 (map (λ c. (c.0, started c.1)) chains) []
