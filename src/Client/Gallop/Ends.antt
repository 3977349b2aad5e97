-- ===== src/Client/Gallop/Ends.antt =====
-- All chains at once: the batched search returns every end, or it refuses.
use mathlib.Core.List.{Perm}
use mathlib.Core.List.Perm
use blindrange.Prelude.{
  ℕ, ◌≤◌, ◌<◌, ◌≡◌, ◌⊎◌, List, map, All, Option, some, Result, ok, raise, connection_error,
}
use blindrange.Client.Gallop.{Answer, hit, miss, Probe, Progress}
use blindrange.Client.Gallop.Rounds.{Near, Good}

module _ {Cid : Type 0} (end : Cid → ℕ) where
  abbrev NearAll : ℕ → List (Cid × Probe) → Type 0
  NearAll r = All (λ c. Near (end c.0) r c.1)

  abbrev pub Exact : List (Cid × ℕ) → Type 0
  Exact = All (λ e. e.1 ≡ end e.0)

  abbrev pub ids {ℓ} : {A : Type ℓ} → List (Cid × A) → List Cid
  ids = map (λ e. e.0)

  abbrev GoodAll : ℕ → List (Cid × Progress) → Type 0
  GoodAll r = All (λ c. Good (end c.0) r c.1)

  module _ (answers : ℕ → Cid → ℕ → Answer) where
    -- What the network does say of an entry is true; it may also be silent.
    pub record Honest : Type 0 where
      pub hit_exists : (round : ℕ) (cid : Cid) (i : ℕ) → answers round cid i ≡ hit → i ≤ end cid
      pub miss_absent : (round : ℕ) (cid : Cid) (i : ℕ) → answers round cid i ≡ miss → end cid < i

    -- Either some probe stayed unresolved and the call raises, or it returns every end.
    abbrev pub Outcome : List Cid → Option (Result (List (Cid × ℕ))) → Type 0
    Outcome cids r =
        (r ≡ some (raise connection_error))
        ⊎ ((ends : List (Cid × ℕ)) × (r ≡ some (ok ends)) × Exact ends × Perm (ids ends) cids)
