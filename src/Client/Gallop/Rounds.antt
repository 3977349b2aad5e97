-- ===== src/Client/Gallop/Rounds.antt =====
-- One chain: each answered probe brings its end nearer by one round.
use blindrange.Prelude.{
  ℕ, zero, suc, ◌+◌, ◌*◌, ◌/◌, ◌^◌, ◌≤◌, ◌<◌, ◌≡◌, refl, sym, ap, leb, ◌==◌, true, false,
  Bool-cases, inl, inr, arith, two_pow_suc, two_pow_pos, subst, leb→le, none, some,
}
use blindrange.Client.Gallop.{Probe, started, next_probe, Progress, found, going, settle, advance}

-- `r` rounds are enough to find the end of the chain. While the probes rise the step is 2 ^ i; once
-- one has missed, the end lies in an interval whose width is a power of two.
pub data Near (end r : ℕ) (st : Probe) : Type 0 where
  rising :
      (i j : ℕ)
      → st.hi ≡ none
      → st.step ≡ 2 ^ i
      → st.lo ≤ end
      → end + 2 ^ i < st.lo + 1 + 2 ^ (i + j)
      → j + (i + j) + 1 ≤ r
      → Near end r st
  falling :
      (i h : ℕ)
      → st.hi ≡ some h
      → h ≡ st.lo + 2 ^ suc i
      → st.lo ≤ end
      → end < h
      → suc i ≤ r
      → Near end r st

abbrev pub Good : ℕ → ℕ → Progress → Type 0
Good end r (found e) = e ≡ end
Good end r (going st) = Near end r st

pub Near-started :
    (known end k : ℕ) → known ≤ end → end < known + 2 ^ k → Near end (k + k + 1) (started known)
Near-started known end k low high =
    let e : 2 ^ (0 + k) ≡ 2 ^ k = ap (λ (t : ℕ). 2 ^ t) (omega arith) in
    rising 0 k refl refl low (omega (arith, e, high)) (omega arith)

pub not-Near-zero : {end : ℕ} {st : Probe} → ¬ Near end 0 st
not-Near-zero (rising i j _ _ _ _ r) = omega arith
not-Near-zero (falling i h _ _ _ _ r) = omega arith

-- An interval whose width is a power of two is settled, or has one round less to go.
settle-Good :
    (end r i lo hi step : ℕ)
    → hi ≡ lo + 2 ^ i
    → lo ≤ end
    → end < hi
    → i ≤ r
    → Good end r (settle lo hi step)
unfolding settle
settle-Good end r zero lo hi step w low high n =
    let t : (hi == lo + 1) ≡ true = ground (arith, w) in rw t (omega (arith, w))
settle-Good end r (suc i) lo hi step w low high n =
    let t : (hi == lo + 1) ≡ false = ground (arith, w, two_pow_suc i, two_pow_pos i) in
    rw t (falling i hi refl w low high n)

abbrev Advances : ℕ → ℕ → Probe → Type 0
Advances end r st = Good end r (advance st (leb (next_probe st) end))

rise :
    (end r lo step i j : ℕ)
    → step ≡ 2 ^ i
    → lo ≤ end
    → end + 2 ^ i < lo + 1 + 2 ^ (i + j)
    → j + (i + j) ≤ r
    → Advances end r (record { lo = lo; hi = none; step = step })
unfolding advance next_probe
rise end r lo step i j e low room n = elim (Bool-cases (leb (lo + step) end)) [
  | inl up ↦ rw up (go j (leb→le (lo + step) end up) room n)
  | inr past ↦ rw past (
      settle-Good end r i lo (lo + step) step (ap (λ (t : ℕ). lo + t) e) low (ground arith)
        (omega (arith, n)))
]
  where
    go :
        (j : ℕ)
        → lo + step ≤ end
        → end + 2 ^ i < lo + 1 + 2 ^ (i + j)
        → j + (i + j) ≤ r
        → Near end r (record { lo = lo + step; hi = none; step = step * 2 })
    go zero up room n =
        let t : 2 ^ (i + 0) ≡ 2 ^ i = ap (λ (t : ℕ). 2 ^ t) (omega arith) in
        absurd (ground (arith, e, room, t, two_pow_pos i, up))
    go (suc j) up room n =
        let t : 2 ^ (suc i + j) ≡ 2 ^ (i + suc j) = ap (λ (t : ℕ). 2 ^ t) (omega arith) in
        rising (suc i) j refl (omega (arith, e, two_pow_suc i)) up
          (omega (arith, room, t, e, two_pow_suc i)) (omega (arith, n))

fall :
    (end r lo h step i : ℕ)
    → h ≡ lo + 2 ^ suc i
    → lo ≤ end
    → end < h
    → i ≤ r
    → Advances end r (record { lo = lo; hi = some h; step = step })
unfolding advance next_probe
fall end r lo h step i w low high n =
    let mid : (lo + h) / 2 ≡ lo + 2 ^ i = omega (arith, w, two_pow_suc i) in
    elim (Bool-cases (leb ((lo + h) / 2) end)) [
      | inl up ↦ rw up (
          settle-Good end r i ((lo + h) / 2) h step (omega (arith, mid, w, two_pow_suc i))
            (leb→le ((lo + h) / 2) end up) high n)
      | inr down ↦ rw down (settle-Good end r i lo ((lo + h) / 2) step mid low (ground arith) n)
    ]

-- An answer that says whether the probed entry exists brings the end a round nearer.
pub advance-Good : {end r : ℕ} (st : Probe) → Near end (suc r) st → Advances end r st
advance-Good {end} {r} st (rising i j e step low room n) =
    subst (Advances end r) (λ t. record { lo = st.lo; hi = sym e t; step = st.step })
      (rise end r st.lo st.step i j step low room (omega (arith, n)))
advance-Good {end} {r} st (falling i h e w low high n) =
    subst (Advances end r) (λ t. record { lo = st.lo; hi = sym e t; step = st.step })
      (fall end r st.lo h st.step i w low high (omega (arith, n)))
