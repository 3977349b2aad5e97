-- ===== src/Receipt/Work.antt =====
-- The proof of work that `solve` finds passes `check`.
use blindrange.Prelude.{
  ℕ, zero, suc, ◌+◌, ◌*◌, ◌/◌, ◌%◌, ◌^◌, ◌≤◌, ◌<◌, ◌≡◌, refl, sym, ap, true, false, not, [], ◌∷◌,
  ltb, length, length-append, filter, show, show_fuel, some, ok, Bool-cases, inl, inr, arith,
}
use blindrange.Receipt.{
  Text, Report, same_text, pow_key, get_pow, set_pow, canonical, enough, solve_from, solve,
  check_pow, check,
}

abbrev tens : ℕ → ℕ
tens zero = 1
tens (suc k) = 10 * tens k

length-show_fuel : (f n k : ℕ) → n < tens (suc k) → length (show_fuel f n) ≤ suc k
unfolding show_fuel
length-show_fuel zero n k h = omega arith
length-show_fuel (suc f) n zero h =
    let digit : ltb n 10 ≡ true = ground (arith, h) in rw digit (omega arith)
length-show_fuel (suc f) n (suc k) h = elim (Bool-cases (ltb n 10)) [
  | inl digit ↦ rw digit (omega arith)
  | inr more ↦
      let shorter = length-show_fuel f (n / 10) k (omega (arith, h)) in
      rw more (omega (arith, length-append (show_fuel f (n / 10)) ((48 + n % 10) ∷ []), shorter))
]

-- The candidates of the default limit are short enough for `check`.
show-short : (n : ℕ) → n < 2 ^ 32 → length (show n) ≤ 32
unfolding show
show-short n h = length-show_fuel (suc n) n 31 (omega (arith, h))

without_pow :
    (cand : Text) (report : Report)
    → filter (λ item. not (same_text item.0 pow_key)) (set_pow cand report)
      ≡ filter (λ item. not (same_text item.0 pow_key)) report
unfolding set_pow same_text
without_pow cand [] = refl
without_pow cand ((k, v) ∷ report) = elim (Bool-cases (same_text k pow_key)) [
  | inl pow ↦ rw (pow, pow) refl
  | inr other ↦ rw (other, other) (ap (λ t. (k, v) ∷ t) (without_pow cand report))
]

module _ (sha256_number : Text → ℕ) (dumps : Report → Text) where
  canonical-set_pow :
      (cand : Text) (report : Report)
      → canonical sha256_number dumps (set_pow cand report) ≡ canonical sha256_number dumps report
  unfolding canonical
  canonical-set_pow cand report = ap dumps (without_pow cand report)

  get_pow-set_pow : (cand : Text) (report : Report) → get_pow (set_pow cand report) ≡ some cand
  unfolding get_pow set_pow
  get_pow-set_pow cand [] = refl
  get_pow-set_pow cand ((k, v) ∷ report) = elim (Bool-cases (same_text k pow_key)) [
    | inl pow ↦ rw (pow, pow) refl
    | inr other ↦ rw (other, other) (get_pow-set_pow cand report)
  ]

  solve_from-enough :
      (left n : ℕ) (body : Text) (bits : ℕ) (cand : Text)
      → solve_from sha256_number dumps left n body bits ≡ ok cand
      → (i : ℕ) × (cand ≡ show i)
        × (i < n + left)
        × (enough sha256_number dumps body bits cand ≡ true)
  unfolding solve_from
  solve_from-enough zero n body bits cand h = cc
  solve_from-enough (suc left) n body bits cand h =
      elim (Bool-cases (enough sha256_number dumps body bits (show n))) [
        | inl found ↦
            let e : show n ≡ cand = (let h' = rw found at h in cc) in
            (n, sym e, omega arith, rw (← e) found)
        | inr missed ↦
            let (i, e, low, good) =
              solve_from-enough left (suc n) body bits cand (rw missed at h) in
            (i, e, omega (arith, low), good)
      ]

  -- The candidate that solve finds below its default limit passes check in the report that it is put
  -- into, with the same number of bits.
  pub solve-check :
      (report : Report) (bits limit : ℕ) (cand : Text)
      → limit ≤ 2 ^ 32
      → solve sha256_number dumps report bits limit ≡ ok cand
      → check sha256_number dumps (set_pow cand report) bits ≡ true
  unfolding solve check check_pow
  solve-check report bits limit cand le h =
      let (n, e, below, good) =
        solve_from-enough limit 0 (canonical sha256_number dumps report) bits cand h in
      let short : ltb 32 (length cand) ≡ false =
        (let s = show-short n (omega (arith, below, le)) in rw e (ground (arith, s))) in
      rw (get_pow-set_pow cand report, short, canonical-set_pow cand report) good
