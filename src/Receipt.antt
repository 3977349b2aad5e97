-- ===== src/Receipt.antt =====
-- blindrange/receipt.py: what a node signs of a read, and the proof of work of a report. Texts and byte
-- strings are lists of numbers, and `encode` of a text is itself. SHA-256, hex, Ed25519 and json.dumps
-- are parameters. A key of a dict is a text; `none` is None.
pub mod Signed
pub mod Work
use blindrange.Prelude.{
  ℕ, zero, suc, ◌+◌, ◌-◌, ◌*◌, ◌/◌, Bool, true, false, ◌&&◌, not, List, [], ◌∷◌, ◌++◌, map, ltb,
  leb, ◌==◌, if◌then◌else◌, length, take, filter, show, bit_length, Option, some, none, Result, ok,
  raise, runtime_error, value_error,
}

abbrev pub Text : Type 0
Text = List ℕ

unfoldable pub same_text : Text → Text → Bool
same_text [] [] = true
same_text [] (y ∷ ys) = false
same_text (x ∷ xs) [] = false
same_text (x ∷ xs) (y ∷ ys) = x == y && same_text xs ys

-- The order of texts.
unfoldable pub text_leb : Text → Text → Bool
text_leb [] ys = true
text_leb (x ∷ xs) [] = false
text_leb (x ∷ xs) (y ∷ ys) = let rest = text_leb xs ys in if x == y then rest else ltb x y

module _ {A : Type 0} (key : A → Text) where
  unfoldable pub insert_sorted : A → List A → List A
  unfolding text_leb
  insert_sorted x [] = x ∷ []
  insert_sorted x (y ∷ ys) =
      let rest = insert_sorted x ys in if text_leb (key x) (key y) then x ∷ y ∷ ys else y ∷ rest

  -- `sorted`
  unfoldable pub sort_by : List A → List A
  unfolding insert_sorted
  sort_by [] = []
  sort_by (x ∷ xs) = insert_sorted x (sort_by xs)

abbrev pub beacon_period : ℕ
beacon_period = 600

abbrev pub beacon_slack : ℕ
beacon_slack = 1

unfoldable pub beacon : ℕ → ℕ
beacon now = now / beacon_period

-- The updates of the hash, joined: `k`, `b"\x00"`.
unfoldable pub key_bytes : List Text → Text
key_bytes [] = []
key_bytes (k ∷ keys) = k ++ 0 ∷ key_bytes keys

unfoldable pub value_bytes : List (Text × Option Text) → Text
value_bytes [] = []
value_bytes ((k, none) ∷ values) = value_bytes values
value_bytes ((k, some v) ∷ values) = k ++ 0 ∷ v ++ 0 ∷ value_bytes values

unfoldable pub served_of : List (Text × Option Text) → ℕ
served_of [] = 0
served_of ((k, none) ∷ values) = served_of values
served_of ((k, some v) ∷ values) = suc (served_of values)

pub record Receipt : Type 0 where
  pub v : ℕ
  pub node_id : Text
  pub beacon_of : ℕ
  pub nonce : Text
  pub asked : ℕ
  pub kdigest : Text
  pub served : ℕ
  pub vdigest : Text
  pub public_key : Text
  pub sig : Text

-- `_msg`
unfoldable pub msg : ℕ → Text → ℕ → Text → ℕ → Text → ℕ → Text → Text
msg v node_id beacon_of nonce asked kdigest served vdigest =
    98 ∷ 114 ∷ 114 ∷ 101 ∷ 99 ∷ 101 ∷ 105 ∷ 112 ∷ 116 ∷ 124 ∷ show v
    ++ 124 ∷ node_id
    ++ 124 ∷ show beacon_of
    ++ 124 ∷ nonce
    ++ 124 ∷ show asked
    ++ 124 ∷ kdigest
    ++ 124 ∷ show served
    ++ 124 ∷ vdigest

abbrev distance : ℕ → ℕ → ℕ
distance a b = (a - b) + (b - a)

module _ (sha256 : Text → Text) (hex : Text → Text) (fromhex : Text → Option Text)
    (ed25519_verify : Text → Text → Text → Bool) where
  unfoldable pub with_nonce : Text → Option Text → Text → Option Text
  with_nonce tag none body = none
  with_nonce tag (some raw) body = some (hex (sha256 (tag ++ raw ++ body)))

  -- `_kdigest` and `_vdigest`; `none` where bytes.fromhex raises ValueError.
  unfoldable pub kdigest_of : Text → List Text → Option Text
  unfolding with_nonce key_bytes sort_by
  kdigest_of nonce keys =
      with_nonce (98 ∷ 114 ∷ 107 ∷ 101 ∷ 121 ∷ 115 ∷ 124 ∷ []) (fromhex nonce)
        (key_bytes (sort_by (λ k. k) keys))

  unfoldable pub vdigest_of : Text → List (Text × Option Text) → Option Text
  unfolding with_nonce value_bytes sort_by
  vdigest_of nonce values =
      with_nonce (98 ∷ 114 ∷ 118 ∷ 97 ∷ 108 ∷ 115 ∷ 124 ∷ []) (fromhex nonce)
        (value_bytes (sort_by (λ item. item.0) values))

  unfoldable pub signed :
      (Text → Text) → Text → Text → Text → ℕ → Option Text → ℕ → Option Text → ℕ → Result Receipt
  unfolding msg
  signed priv_sign node_id pub_raw nonce asked none served vd now = raise value_error
  signed priv_sign node_id pub_raw nonce asked (some kd) served none now = raise value_error
  signed priv_sign node_id pub_raw nonce asked (some kd) served (some vd) now = ok (record {
    v = 1;
    node_id = node_id;
    beacon_of = now;
    nonce = nonce;
    asked = asked;
    kdigest = kd;
    served = served;
    vdigest = vd;
    public_key = hex pub_raw;
    sig = hex (priv_sign (msg 1 node_id now nonce asked kd served vd));
  })

  unfoldable pub sign :
      (Text → Text)
      → Text
      → Text
      → Text
      → List Text
      → List (Text × Option Text)
      → ℕ
      → Result Receipt
  unfolding beacon kdigest_of vdigest_of served_of signed
  sign priv_sign node_id pub_raw nonce keys values now =
      signed priv_sign node_id pub_raw nonce (length keys) (kdigest_of nonce keys)
        (served_of values) (vdigest_of nonce values) (beacon now)

  -- The rest of `verify`, of the key and the signature as bytes; an error is False.
  unfoldable pub verify_raw : Option Text → Option Text → Receipt → ℕ → Bool
  unfolding same_text beacon msg
  verify_raw none sig_raw r now = false
  verify_raw (some pub_raw) none r now = false
  verify_raw (some pub_raw) (some sig_raw) r now =
      same_text (take 16 (hex (sha256 pub_raw))) r.node_id
      && leb (distance r.beacon_of (beacon now)) beacon_slack
      && leb r.served r.asked
      && ed25519_verify pub_raw sig_raw
          (msg r.v r.node_id r.beacon_of r.nonce r.asked r.kdigest r.served r.vdigest)

  unfoldable pub verify : Receipt → ℕ → Bool
  unfolding verify_raw
  verify r now =
      if not (r.v == 1) then false else verify_raw (fromhex r.public_key) (fromhex r.sig) r now

  unfoldable pub is_digest : Text → Option Text → Bool
  unfolding same_text
  is_digest d none = false
  is_digest d (some e) = same_text d e

  unfoldable pub matches : Receipt → Text → List Text → List (Text × Option Text) → Bool
  unfolding same_text kdigest_of vdigest_of served_of is_digest
  matches r nonce keys values =
      same_text r.nonce nonce
      && r.asked == length keys
      && is_digest r.kdigest (kdigest_of nonce keys)
      && is_digest r.vdigest (vdigest_of nonce values)
      && r.served == served_of values

-- `_leading_zero_bits`, of the number that the digest is.
unfoldable pub leading_zero_bits : ℕ → ℕ
leading_zero_bits digest = 256 - bit_length digest

abbrev pub pow_key : Text
pow_key = 112 ∷ 111 ∷ 119 ∷ []

-- A report is a dict; `dumps` of its items without the key "pow".
abbrev pub Report : Type 0
Report = List (Text × Text)

unfoldable pub get_pow : Report → Option Text
unfolding same_text
get_pow [] = none
get_pow ((k, v) ∷ report) =
    let rest = get_pow report in if same_text k pow_key then some v else rest

unfoldable pub set_pow : Text → Report → Report
unfolding same_text
set_pow cand [] = (pow_key, cand) ∷ []
set_pow cand ((k, v) ∷ report) =
    let rest = set_pow cand report in
    if same_text k pow_key then (k, cand) ∷ report else (k, v) ∷ rest

module _ (sha256_number : Text → ℕ) (dumps : Report → Text) where
  unfoldable pub canonical : Report → Text
  unfolding same_text
  canonical report = dumps (filter (λ item. not (same_text item.0 pow_key)) report)

  unfoldable pub enough : Text → ℕ → Text → Bool
  unfolding leading_zero_bits
  enough body bits cand = leb bits (leading_zero_bits (sha256_number (body ++ 124 ∷ cand)))

  -- `for n in range(limit)`, of which `left` rounds are left.
  unfoldable pub solve_from : ℕ → ℕ → Text → ℕ → Result Text
  unfolding enough
  solve_from zero n body bits = raise runtime_error
  solve_from (suc left) n body bits =
      let rest = solve_from left (suc n) body bits in
      if enough body bits (show n) then ok (show n) else rest

  unfoldable pub solve : Report → ℕ → ℕ → Result Text
  unfolding solve_from canonical
  solve report bits limit = solve_from limit 0 (canonical report) bits

  unfoldable pub check_pow : Option Text → Report → ℕ → Bool
  unfolding enough canonical
  check_pow none report bits = false
  check_pow (some cand) report bits =
      if ltb 32 (length cand) then false else enough (canonical report) bits cand

  -- `check`
  unfoldable pub check : Report → ℕ → Bool
  unfolding check_pow get_pow
  check report bits = check_pow (get_pow report) report bits
