-- ===== src/Target/Bounds.antt =====
-- The target is the exact quotient, the comparison is that of the numbers, and so a solution is
-- valid exactly when its hash, as a number, is below the quotient.
use native.Mathlib.Nat.{mod-eq_of_lt, mul-le-mul_right}
use native.Mathlib.Decide.{dec_lt}
use ngx_http_pow_gate.Common.{
  ℕ, ◌+◌, ◌-◌, ◌*◌, ◌/◌, ◌%◌, ◌^◌, ◌≤◌, ◌<◌, ◌≡◌, ◌≢◌, ◌↔◌, refl, sym, Bool, true, false, arith,
  ltb, leb, ◌==◌, if◌then◌else◌, List, [], ◌∷◌, ◌++◌, drop, replicate, length, ap, subst, ==_iff,
  lt→ltb, ◌∙◌,
}
use ngx_http_pow_gate.Common.Decimal.{decimal}
use ngx_http_pow_gate.Common.Bytes.{be_value, be_value-cons, be_value-lt, AreBytes}
use ngx_http_pow_gate.Target.Division.{long_division-length, long_division-value}
use ngx_http_pow_gate.Target.{
  long_division, difficulty_to_target, hash_below, pow_hash, solution_valid,
}

-- The digits of an array of 32 bytes.
abbrev pub IsDigest : List ℕ → Type 0
IsDigest bs = (length bs ≡ 32) × AreBytes bs

quotient_unique : (q d s n : ℕ) → s < d → n ≡ q * d + s → q ≡ n / d
quotient_unique q d s n lt e = grind arith

-- The quotient of a one and zeros, without the first of its digits, which is zero.
quotient_of_power :
    (d : ℕ) (zeros : List ℕ)
    → 2 ≤ d
    → d < 2 ^ 64
    → AreBytes zeros
    → be_value zeros ≡ 0
    → (length (drop 1 (long_division d 0 (1 ∷ zeros))) ≡ length zeros)
      × AreBytes (drop 1 (long_division d 0 (1 ∷ zeros)))
      × (be_value (drop 1 (long_division d 0 (1 ∷ zeros))) ≡ 256 ^ length zeros / d)
unfolding long_division
quotient_of_power d zeros lo hi bytes none =
    let small : 1 % d ≡ 1 = mod-eq_of_lt lo in
    let (s, s-lt, value, digits) = long_division-value d (1 % d) zeros hi (omega arith) bytes in
    (
      long_division-length d (1 % d) zeros,
      digits,
      quotient_unique _ d s (256 ^ length zeros) s-lt (one_times (1 % d) _ _ _ small none value),
    )
  where
    one_times : (one p b r : ℕ) → one ≡ 1 → b ≡ 0 → one * p + b ≡ r → p ≡ r
    one_times one p b r o z e = omega (arith, ap (λ (t : ℕ). t * p) o)

not_off : (d : ℕ) → 2 ≤ d → leb d 1 ≡ false
not_off d lo = ground arith

off : (d : ℕ) → d ≤ 1 → leb d 1 ≡ true
off d lo = ground arith

-- For a difficulty of at least two the target is the quotient of `2^256` by it, rounded down,
-- and it fits in the 32 bytes of the array.
pub difficulty_to_target-value :
    (d : ℕ)
    → 2 ≤ d
    → d < 2 ^ 64
    → IsDigest (difficulty_to_target d) × (be_value (difficulty_to_target d) ≡ 2 ^ 256 / d)
unfolding difficulty_to_target
difficulty_to_target-value d lo hi =
    let (size, digits, value) =
      quotient_of_power d (replicate 32 0) lo hi (omega arith) (unfold be_value in refl) in
    rw (not_off d lo) ((size, digits), value)

digit_order : (h t p a b : ℕ) → h < t → a < p → h * p + a < t * p + b
digit_order h t p a b lt small =
    let step : (h + 1) * p ≤ t * p = mul-le-mul_right p (omega arith) in omega arith

test_ne : (h t : ℕ) → h ≢ t → (h == t) ≡ false
test_ne h t n = ground arith

not-ltb : (h t : ℕ) → ¬ (h < t) → ltb h t ≡ false
not-ltb h t n = ground arith

by_digit :
    (h t p a b : ℕ) (below : Bool)
    → (below ≡ true) ↔ (a < b)
    → a < p
    → b < p
    → ((if h == t then below else ltb h t) ≡ true) ↔ (h * p + a < t * p + b)
by_digit h t p a b below ih small small' = elim (dec_lt h t) [
  | yes lt ↦
      rw (test_ne h t (omega arith), lt→ltb h t lt)
        ((λ e. digit_order h t p a b lt small), (λ l. refl))
  | no ge ↦ elim (dec_lt t h) [
    | yes gt ↦
        rw (test_ne h t (omega arith), not-ltb h t ge)
          ((λ e. absurd (cc)), (λ l. absurd (omega (arith, digit_order t h p b a gt small'))))
    | no le ↦
        let same : h ≡ t = omega arith in
        rw (same, (==_iff t t).1 refl) ((λ e. omega (arith, ih.0 e)), (λ l. ih.1 (omega arith)))
  ]
]

-- The comparison of the arrays is that of the numbers.
pub hash_below-lt :
    (hash target : List ℕ)
    → length hash ≡ length target
    → AreBytes hash
    → AreBytes target
    → (hash_below hash target ≡ true) ↔ (be_value hash < be_value target)
unfolding hash_below
hash_below-lt [] [] same hb tb = ((λ e. absurd (cc)), (λ l. absurd (omega arith)))
hash_below-lt [] (t ∷ target) same hb tb = absurd (omega arith)
hash_below-lt (h ∷ hash) [] same hb tb = absurd (omega arith)
hash_below-lt (h ∷ hash) (t ∷ target) same hb tb =
    let ih = hash_below-lt hash target (omega arith) hb.1 tb.1 in
    let width : length hash ≡ length target = omega arith in
    let bound : be_value hash < 256 ^ length target =
      subst (λ n. be_value hash < 256 ^ n) width (be_value-lt hash hb.1) in
    rw (be_value-cons h hash, be_value-cons t target, width)
      (by_digit h t (256 ^ length target) (be_value hash) (be_value target) (hash_below hash target)
        ih bound (be_value-lt target tb.1))

-- The largest array is larger than every other digest.
below_ones :
    (hash : List ℕ) → IsDigest hash → (be_value hash < 2 ^ 256 - 1) ↔ (be_value hash ≢ 2 ^ 256 - 1)
below_ones hash (size, digits) =
    let bound : be_value hash < 256 ^ 32 =
      subst (λ n. be_value hash < 256 ^ n) size (be_value-lt hash digits) in
    ((λ l e. omega arith), (λ n. omega arith))

module _ (sha256 : List ℕ → List ℕ) (digest : (m : List ℕ) → IsDigest (sha256 m)) where
  pow_hash-IsDigest : (salt : List ℕ) (nonce : ℕ) → IsDigest (pow_hash sha256 salt nonce)
  unfolding pow_hash
  pow_hash-IsDigest salt nonce = digest (salt ++ decimal nonce)

  -- A nonce solves a salt at a difficulty of at least two exactly when its hash, as a number, is
  -- below the quotient of `2^256` by the difficulty.
  pub solution_valid_iff :
      (salt : List ℕ) (nonce difficulty : ℕ)
      → 2 ≤ difficulty
      → difficulty < 2 ^ 64
      → (solution_valid sha256 salt nonce difficulty ≡ true)
        ↔ (be_value (pow_hash sha256 salt nonce) < 2 ^ 256 / difficulty)
  unfolding solution_valid
  solution_valid_iff salt nonce difficulty lo hi =
      let ((size, digits), value) = difficulty_to_target-value difficulty lo hi in
      let (hash_size, hash_digits) = pow_hash-IsDigest salt nonce in
      rw (← value) (
        hash_below-lt (pow_hash sha256 salt nonce) (difficulty_to_target difficulty)
          (hash_size ∙ sym size) hash_digits digits)

  -- At a difficulty of zero or one every nonce is a solution but one whose hash is all ones: the
  -- comparison is strict, and the largest target is the largest hash.
  pub solution_valid-off :
      (salt : List ℕ) (nonce difficulty : ℕ)
      → difficulty ≤ 1
      → (solution_valid sha256 salt nonce difficulty ≡ true)
        ↔ (be_value (pow_hash sha256 salt nonce) ≢ 2 ^ 256 - 1)
  unfolding solution_valid difficulty_to_target
  solution_valid-off salt nonce difficulty lo =
      let hash = pow_hash sha256 salt nonce in
      let (size, digits) = pow_hash-IsDigest salt nonce in
      let largest = below_ones hash (size, digits) in
      let order = hash_below-lt hash (replicate 32 255) size digits (omega arith) in
      let ones : be_value (replicate 32 255) ≡ 2 ^ 256 - 1 = unfold be_value in refl in
      rw (off difficulty lo) (
        (λ e. largest.0 (subst (λ n. be_value hash < n) ones (order.0 e))),
        (λ n. order.1 (subst (λ n. be_value hash < n) (sym ones) (largest.1 n))),
      )
