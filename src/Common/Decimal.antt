-- ===== src/Common/Decimal.antt =====
-- `to_string` of the unsigned integers, and that `parse` reads it back.
use native.Mathlib.Nat.{pow-suc}
use ngx_http_pow_gate.Common.{
  ℕ, zero, suc, ◌+◌, ◌-◌, ◌*◌, ◌/◌, ◌%◌, ◌^◌, ◌<◌, ◌≡◌, refl, ◌∙◌, arith, true, ltb, if◌then◌else◌,
  some, List, [], ◌∷◌, ◌++◌, ap, Bool-cases, inl, inr,
}
use ngx_http_pow_gate.Common.Parse.{digits_value, unsigned, parse_unsigned, parse_i64, is_digit}
use ngx_http_pow_gate.Common.Int.{pos}

-- The digits of a number, with fuel for as many divisions by ten.
unfoldable pub decimal_digits : ℕ → ℕ → List ℕ
decimal_digits zero n = []
decimal_digits (suc fuel) n =
    let rest = decimal_digits fuel (n / 10) ++ (b'0' + n % 10) ∷ [] in
    if ltb n 10 then (b'0' + n) ∷ [] else rest

-- A number of 64 bits has at most twenty digits.
unfoldable pub decimal : ℕ → List ℕ
decimal = decimal_digits 20

digits_value-snoc :
    (acc v d : ℕ) (s : List ℕ)
    → digits_value acc s ≡ some v
    → d < 10
    → digits_value acc (s ++ (b'0' + d) ∷ []) ≡ some (v * 10 + d)
unfolding digits_value
digits_value-snoc acc v d [] h small = ground arith
digits_value-snoc acc v d (c ∷ s) h small =
    ground (arith, digits_value-snoc (acc * 10 + (c - b'0')) v d s)

decimal_digits-value :
    (fuel n : ℕ) → n < 10 ^ fuel → digits_value 0 (decimal_digits fuel n) ≡ some n
unfolding decimal_digits
decimal_digits-value zero n h = let e : 0 ≡ n = omega arith in unfold digits_value in ap some e
decimal_digits-value (suc fuel) n h = elim (Bool-cases (ltb n 10)) [
  | inl small ↦ rw small (unfold digits_value in ground arith)
  | inr large ↦ rw large (
      digits_value-snoc 0 (n / 10) (n % 10) (decimal_digits fuel (n / 10))
        (decimal_digits-value fuel (n / 10) (omega (arith, pow-suc 10 fuel))) (omega arith)
      ∙ ap some (omega arith))
]

decimal_digits-shape : (fuel n : ℕ) → (c : ℕ) × (s : List ℕ) × (decimal_digits (suc fuel) n ≡ c ∷ s)
unfolding decimal_digits
decimal_digits-shape fuel n = elim (Bool-cases (ltb n 10)) [
  | inl small ↦ (b'0' + n, [], rw small)
  | inr large ↦ rw large (front (decimal_digits fuel (n / 10)) (b'0' + n % 10))
]
  where
    front : (s : List ℕ) (d : ℕ) → (c : ℕ) × (t : List ℕ) × (s ++ d ∷ [] ≡ c ∷ t)
    front [] d = (d, [], refl)
    front (c ∷ s) d = (c, s ++ d ∷ [], refl)

digits_value-first : (c n : ℕ) (s : List ℕ) → digits_value 0 (c ∷ s) ≡ some n → is_digit c ≡ true
unfolding digits_value
digits_value-first c n s h = ground arith

parse_unsigned-digits :
    (bound c n : ℕ) (s : List ℕ)
    → digits_value 0 (c ∷ s) ≡ some n
    → n < bound
    → parse_unsigned bound (c ∷ s) ≡ some n
unfolding parse_unsigned unsigned digits_value
parse_unsigned-digits bound c n s h lt = ground arith

-- A number of 64 bits is read back from its digits.
pub parse_unsigned-decimal : (n : ℕ) → n < 2 ^ 64 → parse_unsigned (2 ^ 64) (decimal n) ≡ some n
unfolding decimal
parse_unsigned-decimal n h =
    let (c, s, e) = decimal_digits-shape 19 n in
    let value = decimal_digits-value 20 n (omega arith) in
    rw e (parse_unsigned-digits (2 ^ 64) c n s (rw e at value) h)

-- The digits begin with a digit.
pub decimal-shape :
    (n : ℕ) → n < 2 ^ 64 → (c : ℕ) × (s : List ℕ) × (decimal n ≡ c ∷ s) × (is_digit c ≡ true)
unfolding decimal
decimal-shape n h =
    let (c, s, e) = decimal_digits-shape 19 n in
    let value = decimal_digits-value 20 n (omega arith) in
    (c, s, e, digits_value-first c n s (rw e at value))

parse_i64-digits :
    (c n : ℕ) (s : List ℕ)
    → digits_value 0 (c ∷ s) ≡ some n
    → n < 2 ^ 63
    → parse_i64 (c ∷ s) ≡ some (pos n)
unfolding parse_i64 unsigned digits_value
parse_i64-digits c n s h lt = ground arith

-- So is a number in the positive range of a signed integer.
pub parse_i64-decimal : (n : ℕ) → n < 2 ^ 63 → parse_i64 (decimal n) ≡ some (pos n)
unfolding decimal
parse_i64-decimal n h =
    let (c, s, e) = decimal_digits-shape 19 n in
    let value = decimal_digits-value 20 n (omega arith) in
    rw e (parse_i64-digits c n s (rw e at value) h)
