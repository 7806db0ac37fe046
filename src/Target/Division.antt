-- ===== src/Target/Division.antt =====
-- The long division computes the quotient.
use native.Mathlib.Nat.{pow-suc, mod-eq_of_lt}
use ngx_http_pow_gate.Common.{
  ℕ, suc, ◌+◌, ◌*◌, ◌/◌, ◌%◌, ◌^◌, ◌<◌, ◌≡◌, refl, arith, List, [], ◌∷◌, length, ap,
}
use ngx_http_pow_gate.Common.Bytes.{be_value, be_value-cons, AreBytes}
use ngx_http_pow_gate.Target.{long_division}

pub long_division-length : (d r : ℕ) (ns : List ℕ) → length (long_division d r ns) ≡ length ns
unfolding long_division
long_division-length d r [] = refl
long_division-length d r (n ∷ ns) = ap suc (long_division-length d ((r * 256 % 2 ^ 128 + n) % d) ns)

-- No step of the loop wraps: the remainder stays below a 64-bit divisor.
step_exact : (d r : ℕ) → d < 2 ^ 64 → r < d → r * 256 % 2 ^ 128 ≡ r * 256
step_exact d r small lt = omega arith

-- So a digit of the quotient fits in a byte.
digit-lt : (d r n : ℕ) → r < d → n < 256 → (r * 256 + n) / d < 256
digit-lt d r n lt b = grind arith

-- One step: the remainder and the digit are the quotient's digit and the next remainder.
carry :
    (d r n p : ℕ) → 0 < d → (r * 256 + n) * p ≡ (r * 256 + n) / d * p * d + (r * 256 + n) % d * p
carry d r n p h =
    let split : r * 256 + n ≡ (r * 256 + n) / d * d + (r * 256 + n) % d = omega arith in
    omega (arith, ap (λ (t : ℕ). t * p) split)

-- A step in front of the rest of the division.
combine :
    (r n d q r' s p bq bn : ℕ)
    → (r * 256 + n) * p ≡ q * p * d + r' * p
    → r' * p + bn ≡ bq * d + s
    → r * (p * 256) + (n * p + bn) ≡ (q * p + bq) * d + s
combine r n d q r' s p bq bn head rest = omega arith

-- The digits are those of the quotient: the number divided is the quotient times the divisor
-- and a remainder below it.
pub long_division-value :
    (d r : ℕ) (ns : List ℕ)
    → d < 2 ^ 64
    → r < d
    → AreBytes ns
    → (s : ℕ) × (s < d)
      × (r * 256 ^ length ns + be_value ns ≡ be_value (long_division d r ns) * d + s)
      × AreBytes (long_division d r ns)
unfolding long_division
long_division-value d r [] small lt bytes = (r, lt, unfold be_value in omega arith, tt)
long_division-value d r (n ∷ ns) small lt bytes =
    let cur = r * 256 + n in
    let below : cur % d < d = omega arith in
    let digit = digit-lt d r n lt bytes.0 in
    let (s, s-lt, value, rest) = long_division-value d (cur % d) ns small below bytes.1 in
    rw (step_exact d r small lt, mod-eq_of_lt digit)
      (
        s,
        s-lt,
        rw
            (
              be_value-cons n ns,
              be_value-cons (cur / d) (long_division d (cur % d) ns),
              long_division-length d (cur % d) ns,
              pow-suc 256 (length ns),
            )
            (combine r n d (cur / d) (cur % d) s (256 ^ length ns) _ (be_value ns)
              (carry d r n (256 ^ length ns) (omega arith)) value),
        (digit, rest),
      )
