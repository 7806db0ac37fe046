-- ===== src/Target.antt =====
-- The difficulty, the target and the big-endian comparison: src/pow-gate-core/src/target.rs.
-- SHA-256 is a parameter. `u128` values keep their wrap-around.
use ngx_http_pow_gate.Common.Decimal.{decimal}
pub mod Division
pub mod Bounds
mod Examples
use ngx_http_pow_gate.Common.{
  ℕ, zero, suc, ◌+◌, ◌*◌, ◌/◌, ◌%◌, ◌^◌, Bool, true, false, ltb, leb, ◌==◌, if◌then◌else◌, List, [],
  ◌∷◌, ◌++◌, drop, replicate,
}

-- The loop over the numerator: each digit of the quotient, from the remainder so far. The shift
-- by 8 leaves the low byte zero, so the `|` with a digit is a sum.
unfoldable pub long_division : (d remainder : ℕ) → List ℕ → List ℕ
long_division d remainder [] = []
long_division d remainder (digit ∷ numerator) =
    let cur = remainder * 256 % 2 ^ 128 + digit in
    cur / d % 256 ∷ long_division d (cur % d) numerator

-- `2^256` as 33 digits to the base 256.
abbrev pub numerator : List ℕ
numerator = 1 ∷ replicate 32 0

unfoldable pub difficulty_to_target : ℕ → List ℕ
unfolding long_division
difficulty_to_target difficulty =
    if leb difficulty 1 then replicate 32 255 else drop 1 (long_division difficulty 0 numerator)

-- The loop over the two arrays, which are of one length.
unfoldable pub hash_below : List ℕ → List ℕ → Bool
hash_below [] target = false
hash_below (h ∷ hash) [] = false
hash_below (h ∷ hash) (t ∷ target) = if h == t then hash_below hash target else ltb h t

module _ (sha256 : List ℕ → List ℕ) where
  unfoldable pub pow_hash : List ℕ → ℕ → List ℕ
  pow_hash salt nonce = sha256 (salt ++ decimal nonce)

  unfoldable pub solution_valid : List ℕ → ℕ → ℕ → Bool
  solution_valid salt nonce difficulty =
      hash_below (pow_hash salt nonce) (difficulty_to_target difficulty)
