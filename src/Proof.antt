-- ===== src/Proof.antt =====
-- The proof of a request: src/pow-gate-core/src/proof.rs. The ECDSA check and the parser of points
-- are parameters.
use ngx_http_pow_gate.Common.{
  ℕ, zero, suc, ◌+◌, ◌≤◌, ◌≡◌, Bool, true, false, ◌&&◌, ltb, leb, ◌==◌, if◌then◌else◌, List, [],
  ◌∷◌, ◌++◌, length,
}
use ngx_http_pow_gate.Common.Int.{ℤ, pos, negsuc, ltb_ℤ, abs_diff, pattern64}
use ngx_http_pow_gate.Common.Bytes.{codes}
use ngx_http_pow_gate.Common.Decimal.{decimal}
pub mod Window
mod Examples

-- The decimal text of an `i64`.
unfoldable pub signed_decimal : ℤ → List ℕ
signed_decimal (pos n) = decimal n
signed_decimal (negsuc n) = b'-' ∷ decimal (suc n)

-- `message`
unfoldable pub message : (method path : List ℕ) → ℤ → List ℕ
message method path ts = method ++ b' ' ∷ (path ++ b' ' ∷ signed_decimal ts)

pub data ProofCheck : Type 0 where
  valid : ProofCheck
  skewed : ProofCheck
  invalid : ProofCheck

abbrev pub is_valid : ProofCheck → Bool
is_valid valid = true
is_valid skewed = false
is_valid invalid = false

-- `challenge_message`
unfoldable pub challenge_message : List ℕ → List ℕ
challenge_message token = codes "pow-gate-redeem-v2 " ++ token

abbrev pub first_is_four : List ℕ → Bool
first_is_four [] = false
first_is_four (b ∷ bytes) = b == 4

-- `valid_public_key`
unfoldable pub valid_public_key : (List ℕ → Bool) → List ℕ → Bool
valid_public_key from_sec1_bytes pk = length pk == 65 && first_is_four pk && from_sec1_bytes pk

module _ (verify_signature : (pk message sig : List ℕ) → Bool) where
  -- `check`
  unfoldable pub check :
      (pk_sec1 method path : List ℕ) → ℤ → (sig : List ℕ) → (now skew : ℤ) → ProofCheck
  check pk_sec1 method path ts sig now skew =
      if ltb_ℤ skew (pos 0)
      then invalid
      else if ltb (pattern64 skew) (abs_diff now ts)
      then skewed
      else if verify_signature pk_sec1 (message method path ts) sig
      then valid
      else invalid

  -- `verify`
  unfoldable pub verify :
      (pk_sec1 method path : List ℕ) → ℤ → (sig : List ℕ) → (now skew : ℤ) → Bool
  verify pk_sec1 method path ts sig now skew = is_valid (check pk_sec1 method path ts sig now skew)

  -- `verify_challenge`
  unfoldable pub verify_challenge : (pk token sig : List ℕ) → Bool
  verify_challenge pk token sig = verify_signature pk (challenge_message token) sig
