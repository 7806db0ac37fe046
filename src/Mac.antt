-- ===== src/Mac.antt =====
-- The authenticated messages: src/pow-gate-core/src/mac.rs, the hexadecimal digits of
-- src/pow-gate-core/src/codec.rs, and the names of cookies, src/pow-gate-core/src/cookie.rs.
-- HMAC-SHA256 and SHA-256 are parameters; a state that is updated part by part authenticates the
-- parts one after the other.
pub mod Framing
mod Examples
use ngx_http_pow_gate.Common.{
  ℕ, zero, suc, ◌+◌, ◌-◌, ◌*◌, ◌/◌, ◌%◌, ◌^◌, Bool, true, false, ◌&&◌, ltb, leb, ◌==◌,
  if◌then◌else◌, List, [], ◌∷◌, ◌++◌, length, take,
}
use ngx_http_pow_gate.Common.Bytes.{codes, eq_bytes}

-- `ct_eq`: the answer of the comparison in constant time.
unfoldable pub ct_eq : List ℕ → List ℕ → Bool
unfolding eq_bytes
ct_eq a b = length a == length b && eq_bytes a b

-- `u64::to_be_bytes`
unfoldable pub be_bytes : ℕ → List ℕ
be_bytes n =
    n / 2 ^ 56 % 256
    ∷ n / 2 ^ 48 % 256
    ∷ n / 2 ^ 40 % 256
    ∷ n / 2 ^ 32 % 256
    ∷ n / 2 ^ 24 % 256
    ∷ n / 2 ^ 16 % 256
    ∷ n / 2 ^ 8 % 256
    ∷ n % 256
    ∷ []

-- What `parts` feeds to the state.
unfoldable pub joined : List (List ℕ) → List ℕ
joined [] = []
joined (part ∷ parts) = part ++ joined parts

-- What `fields` feeds to the state: each field behind its length.
unfoldable pub framed : List (List ℕ) → List ℕ
unfolding be_bytes
framed [] = []
framed (field ∷ fields) = be_bytes (length field) ++ (field ++ framed fields)

-- A hexadecimal digit in lower case.
abbrev pub hex_digit : ℕ → ℕ
hex_digit d = if ltb d 10 then b'0' + d else b'a' + (d - 10)

-- `hex`
unfoldable pub hex : List ℕ → List ℕ
hex [] = []
hex (b ∷ bytes) = hex_digit (b / 16) ∷ hex_digit (b % 16) ∷ hex bytes

module _ (hmac_sha256 : List ℕ → List ℕ → List ℕ) where
  -- `HmacKey::parts` and `HmacKey::fields`, with the key that the schedule was made of.
  unfoldable pub parts : List ℕ → List (List ℕ) → List ℕ
  parts key ps = hmac_sha256 key (joined ps)

  unfoldable pub fields : List ℕ → List (List ℕ) → List ℕ
  fields key fs = hmac_sha256 key (framed fs)

  -- `hmac`
  unfoldable pub hmac : List ℕ → List ℕ → List ℕ
  unfolding parts joined
  hmac key message = parts key (message ∷ [])

module _ (sha256 : List ℕ → List ℕ) where
  -- What `scoped_name` hashes.
  unfoldable pub scope_input : List ℕ → List (List ℕ) → List ℕ
  unfolding framed
  scope_input base fs = codes "pow-gate-cookie-scope-v2" ++ framed (base ∷ fs)

  -- `scoped_name`
  unfoldable pub scoped_name : List ℕ → List (List ℕ) → List ℕ
  unfolding scope_input hex
  scoped_name base fs = base ++ b'_' ∷ hex (take 12 (sha256 (scope_input base fs)))
