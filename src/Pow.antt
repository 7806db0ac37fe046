-- ===== src/Pow.antt =====
-- The proof-of-work challenge: src/pow-gate-core/src/pow.rs. SHA-256, the JSON of the bound fields
-- and the random bytes of the salt are parameters.
use ngx_http_pow_gate.Common.{
  ℕ, zero, suc, ◌+◌, ◌≤◌, ◌≡◌, Bool, true, false, not, ◌&&◌, ◌||◌, ltb, leb, ◌==◌, if◌then◌else◌,
  List, [], ◌∷◌,
}
use ngx_http_pow_gate.Common.Int.{ℤ, leb_ℤ, add_i64}
use ngx_http_pow_gate.Mac.{ct_eq, hmac, hex}
use ngx_http_pow_gate.Target.{solution_valid}
use ngx_http_pow_gate.Wire.{Wire}
pub mod Verdicts
pub mod Issued
mod Examples

pub record Challenge : Type 0 where
  pub version : ℕ
  pub salt : List ℕ
  pub exp : ℤ
  pub difficulty : ℕ
  pub token : List ℕ

pub data Verdict : Type 0 where
  ok : Verdict
  expired : Verdict
  bad_token : Verdict
  wrong_solution : Verdict

-- The fields that a token binds, behind the constant tag of the protocol.
pub record Bound : Type 0 where
  pub salt : List ℕ
  pub exp : ℤ
  pub difficulty : ℕ
  pub pk_b64 : List ℕ
  pub context : List ℕ

module _ (w : Wire) (write_json : Bound → List ℕ) where
  -- `binding`
  unfoldable pub binding : List ℕ → ℤ → ℕ → List ℕ → List ℕ → List ℕ
  binding salt exp difficulty pk context = write_json (record {
    salt = salt;
    exp = exp;
    difficulty = difficulty;
    pk_b64 = w.b64url pk;
    context = context;
  })

  -- The token of a challenge for a key and a context.
  unfoldable pub token_of : (key salt : List ℕ) → ℤ → ℕ → (pk context : List ℕ) → List ℕ
  token_of key salt exp difficulty pk context =
      w.b64url (hmac w.hmac_sha256 key (binding salt exp difficulty pk context))

  -- `issue`, with the sixteen bytes of the salt.
  unfoldable pub issue : (key raw pk context : List ℕ) → ℕ → (now ttl : ℤ) → Challenge
  issue key raw pk context difficulty now ttl =
      let salt = hex raw in
      let exp = add_i64 now ttl in
      record {
        version = 2;
        salt = salt;
        exp = exp;
        difficulty = difficulty;
        token = token_of key salt exp difficulty pk context;
      }

  -- The first test: whether the token was not made for this challenge, key and context.
  unfoldable pub is_bad : (key : List ℕ) → Challenge → (pk context : List ℕ) → ℕ → Bool
  is_bad key challenge pk context required =
      let expect = token_of key challenge.salt challenge.exp challenge.difficulty pk context in
      not (challenge.version == 2)
      || challenge.difficulty == 0
      || not (challenge.difficulty == required)
      || not (ct_eq expect challenge.token)

  module _ (sha256 : List ℕ → List ℕ) where
    -- `verify_solution`
    unfoldable pub verify_solution :
        (key : List ℕ) → Challenge → ℕ → (pk context : List ℕ) → ℕ → ℤ → Verdict
    verify_solution key challenge nonce pk context required now =
        if is_bad key challenge pk context required
        then bad_token
        else if leb_ℤ challenge.exp now
        then expired
        else if not (solution_valid sha256 challenge.salt nonce challenge.difficulty)
        then wrong_solution
        else ok
