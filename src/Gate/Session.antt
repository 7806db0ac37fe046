-- ===== src/Gate/Session.antt =====
-- Whether a request carries a clearance: src/ngx-http-pow-gate/src/engine/clearance.rs.
use ngx_http_pow_gate.Common.{
  ℕ, Bool, false, not, ◌||◌, ltb, if◌then◌else◌, Option, none, some, List, length, ◌>>=◌,
}
use ngx_http_pow_gate.Common.Int.{ℤ}
use ngx_http_pow_gate.Common.Bytes.{codes}
use ngx_http_pow_gate.Common.Parse.{split_once, parse_i64}
use ngx_http_pow_gate.Clearance.{VerifiedClearance, key_bytes, with_verified}
use ngx_http_pow_gate.Context.{Assurance}
use ngx_http_pow_gate.Proof.{ProofCheck, check}
use ngx_http_pow_gate.RangeSet.{reverse}
use ngx_http_pow_gate.Replay.{same_letters}
use ngx_http_pow_gate.Runtime.{cookie, header}
use ngx_http_pow_gate.Wire.{unb64url_fixed}
use ngx_http_pow_gate.Gate.{Request, Cfg, World, client_context}

-- `Clearance` of that file
pub data Session : Type 0 where
  valid proof_skewed invalid : Session

abbrev pub turned : Option (List ℕ × List ℕ) → Option (List ℕ × List ℕ)
turned none = none
turned (some (a, b)) = some (reverse b, reverse a)

-- `rsplit_once`
unfoldable pub rsplit_once : ℕ → List ℕ → Option (List ℕ × List ℕ)
rsplit_once sep s = turned (split_once sep (reverse s))

abbrev is_empty_text : Option (List ℕ) → Bool
is_empty_text none = false
is_empty_text (some dest) = same_letters dest (codes "empty")

module _ (world : World) (cfg : Cfg) (r : Request) where
  -- `can_carry_proof`
  unfoldable pub can_carry_proof : Bool
  can_carry_proof = is_empty_text (header world.text r.headers (codes "sec-fetch-dest"))

  -- `parse_proof`
  unfoldable pub parse_proof : List ℕ → Option (List ℕ × ℤ)
  parse_proof h = do
    cut ← rsplit_once b'.' h
    sig ← unb64url_fixed world.wire 64 cut.0
    ts ← parse_i64 cut.1
    some (sig, ts)

  abbrev pub of_check : ProofCheck → Session
  of_check ProofCheck.valid = valid
  of_check ProofCheck.skewed = proof_skewed
  of_check ProofCheck.invalid = invalid

  -- A proof header that could be read, or not.
  unfoldable pub with_proof : VerifiedClearance → Option (List ℕ × ℤ) → Session
  with_proof cleared none = invalid
  with_proof cleared (some (sig, ts)) = of_check (
      check world.verify_signature (key_bytes cleared) r.method r.uri ts sig world.now
        cfg.proof_skew)

  -- The callback that a verified clearance is given to
  unfoldable pub proof_of : Option (List ℕ) → VerifiedClearance → Session
  proof_of none cleared = if not cfg.require_proof || not can_carry_proof then valid else invalid
  proof_of (some h) cleared = with_proof cleared (parse_proof h)

  abbrev pub or_invalid : Option Session → Session
  or_invalid none = invalid
  or_invalid (some session) = session

  -- `check_clearance` of a cookie in a context
  unfoldable pub cookie_session : Assurance → List ℕ → List ℕ → Session
  cookie_session required token context = or_invalid (
      with_verified world.wire world.read_clearance cfg.key token context required world.now
        cfg.clearance_ttl (proof_of (header world.text r.headers (codes "x-pow-proof"))))

  unfoldable pub token_session : Assurance → Option (List ℕ) → Option (List ℕ) → Session
  token_session required none context = invalid
  token_session required (some token) none = invalid
  token_session required (some token) (some context) =
      if ltb 4096 (length token) then invalid else cookie_session required token context

  -- `check_clearance` and `verified`
  unfoldable pub check_clearance : Assurance → Session
  check_clearance required =
      if not cfg.key_ok
      then invalid
      else token_session required (cookie world.text r.headers cfg.cookie.name)
          (client_context world cfg r)
