-- ===== src/Clearance.antt =====
-- The clearance token: src/pow-gate-core/src/clearance.rs. The JSON of `serde` is a pair of
-- parameters; the callback that reads a verified clearance is a function.
pub mod Checks
pub mod Verified
pub mod RoundTrip
mod Examples
use ngx_http_pow_gate.Common.{
  ℕ, zero, suc, ◌+◌, ◌*◌, ◌/◌, ◌≤◌, ◌≡◌, Bool, true, false, not, ◌&&◌, ◌||◌, ltb, leb, ◌==◌,
  if◌then◌else◌, Option, none, some, List, [], ◌∷◌, ◌++◌, length, take, replicate, get_or, ◌>>=◌,
  ◌>>◌, require,
}
use ngx_http_pow_gate.Common.Int.{ℤ, pos, ltb_ℤ, leb_ℤ, add_i64, checked_sub_i64}
use ngx_http_pow_gate.Common.Bytes.{codes}
use ngx_http_pow_gate.Common.Parse.{split_once}
use ngx_http_pow_gate.Context.{Assurance, pow, no_js, satisfies}
use ngx_http_pow_gate.Mac.{ct_eq, parts}
use ngx_http_pow_gate.Wire.{Wire, unb64url_fixed}

-- `Clearance`, and `Payload`, which has the same fields.
pub record Clearance : Type 0 where
  pub version : ℕ
  pub pk : List ℕ
  pub context : List ℕ
  pub assurance : Assurance
  pub iat : ℤ
  pub exp : ℤ

-- The payload and its decoded key, an array of 65 bytes and how many of them count.
pub record VerifiedClearance : Type 0 where
  pub payload : Clearance
  pub public_key : List ℕ
  pub public_key_len : ℕ

-- `public_key` and `into_owned`
unfoldable pub key_bytes : VerifiedClearance → List ℕ
key_bytes v = take v.public_key_len v.public_key

abbrev pub into_owned : VerifiedClearance → Clearance
into_owned v = v.payload

abbrev pub mac_prefix : List ℕ
mac_prefix = codes "pow-gate-clearance-v2|"

-- The tests of an authenticated payload, but for its age.
unfoldable pub is_current : List ℕ → Assurance → ℤ → ℤ → Clearance → Bool
is_current context required now max_age payload =
    payload.version == 2
    && ct_eq payload.context context
    && satisfies payload.assurance required
    && ltb_ℤ now payload.exp
    && leb_ℤ payload.iat now
    && ltb_ℤ (pos 0) max_age

abbrev pub first_is_four : List ℕ → Bool
first_is_four [] = false
first_is_four (b ∷ bytes) = b == 4

abbrev pub is_empty : List ℕ → Bool
is_empty [] = true
is_empty (b ∷ bytes) = false

module _ (w : Wire) where
  -- The key of a clearance, by its kind.
  unfoldable pub key_of : Assurance → List ℕ → Option (List ℕ × ℕ)
  key_of (pow difficulty) pk = do
    bytes ← unb64url_fixed w 65 pk
    require (first_is_four bytes)
    some (bytes, 65)
  key_of (no_js delay) pk = do require (is_empty pk); some (replicate 65 0, 0)

  module _ (write_json : Clearance → List ℕ) where
    -- `issue`
    unfoldable pub issue : List ℕ → List ℕ → List ℕ → Assurance → ℤ → ℤ → List ℕ
    issue key pk_sec1 context assurance iat ttl =
        let payload : Clearance = record {
          version = 2;
          pk = w.b64url pk_sec1;
          context = context;
          assurance = assurance;
          iat = iat;
          exp = add_i64 iat ttl;
        } in
        let payload_b64 = w.b64url (write_json payload) in
        let tag = w.b64url (parts w.hmac_sha256 key (mac_prefix ∷ payload_b64 ∷ [])) in
        payload_b64 ++ b'.' ∷ tag

  -- The two ways to decode the payload: into a buffer of 512 bytes, or into fresh storage.
  unfoldable pub decode_payload : List ℕ → Option (List ℕ)
  decode_payload payload_b64 =
      if leb (length payload_b64) (512 / 3 * 4)
      then w.unb64url_into payload_b64 512
      else w.unb64url payload_b64

  module _ (read_json : List ℕ → Option Clearance) where
    -- `use_authenticated_payload`, up to the callback.
    unfoldable pub authenticated_payload :
        List ℕ → List ℕ → Assurance → ℤ → ℤ → Option VerifiedClearance
    authenticated_payload decoded context required now max_age = do
      payload ← read_json decoded
      require (is_current context required now max_age payload)
      age ← checked_sub_i64 now payload.iat
      require (ltb_ℤ age max_age)
      key ← key_of payload.assurance payload.pk
      some (record { payload = payload; public_key = key.0; public_key_len = key.1 })

    -- What is left when the token is cut at its first dot.
    unfoldable pub authenticated :
        List ℕ → List ℕ × List ℕ → List ℕ → Assurance → ℤ → ℤ → Option VerifiedClearance
    authenticated key (payload_b64, tag_b64) context required now max_age = do
      provided ← unb64url_fixed w 32 tag_b64
      require (ct_eq (parts w.hmac_sha256 key (mac_prefix ∷ payload_b64 ∷ [])) provided)
      decoded ← decode_payload payload_b64
      authenticated_payload decoded context required now max_age

    module _ {T : Type 0} where
      -- `with_verified_prepared`
      unfoldable pub with_verified :
          (key token context : List ℕ) (required : Assurance) (now max_age : ℤ)
          → (VerifiedClearance → T)
          → Option T
      with_verified key token context required now max_age use_clearance = do
        require (leb (length token) 4096)
        cut ← split_once b'.' token
        verified ← authenticated key cut context required now max_age
        some (use_clearance verified)

    -- `verify`, which is `verify_prepared` with a key schedule of its own.
    unfoldable pub verify :
        (key token context : List ℕ) (required : Assurance) (now max_age : ℤ) → Option Clearance
    verify key token context required now max_age =
        with_verified key token context required now max_age into_owned
