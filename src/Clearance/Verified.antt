-- ===== src/Clearance/Verified.antt =====
-- What `with_verified_prepared` answers for: a clearance it hands on was authenticated, is meant
-- for the context, is strong enough, has not expired and is young enough; and `issue` makes
-- tokens that it accepts.
use ngx_http_pow_gate.Common.{
  ℕ, ◌≤◌, ◌≡◌, sym, ◌∙◌, true, leb, leb→le, Option, some, List, [], ◌∷◌, ◌++◌, length, >>=-eq-some,
  require-eq-some, Bool-cases, inl, inr,
}
use ngx_http_pow_gate.Common.Int.{ℤ, ltb_ℤ, ◌<ℤ◌, ◌-ℤ◌, checked_sub_i64, fits_i64, ltb_ℤ→<ℤ}
use ngx_http_pow_gate.Common.Parse.{split_once, split_once-some}
use ngx_http_pow_gate.Context.{Assurance}
use ngx_http_pow_gate.Mac.{ct_eq, parts}
use ngx_http_pow_gate.Mac.Framing.{ct_eq_iff}
use ngx_http_pow_gate.Wire.{Wire, IsWire, unb64url_fixed, unb64url_fixed-eq-some}
use ngx_http_pow_gate.Clearance.{
  Clearance, VerifiedClearance, mac_prefix, is_current, key_of, decode_payload, authenticated,
  authenticated_payload, with_verified,
}
use ngx_http_pow_gate.Clearance.Checks.{
  Current, KeyOf, is_current_iff, key_of-eq-some, decode_payload_lem,
}

-- The token is a payload and a tag, cut at a dot; the tag is that of the payload under the key.
abbrev pub IsSigned : Wire → (key token payload_b64 tag_b64 : List ℕ) → Type 0
IsSigned w key token payload_b64 tag_b64 =
    (length token ≤ 4096)
    × (token ≡ payload_b64 ++ b'.' ∷ tag_b64)
    × (w.unb64url tag_b64 ≡ some (parts w.hmac_sha256 key (mac_prefix ∷ payload_b64 ∷ [])))

-- The payload of a verified clearance, of the age and with the key that the tests ask for.
abbrev pub IsVerified :
    Wire → (context : List ℕ) (required : Assurance) (now max_age : ℤ) → VerifiedClearance → Type 0
IsVerified w context required now max_age v =
    Current context required now max_age v.payload
    × (now -ℤ v.payload.iat <ℤ max_age)
    × KeyOf w v.payload.assurance v.payload.pk (v.public_key, v.public_key_len)

checked_sub_i64-eq-some : (a b d : ℤ) → checked_sub_i64 a b ≡ some d → d ≡ a -ℤ b
unfolding checked_sub_i64
checked_sub_i64-eq-some a b d h = elim (Bool-cases (fits_i64 (a -ℤ b))) [
  | inl fits ↦ cc (rw fits at h)
  | inr over ↦ absurd (cc (rw over at h))
]

younger : (age max_age real : ℤ) → ltb_ℤ age max_age ≡ true → age ≡ real → real <ℤ max_age
younger age max_age real young e = rw (← e) (ltb_ℤ→<ℤ age max_age young)

-- What an accepted token stands for: it is signed under the key, its payload reads as a
-- clearance, that clearance is verified, and the answer is what the callback makes of it.
abbrev pub IsAccepted :
    {T : Type 0}
    → Wire
    → (List ℕ → Option Clearance)
    → (key token context : List ℕ) (required : Assurance) (now max_age : ℤ)
    → (VerifiedClearance → T)
    → T
    → Type 0
IsAccepted w read_json key token context required now max_age use_clearance t =
    (payload_b64 tag_b64 raw : List ℕ) × (v : VerifiedClearance) × IsSigned w key token payload_b64
      tag_b64
    × (w.unb64url payload_b64 ≡ some raw)
    × (read_json raw ≡ some v.payload)
    × IsVerified w context required now max_age v
    × (t ≡ use_clearance v)

module _ (w : Wire) (laws : IsWire w) (read_json : List ℕ → Option Clearance) where
  authenticated_payload-eq-some :
      (decoded context : List ℕ) (required : Assurance) (now max_age : ℤ) (v : VerifiedClearance)
      → authenticated_payload w read_json decoded context required now max_age ≡ some v
      → (read_json decoded ≡ some v.payload) × IsVerified w context required now max_age v
  unfolding authenticated_payload
  authenticated_payload-eq-some decoded context required now max_age v h =
      let (payload, parsed, h₁) = >>=-eq-some (read_json decoded) _ h in
      let (tests, h₂) = require-eq-some (is_current context required now max_age payload) _ h₁ in
      let (age, aged, h₃) = >>=-eq-some (checked_sub_i64 now payload.iat) _ h₂ in
      let (young, h₄) = require-eq-some (ltb_ℤ age max_age) _ h₃ in
      let (k, keyed, h₅) = >>=-eq-some (key_of w payload.assurance payload.pk) _ h₄ in
      let same : record { payload = payload; public_key = k.0; public_key_len = k.1 } ≡ v = cc in
      rw (← same) (
        parsed,
        (
          (is_current_iff context required now max_age payload).0 tests,
          younger age max_age (now -ℤ payload.iat) young
              (checked_sub_i64-eq-some now payload.iat age aged),
          key_of-eq-some w laws payload.assurance payload.pk k keyed,
        ),
      )

  authenticated-eq-some :
      (key payload_b64 tag_b64 context : List ℕ) (required : Assurance) (now max_age : ℤ)
      (v : VerifiedClearance)
      → authenticated w read_json key (payload_b64, tag_b64) context required now max_age ≡ some v
      → (raw : List ℕ) × (w.unb64url tag_b64
          ≡ some (parts w.hmac_sha256 key (mac_prefix ∷ payload_b64 ∷ [])))
        × (w.unb64url payload_b64 ≡ some raw)
        × (authenticated_payload w read_json raw context required now max_age ≡ some v)
  unfolding authenticated
  authenticated-eq-some key payload_b64 tag_b64 context required now max_age v h =
      let (provided, decoded, h₁) = >>=-eq-some (unb64url_fixed w 32 tag_b64) _ h in
      let (same, h₂) =
        require-eq-some (ct_eq (parts w.hmac_sha256 key (mac_prefix ∷ payload_b64 ∷ [])) provided) _
          h₁ in
      let (raw, opened, h₃) = >>=-eq-some (decode_payload w payload_b64) _ h₂ in
      let tag : parts w.hmac_sha256 key (mac_prefix ∷ payload_b64 ∷ []) ≡ provided =
        (ct_eq_iff _ provided).0 same in
      (
        raw,
        rw tag (unb64url_fixed-eq-some w laws 32 tag_b64 provided decoded).0,
        sym (decode_payload_lem w laws payload_b64) ∙ opened,
        h₃,
      )

  -- A token that is let pass is signed under the key over its payload, is at most 4096 bytes
  -- long, and reads as a version 2 clearance for the context, strong enough, within its lifetime
  -- and younger than the maximum age, with a key of the right shape; the callback gets just that.
  pub with_verified-eq-some :
      {T : Type 0} (key token context : List ℕ) (required : Assurance) (now max_age : ℤ)
      (use_clearance : VerifiedClearance → T) (t : T)
      → with_verified w read_json key token context required now max_age use_clearance ≡ some t
      → IsAccepted w read_json key token context required now max_age use_clearance t
  unfolding with_verified
  with_verified-eq-some key token context required now max_age use_clearance t h =
      let (short, h₁) = require-eq-some (leb (length token) 4096) _ h in
      let ((payload_b64, tag_b64), cut, h₂) = >>=-eq-some (split_once b'.' token) _ h₁ in
      let (v, checked, h₃) =
        >>=-eq-some
          (authenticated w read_json key (payload_b64, tag_b64) context required now max_age) _
          h₂ in
      let (raw, tag, opened, inner) =
        authenticated-eq-some key payload_b64 tag_b64 context required now max_age v checked in
      let (parsed, verified) =
        authenticated_payload-eq-some raw context required now max_age v inner in
      (
        payload_b64,
        tag_b64,
        raw,
        v,
        (leb→le (length token) 4096 short, split_once-some b'.' token payload_b64 tag_b64 cut, tag),
        opened,
        parsed,
        verified,
        cc,
      )
