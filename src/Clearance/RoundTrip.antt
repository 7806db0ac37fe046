-- ===== src/Clearance/RoundTrip.antt =====
-- `issue` makes tokens that `verify` accepts, for as long as they are current.
use ngx_http_pow_gate.Common.{
  ℕ, ◌≤◌, ◌≡◌, refl, arith, true, leb, Option, some, List, [], ◌∷◌, length,
}
use ngx_http_pow_gate.Common.Int.{
  ℤ, pos, negsuc, ltb_ℤ, <ℤ→ltb_ℤ, ◌<ℤ◌, ◌-ℤ◌, checked_sub_i64, IsI64, fits_i64, add_i64,
}
use ngx_http_pow_gate.Common.Parse.{split_once-append}
use ngx_http_pow_gate.Context.{Assurance, pow}
use ngx_http_pow_gate.Mac.{joined, parts}
use ngx_http_pow_gate.Mac.Framing.{ct_eq_iff}
use ngx_http_pow_gate.Wire.{Wire, IsWire, unb64url_fixed-b64url}
use ngx_http_pow_gate.Clearance.{
  Clearance, mac_prefix, first_is_four, key_of, authenticated, authenticated_payload, with_verified,
  verify, issue,
}
use ngx_http_pow_gate.Clearance.Checks.{Current, is_current_iff, decode_payload_lem}

-- The payload that `issue` writes.
abbrev pub issued : Wire → (pk_sec1 context : List ℕ) → Assurance → (iat ttl : ℤ) → Clearance
issued w pk_sec1 context assurance iat ttl = record {
  version = 2;
  pk = w.b64url pk_sec1;
  context = context;
  assurance = assurance;
  iat = iat;
  exp = add_i64 iat ttl;
}

fits_i64-IsI64 : (d : ℤ) → IsI64 d → fits_i64 d ≡ true
fits_i64-IsI64 (pos n) h = ground arith
fits_i64-IsI64 (negsuc n) h = ground arith

checked_sub_i64-IsI64 : (a b : ℤ) → IsI64 (a -ℤ b) → checked_sub_i64 a b ≡ some (a -ℤ b)
unfolding checked_sub_i64
checked_sub_i64-IsI64 a b h = rw (fits_i64-IsI64 (a -ℤ b) h) refl

short→leb : (n : ℕ) → n ≤ 4096 → leb n 4096 ≡ true
short→leb n h = ground arith

module _ (w : Wire) (laws : IsWire w) where
  length-parts : (key : List ℕ) (ps : List (List ℕ)) → length (parts w.hmac_sha256 key ps) ≡ 32
  unfolding parts
  length-parts key ps = laws.tag_size key (joined ps)

  key_of-b64url :
      (difficulty : ℕ) (pk_sec1 : List ℕ)
      → length pk_sec1 ≡ 65
      → first_is_four pk_sec1 ≡ true
      → key_of w (pow difficulty) (w.b64url pk_sec1) ≡ some (pk_sec1, 65)
  unfolding key_of
  key_of-b64url difficulty pk_sec1 width four =
      rw (unb64url_fixed-b64url w laws 65 pk_sec1 width, four) refl

  module _ (write_json : Clearance → List ℕ) (read_json : List ℕ → Option Clearance)
      (context pk_sec1 : List ℕ) (difficulty : ℕ) (required : Assurance)
      (iat ttl now max_age : ℤ) where
    abbrev pub payload : Clearance
    payload = issued w pk_sec1 context (pow difficulty) iat ttl

    authenticated_payload-issued :
        read_json (write_json payload) ≡ some payload
        → length pk_sec1 ≡ 65
        → first_is_four pk_sec1 ≡ true
        → Current context required now max_age payload
        → checked_sub_i64 now iat ≡ some (now -ℤ iat)
        → ltb_ℤ (now -ℤ iat) max_age ≡ true
        → authenticated_payload w read_json (write_json payload) context required now max_age
          ≡ some (record { payload = payload; public_key = pk_sec1; public_key_len = 65 })
    unfolding authenticated_payload
    authenticated_payload-issued parsed width four current age young =
        rw
          (
            parsed,
            (is_current_iff context required now max_age payload).1 current,
            age,
            young,
            key_of-b64url difficulty pk_sec1 width four,
          )
          refl

    abbrev pub token : List ℕ → List ℕ
    token key = issue w write_json key pk_sec1 context (pow difficulty) iat ttl

    -- A token that `issue` made for a public key of 65 bytes that starts with 4 is accepted under
    -- the same key, and gives its payload back, when it has at most 4096 bytes, the payload is
    -- current, its age is a 64-bit integer and below the greatest age, and its JSON is read back.
    pub verify-issue_pow :
        (key : List ℕ)
        → read_json (write_json payload) ≡ some payload
        → length pk_sec1 ≡ 65
        → first_is_four pk_sec1 ≡ true
        → length (token key) ≤ 4096
        → Current context required now max_age payload
        → IsI64 (now -ℤ iat)
        → now -ℤ iat <ℤ max_age
        → verify w read_json key (token key) context required now max_age ≡ some payload
    unfolding verify with_verified authenticated issue
    verify-issue_pow key parsed width four short current fits young =
        let payload_b64 = w.b64url (write_json payload) in
        let tag = parts w.hmac_sha256 key (mac_prefix ∷ payload_b64 ∷ []) in
        rw
          (
            short→leb (length (token key)) short,
            split_once-append b'.' payload_b64 (w.b64url tag) (laws.plain (write_json payload)),
            unb64url_fixed-b64url w laws 32 tag (length-parts key (mac_prefix ∷ payload_b64 ∷ [])),
            (ct_eq_iff tag tag).1 refl,
            decode_payload_lem w laws payload_b64,
            laws.decodes (write_json payload),
            authenticated_payload-issued parsed width four current
                (checked_sub_i64-IsI64 now iat fits) (<ℤ→ltb_ℤ (now -ℤ iat) max_age young),
          )
          refl
