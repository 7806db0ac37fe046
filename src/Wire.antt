-- ===== src/Wire.antt =====
-- What the code takes from other crates, as parameters: HMAC-SHA256 (`hmac`, `ring`), base64url
-- without padding (`base64`, through src/pow-gate-core/src/codec.rs), and what it relies on.
pub mod Doubled
use ngx_http_pow_gate.Common.{
  ℕ, ◌+◌, ◌*◌, ◌≤◌, ◌≡◌, Bool, true, false, ◌==◌, if◌then◌else◌, Option, none, some, List, [], ◌∷◌,
  length, ◌>>=◌, >>=-eq-some, arith, Bool-cases, inl, inr, ==_iff, ap,
}
use native.Mathlib.Nat.{le_refl}
use ngx_http_pow_gate.Common.Parse.{Lacks}

pub record Wire : Type 0 where
  pub hmac_sha256 : List ℕ → List ℕ → List ℕ
  -- `B64.encode`, `B64.decode`, and `B64.decode_slice` with the length of the slice
  pub b64url : List ℕ → List ℕ
  pub unb64url : List ℕ → Option (List ℕ)
  pub unb64url_into : List ℕ → ℕ → Option (List ℕ)

-- The documented behaviour: a tag has 32 bytes; decoding undoes encoding; the alphabet has no
-- dot; three bytes come of four characters; and the slice takes what fits in it.
pub record IsWire (w : Wire) : Type 0 where
  pub tag_size : (key message : List ℕ) → length (w.hmac_sha256 key message) ≡ 32
  pub decodes : (bytes : List ℕ) → w.unb64url (w.b64url bytes) ≡ some bytes
  pub plain : (bytes : List ℕ) → Lacks b'.' (w.b64url bytes)
  pub shrinks : (s bytes : List ℕ) → w.unb64url s ≡ some bytes → 4 * length bytes ≤ 3 * length s
  pub fits :
      (s bytes : List ℕ) (size : ℕ)
      → w.unb64url s ≡ some bytes
      → length bytes ≤ size
      → w.unb64url_into s size ≡ some bytes
  pub into :
      (s bytes : List ℕ) (size : ℕ)
      → w.unb64url_into s size ≡ some bytes
      → (w.unb64url s ≡ some bytes) × (length bytes ≤ size)

-- `(.. == N).then_some(output)`
unfoldable pub exact : ℕ → List ℕ → Option (List ℕ)
exact size bytes = if length bytes == size then some bytes else none

exact-eq-some :
    (size : ℕ) (read bytes : List ℕ)
    → exact size read ≡ some bytes
    → (read ≡ bytes) × (length bytes ≡ size)
unfolding exact
exact-eq-some size read bytes h = elim (Bool-cases (length read == size)) [
  | inl same ↦
      let e : read ≡ bytes = cc (rw same at h) in (e, rw (← e) ((==_iff (length read) size).0 same))
  | inr other ↦ absurd (cc (rw other at h))
]

exact-length : (bytes : List ℕ) → exact (length bytes) bytes ≡ some bytes
unfolding exact
exact-length bytes = ground arith

module _ (w : Wire) where
  -- `unb64url_fixed::<N>`
  unfoldable pub unb64url_fixed : ℕ → List ℕ → Option (List ℕ)
  unb64url_fixed size s = w.unb64url_into s size >>= exact size

  module _ (laws : IsWire w) where
    -- A value of exact width is the decoded text, if that has the width.
    pub unb64url_fixed-eq-some :
        (size : ℕ) (s bytes : List ℕ)
        → unb64url_fixed size s ≡ some bytes
        → (w.unb64url s ≡ some bytes) × (length bytes ≡ size)
    unfolding unb64url_fixed
    unb64url_fixed-eq-some size s bytes h =
        let (read, found, e) = >>=-eq-some (w.unb64url_into s size) (exact size) h in
        let (same, width) = exact-eq-some size read bytes e in
        ((laws.into s bytes size (rw (← same) found)).0, width)

    pub unb64url_fixed-b64url :
        (size : ℕ) (bytes : List ℕ)
        → length bytes ≡ size
        → unb64url_fixed size (w.b64url bytes) ≡ some bytes
    unfolding unb64url_fixed
    unb64url_fixed-b64url size bytes h =
        rw
          (
            ← h,
            laws.fits (w.b64url bytes) bytes (length bytes) (laws.decodes bytes)
                (le_refl (length bytes)),
          )
          (exact-length bytes)

-- Two byte strings have two texts.
pub b64url-injective : (w : Wire) → IsWire w → (a b : List ℕ) → w.b64url a ≡ w.b64url b → a ≡ b
b64url-injective w laws a b e =
    let back : w.unb64url (w.b64url a) ≡ w.unb64url (w.b64url b) = ap w.unb64url e in
    cc (laws.decodes a, laws.decodes b)
