-- ===== src/Clearance/Checks.antt =====
-- What the tests of a payload and of its key amount to, and that the two ways to decode agree.
use ngx_http_pow_gate.Common.{
  ℕ, ◌*◌, ◌≤◌, ◌≡◌, ◌↔◌, refl, sym, arith, true, leb, leb→le, some, List, [], ◌∷◌, length,
  replicate, ◌>>◌, require, >>=-eq-some, require-eq-some, Bool-cases, Option-cases, inl, inr,
}
use ngx_http_pow_gate.Common.Int.{ℤ, pos, ◌≤ℤ◌, ◌<ℤ◌}
use ngx_http_pow_gate.Context.{Assurance, pow, no_js, satisfies}
use ngx_http_pow_gate.Context.Assurances.{AtLeast, satisfies_iff}
use ngx_http_pow_gate.Mac.{ct_eq}
use ngx_http_pow_gate.Mac.Framing.{ct_eq_iff}
use ngx_http_pow_gate.Wire.{Wire, IsWire, unb64url_fixed, unb64url_fixed-eq-some}
use ngx_http_pow_gate.Clearance.{
  Clearance, is_current, first_is_four, is_empty, key_of, decode_payload,
}

-- A payload that the tests let pass, its age apart.
abbrev pub Current : List ℕ → Assurance → ℤ → ℤ → Clearance → Type 0
Current context required now max_age payload =
    (payload.version ≡ 2)
    × (payload.context ≡ context)
    × AtLeast payload.assurance required
    × (now <ℤ payload.exp)
    × (payload.iat ≤ℤ now)
    × (pos 0 <ℤ max_age)

is_current-parts :
    (context : List ℕ) (required : Assurance) (now max_age : ℤ) (p : Clearance)
    → is_current context required now max_age p ≡ true
    → (p.version ≡ 2)
      × (ct_eq p.context context ≡ true)
      × (satisfies p.assurance required ≡ true)
      × (now <ℤ p.exp)
      × (p.iat ≤ℤ now)
      × (pos 0 <ℤ max_age)
unfolding is_current
is_current-parts context required now max_age p h = ground arith

is_current-build :
    (context : List ℕ) (required : Assurance) (now max_age : ℤ) (p : Clearance)
    → p.version ≡ 2
    → ct_eq p.context context ≡ true
    → satisfies p.assurance required ≡ true
    → now <ℤ p.exp
    → p.iat ≤ℤ now
    → pos 0 <ℤ max_age
    → is_current context required now max_age p ≡ true
unfolding is_current
is_current-build context required now max_age p v c s e i m = ground arith

pub is_current_iff :
    (context : List ℕ) (required : Assurance) (now max_age : ℤ) (p : Clearance)
    → (is_current context required now max_age p ≡ true) ↔ Current context required now max_age p
is_current_iff context required now max_age p = (
  (λ h.
      let (v, c, s, e, i, m) = is_current-parts context required now max_age p h in
      (v, (ct_eq_iff p.context context).0 c, (satisfies_iff p.assurance required).0 s, e, i, m)),
  (λ (v, c, s, e, i, m).
      is_current-build context required now max_age p v ((ct_eq_iff p.context context).1 c)
        ((satisfies_iff p.assurance required).1 s) e i m),
)

-- The key of a verified clearance: the 65 bytes of an uncompressed point, or none.
abbrev pub KeyOf : Wire → Assurance → List ℕ → List ℕ × ℕ → Type 0
KeyOf w (pow difficulty) pk key =
    (w.unb64url pk ≡ some key.0) × (length key.0 ≡ 65) × (first_is_four key.0 ≡ true) × (key.1 ≡ 65)
KeyOf w (no_js delay) pk key = (pk ≡ []) × (key.1 ≡ 0)

is_empty-≡ : (s : List ℕ) → is_empty s ≡ true → s ≡ []
is_empty-≡ [] h = refl
is_empty-≡ (b ∷ s) h = absurd (cc)

small : (m n : ℕ) → leb m 680 ≡ true → 4 * n ≤ 3 * m → n ≤ 512
small m n h bound = omega (arith, leb→le m 680 h, bound)

module _ (w : Wire) (laws : IsWire w) where
  pub key_of-eq-some :
      (assurance : Assurance) (pk : List ℕ) (key : List ℕ × ℕ)
      → key_of w assurance pk ≡ some key
      → KeyOf w assurance pk key
  unfolding key_of
  key_of-eq-some (pow difficulty) pk key h =
      let (bytes, read, h₁) =
        >>=-eq-some (unb64url_fixed w 65 pk)
          (λ bytes. require (first_is_four bytes) >> some (bytes, 65)) h in
      let (four, h₂) = require-eq-some (first_is_four bytes) (some (bytes, 65)) h₁ in
      let (found, width) = unb64url_fixed-eq-some w laws 65 pk bytes read in
      let e₀ : bytes ≡ key.0 = cc in
      let e₁ : 65 ≡ key.1 = cc in (rw (← e₀) found, rw (← e₀) width, rw (← e₀) four, sym e₁)
  key_of-eq-some (no_js delay) pk key h =
      let (empty, h₁) = require-eq-some (is_empty pk) (some (replicate 65 0, 0)) h in
      (is_empty-≡ pk empty, cc)

  -- Both ways decode alike: a payload of at most 680 characters fits in the 512 bytes.
  pub decode_payload_lem : (s : List ℕ) → decode_payload w s ≡ w.unb64url s
  unfolding decode_payload
  decode_payload_lem s = elim (Bool-cases (leb (length s) 680)) [
    | inr long ↦ rw long refl
    | inl short ↦ rw short (elim (Option-cases (w.unb64url s)) [
      | inr (bytes, found) ↦ rw found (
          laws.fits s bytes 512 found
            (small (length s) (length bytes) short (laws.shrinks s bytes found)))
      | inl bad ↦ elim (Option-cases (w.unb64url_into s 512)) [
        | inl none_left ↦ rw (bad, none_left) refl
        | inr (bytes, found) ↦ absurd (cc (laws.into s bytes 512 found).0)
      ]
    ])
  ]
