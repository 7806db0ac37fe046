-- ===== src/Nojs/Verdicts.antt =====
-- What the three verdicts on a grant stand for.
use ngx_http_pow_gate.Common.{
  ℕ, ◌≤◌, ◌≡◌, ◌↔◌, refl, sym, ◌∙◌, ap, arith, Bool, true, false, ltb, Option, none, some, List,
  length, Bool-cases, inl, inr,
}
use ngx_http_pow_gate.Common.Int.{ℤ, ◌≤ℤ◌, ◌<ℤ◌, add_i64}
use ngx_http_pow_gate.Common.Parse.{split_once}
use ngx_http_pow_gate.Mac.{ct_eq, hmac}
use ngx_http_pow_gate.Mac.Framing.{ct_eq_iff}
use ngx_http_pow_gate.Wire.{Wire}
use ngx_http_pow_gate.Nojs.{
  Grant, Verdict, ok, too_early, bad, is_current, timed, judged, checked, opened, parsed, verify,
  mac_input,
}
use ngx_http_pow_gate.Nojs.Timing.{
  Current, is_current-Current, Current-is_current, timed-ok, timed-early, timed-waited, timed-waits,
}

-- The token carries the grant under the key.
abbrev pub Carries : Wire → (List ℕ → Option Grant) → (key token : List ℕ) → Grant → Type 0
Carries w read_json key token grant =
    (payload_b64 tag_b64 raw : List ℕ) × (length token ≤ 8192)
    × (split_once b'.' token ≡ some (payload_b64, tag_b64))
    × (w.unb64url tag_b64 ≡ some (hmac w.hmac_sha256 key (mac_input payload_b64)))
    × (w.unb64url payload_b64 ≡ some raw)
    × (read_json raw ≡ some grant)

ltb-false : (n : ℕ) → ltb 8192 n ≡ false → n ≤ 8192
ltb-false n h = ground arith

le→ltb-false : (n : ℕ) → n ≤ 8192 → ltb 8192 n ≡ false
le→ltb-false n h = ground arith

abbrev is_bad : Verdict → Bool
is_bad (ok grant) = false
is_bad (too_early grant) = false
is_bad bad = true

judged-parts :
    (now : ℤ) (context : List ℕ) (o : Option Grant) (v : Verdict)
    → is_bad v ≡ false
    → judged now context o ≡ v
    → (grant : Grant) × (o ≡ some grant)
      × (is_current now context grant ≡ true)
      × (timed now grant ≡ v)
unfolding judged
judged-parts now context none v n h = absurd (cc (ap is_bad h))
judged-parts now context (some g) v n h = elim (Bool-cases (is_current now context g)) [
  | inl current ↦ (g, refl, current, rw current at h)
  | inr other ↦ absurd (cc (ap is_bad (rw other at h)))
]

module _ (w : Wire) (read_json : List ℕ → Option Grant) where
  parsed-eq-some :
      (o : Option (List ℕ)) (g : Grant)
      → parsed w read_json o ≡ some g
      → (raw : List ℕ) × (o ≡ some raw) × (read_json raw ≡ some g)
  parsed-eq-some none g h = absurd (cc)
  parsed-eq-some (some raw) g h = (raw, refl, h)

  checked-parts :
      (key payload_b64 : List ℕ) (now : ℤ) (context : List ℕ) (o : Option (List ℕ)) (v : Verdict)
      → is_bad v ≡ false
      → checked w read_json key payload_b64 now context o ≡ v
      → (o ≡ some (hmac w.hmac_sha256 key (mac_input payload_b64)))
        × (judged now context (parsed w read_json (w.unb64url payload_b64)) ≡ v)
  unfolding checked
  checked-parts key payload_b64 now context none v n h = absurd (cc (ap is_bad h))
  checked-parts key payload_b64 now context (some provided) v n h =
      let tag = hmac w.hmac_sha256 key (mac_input payload_b64) in
      elim (Bool-cases (ct_eq tag provided)) [
        | inl same ↦ (ap some (sym ((ct_eq_iff tag provided).0 same)), rw same at h)
        | inr other ↦ absurd (cc (ap is_bad (rw other at h)))
      ]

  opened-parts :
      (key : List ℕ) (now : ℤ) (context : List ℕ) (o : Option (List ℕ × List ℕ)) (v : Verdict)
      → is_bad v ≡ false
      → opened w read_json key now context o ≡ v
      → (payload_b64 tag_b64 : List ℕ) × (o ≡ some (payload_b64, tag_b64))
        × (checked w read_json key payload_b64 now context (w.unb64url tag_b64) ≡ v)
  unfolding opened
  opened-parts key now context none v n h = absurd (cc (ap is_bad h))
  opened-parts key now context (some (payload_b64, tag_b64)) v n h = (payload_b64, tag_b64, refl, h)

  verify-parts :
      (key token : List ℕ) (now : ℤ) (context : List ℕ) (v : Verdict)
      → is_bad v ≡ false
      → verify w read_json key token now context ≡ v
      → (grant : Grant) × Carries w read_json key token grant
        × Current now context grant
        × (timed now grant ≡ v)
  unfolding verify
  verify-parts key token now context v n h = elim (Bool-cases (ltb 8192 (length token))) [
    | inl long ↦ absurd (cc (ap is_bad (rw long at h)))
    | inr short ↦
        let (payload_b64, tag_b64, cut, h₁) =
          opened-parts key now context (split_once b'.' token) v n (rw short at h) in
        let (tag, h₂) = checked-parts key payload_b64 now context (w.unb64url tag_b64) v n h₁ in
        let (grant, read, current, h₃) =
          judged-parts now context (parsed w read_json (w.unb64url payload_b64)) v n h₂ in
        let (raw, decoded, found) = parsed-eq-some (w.unb64url payload_b64) grant read in
        (
          grant,
          (payload_b64, tag_b64, raw, ltb-false (length token) short, cut, tag, decoded, found),
          is_current-Current now context grant current,
          h₃,
        )
  ]

  verify-Carries :
      (key token : List ℕ) (now : ℤ) (context : List ℕ) (grant : Grant)
      → Carries w read_json key token grant
      → Current now context grant
      → verify w read_json key token now context ≡ timed now grant
  unfolding verify opened checked judged
  verify-Carries key token now context grant
        (payload_b64, tag_b64, raw, short, cut, tag, decoded, found) current =
      let expected = hmac w.hmac_sha256 key (mac_input payload_b64) in
      rw
        (
          le→ltb-false (length token) short,
          cut,
          tag,
          (ct_eq_iff expected expected).1 refl,
          decoded,
          found,
          Current-is_current now context grant current,
        )
        refl

  pub verify-ok_iff :
      (key token : List ℕ) (now : ℤ) (context : List ℕ) (grant : Grant)
      → (verify w read_json key token now context ≡ ok grant) ↔ (
          Carries w read_json key token grant
          × Current now context grant
          × (add_i64 grant.iat grant.delay ≤ℤ now))
  verify-ok_iff key token now context grant = (
    (λ h.
        let (g, carried, current, time) = verify-parts key token now context (ok grant) refl h in
        let (same, waited) = timed-ok now g grant time in rw (← same) (carried, current, waited)),
    (λ (carried, current, waited).
        verify-Carries key token now context grant carried current ∙ timed-waited now grant waited),
  )

  -- A grant comes too early just when all of that holds but its wait, which is not over.
  pub verify-too_early_iff :
      (key token : List ℕ) (now : ℤ) (context : List ℕ) (grant : Grant)
      → (verify w read_json key token now context ≡ too_early grant) ↔ (
          Carries w read_json key token grant
          × Current now context grant
          × (now <ℤ add_i64 grant.iat grant.delay))
  verify-too_early_iff key token now context grant = (
    (λ h.
        let (g, carried, current, time) =
          verify-parts key token now context (too_early grant) refl h in
        let (same, early) = timed-early now g grant time in rw (← same) (carried, current, early)),
    (λ (carried, current, early).
        verify-Carries key token now context grant carried current ∙ timed-waits now grant early),
  )
