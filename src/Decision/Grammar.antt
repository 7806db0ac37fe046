-- ===== src/Decision/Grammar.antt =====
-- The grammar of the decisions: which texts open the gate, the bounds of what is parsed, and the
-- forms that carry a number or a name.
use ngx_http_pow_gate.Common.{
  ℕ, ◌^◌, ◌≤◌, ◌<◌, ◌≡◌, ◌≢◌, ◌↔◌, max, refl, ap, arith, true, ◌||◌, ◌==◌, if◌then◌else◌, Option,
  none, some, List, [], ◌∷◌, ◌++◌, Bool-cases, Option-cases, inl, inr, ◌⊎◌, sym, ◌∙◌, min,
}
use mathlib.Core.Bool.{false≢true}
use ngx_http_pow_gate.Common.Int.{ℤ, pos, ◌≤ℤ◌}
use ngx_http_pow_gate.Common.Bytes.{codes, eq_bytes, eq_bytes_refl, eq_bytes→≡}
use ngx_http_pow_gate.Common.Parse.{
  split_once, strip_prefix, is_digit, parse_u64, parse_i64, parse_unsigned, unsigned, below,
  split_once-some,
}
use ngx_http_pow_gate.Common.Decimal.{
  decimal, parse_unsigned-decimal, decimal-shape, parse_i64-decimal,
}
use ngx_http_pow_gate.Decision.{
  Decision, challenge, challenge_no_js, allow, deny, verify, clamp, delay_or_default, numbered,
  parse_other, parse_argument, parse_pair, parse, is_empty,
}

-- A decision that neither opens the gate nor closes it, with its numbers in range.
abbrev pub IsGuarded : Decision → Type 0
IsGuarded (challenge none) = Unit
IsGuarded (challenge (some n)) = (1 ≤ n) × (n < 2 ^ 64)
IsGuarded (challenge_no_js delay) = (pos 1 ≤ℤ delay) × (delay ≤ℤ pos 30)
IsGuarded allow = ⊥
IsGuarded deny = ⊥
IsGuarded (verify name) = name ≢ []

clamp_bounds : (x : ℤ) → (pos 1 ≤ℤ clamp x (pos 1) (pos 30)) × (clamp x (pos 1) (pos 30) ≤ℤ pos 30)
clamp_bounds x = ground arith

below-lt : (bound n : ℕ) (value : Option ℕ) → below bound value ≡ some n → n < bound
below-lt bound n none h = absurd (cc)
below-lt bound n (some v) h = ground arith

parse_u64-lt : (s : List ℕ) (n : ℕ) → parse_u64 s ≡ some n → n < 2 ^ 64
unfolding parse_unsigned
parse_u64-lt (c ∷ s) n h = below-lt (2 ^ 64) n (unsigned (if c == b'+' then s else c ∷ s)) h
parse_u64-lt [] n h = absurd (cc)

parse_other-IsGuarded : (arg : List ℕ) (secs : Option (List ℕ)) → IsGuarded (parse_other arg secs)
unfolding parse_other
parse_other-IsGuarded arg (some secs) = clamp_bounds (delay_or_default (parse_i64 secs))
parse_other-IsGuarded arg none = elim (Option-cases (parse_u64 arg)) [
  | inl junk ↦ rw junk tt
  | inr (n, number) ↦ let lt = parse_u64-lt arg n number in rw number (omega arith)
]

parse_argument-IsGuarded : (arg : List ℕ) → IsGuarded (parse_argument arg)
unfolding parse_argument
parse_argument-IsGuarded arg = elim (Bool-cases (eq_bytes arg (codes "js"))) [
  | inl js ↦ rw js (omega arith)
  | inr other ↦ elim (Bool-cases (eq_bytes arg (codes "nojs"))) [
    | inl nojs ↦ rw (other, nojs) (omega arith)
    | inr rest ↦ rw (other, rest) (parse_other-IsGuarded arg (strip_prefix (codes "nojs:") arg))
  ]
]

parse_pair-IsGuarded : (pair : Option (List ℕ × List ℕ)) → IsGuarded (parse_pair pair)
unfolding parse_pair
parse_pair-IsGuarded none = tt
parse_pair-IsGuarded (some (head, arg)) = elim (Bool-cases (eq_bytes head (codes "verify"))) [
  | inl bot ↦ rw bot (named arg)
  | inr other ↦ elim (Bool-cases (eq_bytes head (codes "challenge"))) [
    | inl gate ↦ rw (other, gate) (parse_argument-IsGuarded arg)
    | inr rest ↦ rw (other, rest) tt
  ]
]
  where
    named : (arg : List ℕ) → IsGuarded (if is_empty arg then challenge none else verify arg)
    named [] = tt
    named (c ∷ s) = λ e. cc

-- A text that is neither `allow` nor `deny` never opens the gate, and never closes it: it is a
-- challenge or a verifier, with a difficulty of at least one that fits in 64 bits, a delay from
-- 1 to 30 seconds, or a name that is not empty.
pub parse-IsGuarded : (s : List ℕ) → s ≢ codes "allow" → s ≢ codes "deny" → IsGuarded (parse s)
unfolding parse
parse-IsGuarded s a d = elim (Bool-cases (eq_bytes s (codes "allow"))) [
  | inl e ↦ absurd (a (eq_bytes→≡ s (codes "allow") e))
  | inr not_allow ↦ elim (Bool-cases (eq_bytes s (codes "deny"))) [
    | inl e ↦ absurd (d (eq_bytes→≡ s (codes "deny") e))
    | inr not_deny ↦ elim (Bool-cases (is_empty s || eq_bytes s (codes "challenge"))) [
      | inl plain ↦ rw (not_allow, not_deny, plain) tt
      | inr rest ↦ rw (not_allow, not_deny, rest) (parse_pair-IsGuarded (split_once b':' s))
    ]
  ]
]

parse-allow_lem : parse (codes "allow") ≡ allow
unfolding parse eq_bytes
parse-allow_lem = refl

parse-deny_lem : parse (codes "deny") ≡ deny
unfolding parse eq_bytes
parse-deny_lem = refl

same_text : (s t : List ℕ) → (s ≡ t) ⊎ (s ≢ t)
same_text s t = elim (Bool-cases (eq_bytes s t)) [
  | inl e ↦ inl (eq_bytes→≡ s t e)
  | inr n ↦ inr (λ e. false≢true (sym n ∙ rw e (eq_bytes_refl t)))
]

-- Exactly the text `allow` opens the gate, and exactly the text `deny` closes it.
pub parse-allow_iff :
    (s : List ℕ)
    → ((parse s ≡ allow) ↔ (s ≡ codes "allow")) × ((parse s ≡ deny) ↔ (s ≡ codes "deny"))
parse-allow_iff s = elim (same_text s (codes "allow")) [
  | inl a ↦ rw a (
    ((λ h. refl), (λ h. parse-allow_lem)),
    ((λ h. absurd (cc (parse-allow_lem))), (λ h. absurd (cc (h)))),
  )
  | inr a ↦ elim (same_text s (codes "deny")) [
    | inl d ↦ rw d (
      ((λ h. absurd (cc (parse-deny_lem))), (λ h. absurd (cc (h)))),
      ((λ h. refl), (λ h. parse-deny_lem)),
    )
    | inr d ↦
        let guarded = parse-IsGuarded s a d in
        (
          ((λ h. absurd (rw h at guarded)), (λ h. absurd (a h))),
          ((λ h. absurd (rw h at guarded)), (λ h. absurd (d h))),
        )
  ]
]

parse_argument-digit :
    (c : ℕ) (s : List ℕ) → is_digit c ≡ true → parse_argument (c ∷ s) ≡ numbered (parse_u64 (c ∷ s))
unfolding parse_argument parse_other eq_bytes strip_prefix
parse_argument-digit c s h = ground arith

-- `challenge:<N>` asks for the difficulty N, or for 1 if N is 0.
pub parse-number :
    (n : ℕ) → n < 2 ^ 64 → parse (codes "challenge:" ++ decimal n) ≡ challenge (some (max n 1))
unfolding parse parse_pair eq_bytes split_once
parse-number n h =
    let (c, s, e, digit) = decimal-shape n h in
    let value = parse_unsigned-decimal n h in
    rw e (parse_argument-digit c s digit ∙ ap numbered (rw e at value))

clamp_pos : (n : ℕ) → clamp (pos n) (pos 1) (pos 30) ≡ pos (min (max n 1) 30)
clamp_pos n = ground arith

-- `challenge:nojs:<secs>` asks for the delay, kept within 1 and 30 seconds.
pub parse-delay :
    (n : ℕ)
    → n < 2 ^ 63
    → parse (codes "challenge:nojs:" ++ decimal n) ≡ challenge_no_js (pos (min (max n 1) 30))
unfolding parse parse_pair parse_argument eq_bytes strip_prefix split_once
parse-delay n h = rw (parse_i64-decimal n h) (ap challenge_no_js (clamp_pos n))

parse_argument-ne-verify : (arg name : List ℕ) → parse_argument arg ≢ verify name
unfolding parse_argument parse_other
parse_argument-ne-verify arg name h = ground arith

parse_pair-verify :
    (pair : Option (List ℕ × List ℕ)) (name : List ℕ)
    → parse_pair pair ≡ verify name
    → (pair ≡ some (codes "verify", name)) × (name ≢ [])
unfolding parse_pair
parse_pair-verify none name h = absurd (cc)
parse_pair-verify (some (head, arg)) name h = elim (Bool-cases (eq_bytes head (codes "verify"))) [
  | inl bot ↦
      let (same, filled) = named arg (rw bot at h) in
      (rw (eq_bytes→≡ head (codes "verify") bot, same), filled)
  | inr other ↦ elim (Bool-cases (eq_bytes head (codes "challenge"))) [
    | inl gate ↦ absurd (parse_argument-ne-verify arg name (rw (other, gate) at h))
    | inr rest ↦ absurd (cc (rw (other, rest) at h))
  ]
]
  where
    named :
        (arg : List ℕ)
        → (if is_empty arg then challenge none else verify arg) ≡ verify name
        → (arg ≡ name) × (name ≢ [])
    named [] e = absurd (cc)
    named (c ∷ s) e = let same : c ∷ s ≡ name = cc in (same, λ n. cc)

parse-pair :
    (s name : List ℕ) → parse s ≡ verify name → parse_pair (split_once b':' s) ≡ verify name
unfolding parse
parse-pair s name h = ground arith

-- Exactly the texts `verify:<name>` with a name that is not empty name a verifier.
pub parse-verify_iff :
    (s name : List ℕ) → (parse s ≡ verify name) ↔ ((s ≡ codes "verify:" ++ name) × (name ≢ []))
unfolding parse parse_pair eq_bytes split_once
parse-verify_iff s name = (
  (λ h.
      let (pair, filled) = parse_pair-verify (split_once b':' s) name (parse-pair s name h) in
      (split_once-some b':' s (codes "verify") name pair, filled)),
  (λ (e, filled). rw e (named name filled)),
)
  where
    named :
        (arg : List ℕ)
        → arg ≢ []
        → (if is_empty arg then challenge none else verify arg) ≡ verify arg
    named [] n = absurd (n refl)
    named (c ∷ t) n = refl
