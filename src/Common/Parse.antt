-- ===== src/Common/Parse.antt =====
-- `str::parse` of integers, `split_once` and `strip_prefix`, over bytes.
use ngx_http_pow_gate.Common.{
  ℕ, zero, suc, ◌+◌, ◌-◌, ◌*◌, ◌^◌, ◌≡◌, arith, Bool, false, ◌&&◌, ltb, leb, ◌==◌, if◌then◌else◌,
  Option, none, some, List, [], ◌∷◌, ◌++◌, ==_iff, Option-cases, All, Bool-cases, inl, inr,
}
use ngx_http_pow_gate.Common.Int.{ℤ, pos, negsuc}

abbrev pub longer : ℕ → Option (List ℕ × List ℕ) → Option (List ℕ × List ℕ)
longer c none = none
longer c (some (a, b)) = some (c ∷ a, b)

-- `split_once` at a byte: what stands before its first place, and after it.
unfoldable pub split_once : ℕ → List ℕ → Option (List ℕ × List ℕ)
split_once sep [] = none
split_once sep (c ∷ s) = if c == sep then some ([], s) else longer c (split_once sep s)

-- `strip_prefix`, the prefix first.
unfoldable pub strip_prefix : List ℕ → List ℕ → Option (List ℕ)
strip_prefix [] s = some s
strip_prefix (p ∷ ps) [] = none
strip_prefix (p ∷ ps) (c ∷ s) = if c == p then strip_prefix ps s else none

abbrev pub is_digit : ℕ → Bool
is_digit c = leb b'0' c && leb c b'9'

-- The value of decimal digits, above an accumulator; `none` for a byte that is no digit. An
-- overflow that the code meets on the way is one at the end, as the value only grows.
unfoldable pub digits_value : ℕ → List ℕ → Option ℕ
digits_value acc [] = some acc
digits_value acc (c ∷ s) =
    let rest = digits_value (acc * 10 + (c - b'0')) s in if is_digit c then rest else none

unfoldable pub unsigned : List ℕ → Option ℕ
unfolding digits_value
unsigned [] = none
unsigned (c ∷ s) = digits_value 0 (c ∷ s)

abbrev pub below : ℕ → Option ℕ → Option ℕ
below bound none = none
below bound (some n) = if ltb n bound then some n else none

-- `parse::<uN>`: an optional plus sign and digits, within the range.
unfoldable pub parse_unsigned : ℕ → List ℕ → Option ℕ
unfolding unsigned
parse_unsigned bound [] = none
parse_unsigned bound (c ∷ s) = below bound (unsigned (if c == b'+' then s else c ∷ s))

abbrev pub parse_u64 : List ℕ → Option ℕ
parse_u64 = parse_unsigned (2 ^ 64)

abbrev pub parse_u32 : List ℕ → Option ℕ
parse_u32 = parse_unsigned (2 ^ 32)

abbrev pub negated : ℕ → ℤ
negated zero = pos zero
negated (suc n) = negsuc n

abbrev pub as_pos : Option ℕ → Option ℤ
as_pos none = none
as_pos (some n) = some (pos n)

abbrev pub as_neg : Option ℕ → Option ℤ
as_neg none = none
as_neg (some n) = some (negated n)

-- `parse::<i64>`: an optional sign and digits, within the range.
unfoldable pub parse_i64 : List ℕ → Option ℤ
unfolding unsigned
parse_i64 [] = none
parse_i64 (c ∷ s) =
    if c == b'-'
    then as_neg (below (2 ^ 63 + 1) (unsigned s))
    else as_pos (below (2 ^ 63) (unsigned (if c == b'+' then s else c ∷ s)))

-- What `split_once` returns makes up the text again.
pub split_once-some : (sep : ℕ) (s a b : List ℕ) → split_once sep s ≡ some (a, b) → s ≡ a ++ sep ∷ b
unfolding split_once
split_once-some sep [] a b h = cc
split_once-some sep (c ∷ s) a b h = elim (Bool-cases (c == sep)) [
  | inl here ↦ first (rw here at h) ((==_iff c sep).0 here)
  | inr later ↦ elim (Option-cases (split_once sep s)) [
    | inl nothing ↦ absurd (cc (rw (later, nothing) at h))
    | inr ((a', b'), found) ↦
        next a' b' (rw (later, found) at h) (split_once-some sep s a' b' found)
  ]
]
  where
    Parts : Type 0
    Parts = List ℕ × List ℕ

    first : ◌≡◌ {A = Option Parts} (some ([], s)) (some (a, b)) → c ≡ sep → c ∷ s ≡ a ++ sep ∷ b
    first e same = ground arith

    next :
        (a' b' : List ℕ)
        → ◌≡◌ {A = Option Parts} (some (c ∷ a', b')) (some (a, b))
        → s ≡ a' ++ sep ∷ b'
        → c ∷ s ≡ a ++ sep ∷ b
    next a' b' e ih = ground arith

-- A text without the separator stands in front of it.
abbrev pub Lacks : ℕ → List ℕ → Type 0
Lacks sep = All (λ c. (c == sep) ≡ false)

pub split_once-append :
    (sep : ℕ) (a b : List ℕ) → Lacks sep a → split_once sep (a ++ sep ∷ b) ≡ some (a, b)
unfolding split_once
split_once-append sep [] b h = ground arith
split_once-append sep (c ∷ a) b h = rw (h.0, split_once-append sep a b h.1)
