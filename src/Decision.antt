-- ===== src/Decision.antt =====
-- The decision strings: src/pow-gate-core/src/decision.rs. A text is its bytes.
pub mod Grammar
mod Examples
use ngx_http_pow_gate.Common.{
  ℕ, zero, suc, ◌+◌, ◌^◌, max, Bool, true, false, ◌||◌, ltb, leb, ◌==◌, if◌then◌else◌, Option, none,
  some, List, [], ◌∷◌, ◌++◌,
}
use ngx_http_pow_gate.Common.Int.{ℤ, pos, ltb_ℤ}
use ngx_http_pow_gate.Common.Bytes.{codes, eq_bytes}
use ngx_http_pow_gate.Common.Parse.{split_once, strip_prefix, parse_u64, parse_i64}

pub data Decision : Type 0 where
  challenge : Option ℕ → Decision
  challenge_no_js : ℤ → Decision
  allow : Decision
  deny : Decision
  verify : List ℕ → Decision

abbrev pub nojs_default_delay : ℤ
nojs_default_delay = pos 2

abbrev pub nojs_min_delay : ℤ
nojs_min_delay = pos 1

abbrev pub nojs_max_delay : ℤ
nojs_max_delay = pos 30

-- `Ord::clamp`
abbrev pub clamp : ℤ → ℤ → ℤ → ℤ
clamp x low high = if ltb_ℤ x low then low else if ltb_ℤ high x then high else x

abbrev pub delay_or_default : Option ℤ → ℤ
delay_or_default none = nojs_default_delay
delay_or_default (some delay) = delay

-- The number of `challenge:<N>`, if it is one.
abbrev pub numbered : Option ℕ → Decision
numbered none = challenge none
numbered (some n) = challenge (some (max n 1))

-- The last arm of the match on the argument of `challenge:`.
unfoldable pub parse_other : List ℕ → Option (List ℕ) → Decision
parse_other arg (some secs) =
    challenge_no_js (clamp (delay_or_default (parse_i64 secs)) nojs_min_delay nojs_max_delay)
parse_other arg none = numbered (parse_u64 arg)

-- The match on the argument of `challenge:`.
unfoldable pub parse_argument : List ℕ → Decision
unfolding parse_other
parse_argument arg =
    if eq_bytes arg (codes "js")
    then challenge (some 1)
    else if eq_bytes arg (codes "nojs")
    then challenge_no_js nojs_default_delay
    else parse_other arg (strip_prefix (codes "nojs:") arg)

abbrev pub is_empty : List ℕ → Bool
is_empty [] = true
is_empty (c ∷ s) = false

-- The match on the two sides of the first colon.
unfoldable pub parse_pair : Option (List ℕ × List ℕ) → Decision
parse_pair none = challenge none
parse_pair (some (head, arg)) =
    if eq_bytes head (codes "verify")
    then (if is_empty arg then challenge none else verify arg)
    else if eq_bytes head (codes "challenge")
    then parse_argument arg
    else challenge none

-- `Decision::parse`
unfoldable pub parse : List ℕ → Decision
parse s =
    if eq_bytes s (codes "allow")
    then allow
    else if eq_bytes s (codes "deny")
    then deny
    else if is_empty s || eq_bytes s (codes "challenge")
    then challenge none
    else parse_pair (split_once b':' s)
