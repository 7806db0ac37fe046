-- ===== src/Verifier/Block.antt =====
-- The block of a verifier in the configuration: the parser of
-- src/ngx-http-pow-gate/src/verifier.rs. A line is the list of its words, in UTF-8; a duration is
-- its seconds, and text is trimmed as ASCII.
use ngx_http_pow_gate.Common.{
  ℕ, zero, suc, ◌*◌, ◌^◌, ◌||◌, ltb, ◌==◌, if◌then◌else◌, Option, none, some, List, [], ◌∷◌, ◌++◌,
  map, length, drop, ◌>>=◌,
}
use ngx_http_pow_gate.Common.Bytes.{codes, eq_bytes}
use ngx_http_pow_gate.Common.Parse.{parse_u64}
use ngx_http_pow_gate.Feeds.{FeedSnapshot}
use ngx_http_pow_gate.RangeSet.{trim, reverse}
use ngx_http_pow_gate.VerdictCache.{new}
use ngx_http_pow_gate.Verifier.{Verifier}

-- The unit that the last byte names, with what stands before it; the text is reversed.
abbrev pub split_unit : (backwards text : List ℕ) → List ℕ × ℕ
split_unit [] text = (text, 1)
split_unit (c ∷ before) text =
    if c == b's'
    then (reverse before, 1)
    else (if c == b'm'
        then (reverse before, 60)
        else (if c == b'h'
            then (reverse before, 3600)
            else (if c == b'd' then (reverse before, 86400) else (text, 1))))

-- `checked_mul`
abbrev pub checked_mul : ℕ → ℕ → Option ℕ
checked_mul m n = if ltb (m * n) (2 ^ 64) then some (m * n) else none

abbrev pub one_year : ℕ
one_year = 31536000

-- The seconds that are taken.
abbrev pub in_range : ℕ → Option ℕ
in_range seconds = if seconds == 0 || ltb one_year seconds then none else some seconds

-- `parse_time`
unfoldable pub parse_time : List ℕ → Option ℕ
parse_time s =
    let text = trim s in
    let parts = split_unit (reverse text) text in
    parse_u64 (trim parts.0) >>= λ n. checked_mul n parts.1 >>= λ seconds. in_range seconds

-- `Builder`
pub record Builder : Type 0 where
  pub name : List ℕ
  pub urls : List (List ℕ)
  pub refresh : ℕ
  pub suffixes : List (List ℕ)
  pub fcrdns_ttl : ℕ
  pub max_stale : ℕ

unfoldable pub new_builder : List ℕ → Builder
new_builder name = record {
  name = name;
  urls = [];
  refresh = 43200;
  suffixes = [];
  fcrdns_ttl = 3600;
  max_stale = 172800;
}

-- `arg`
unfoldable pub arg : List (List ℕ) → ℕ → Option (List ℕ)
arg [] i = none
arg (a ∷ args) zero = some a
arg (a ∷ args) (suc i) = arg args i

abbrev pub with_url : Builder → Option (List ℕ) → Builder
with_url b none = b
with_url b (some u) = record b { urls = b.urls ++ u ∷ [] }

-- The time that a directive gives, if it is one.
unfoldable pub time_arg : List (List ℕ) → Option ℕ
time_arg args = arg args 1 >>= parse_time

unfoldable pub directive : Builder → List (List ℕ) → List ℕ → Option Builder
directive b args d =
    if eq_bytes d (codes "ip_ranges_url")
    then some (with_url b (arg args 1))
    else (if eq_bytes d (codes "ip_ranges_max_stale")
        then (time_arg args >>= λ t. some (record b { max_stale = t }))
        else (if eq_bytes d (codes "ip_ranges_refresh")
            then (time_arg args >>= λ t. some (record b { refresh = t }))
            else (if eq_bytes d (codes "fcrdns_suffix")
                then some (record b { suffixes = b.suffixes ++ drop 1 args })
                else (if eq_bytes d (codes "fcrdns_ttl")
                    then (time_arg args >>= λ t. some (record b { fcrdns_ttl = t }))
                    else none))))

abbrev pub with_directive : Builder → List (List ℕ) → Option (List ℕ) → Option Builder
with_directive b args none = some b
with_directive b args (some d) = directive b args d

-- `verifier_inner`: `none` is the error of the configuration.
unfoldable pub verifier_inner : Builder → List (List ℕ) → Option Builder
verifier_inner b args = with_directive b args (arg args 0)

-- `ngx_conf_parse` calls it for each line, up to the first error.
unfoldable pub parse_lines : Builder → List (List (List ℕ)) → Option Builder
parse_lines b [] = some b
parse_lines b (args ∷ lines) = verifier_inner b args >>= λ c. parse_lines c lines

-- `vec![None; n]`
unfoldable pub no_feeds : List (List ℕ) → List (Option FeedSnapshot)
no_feeds urls = map (λ u. none) urls

-- The verifier of a block, with the clock as its cache reads it, in nanoseconds
unfoldable pub built : Builder → ℕ → Verifier
built b now = record {
  ranges = no_feeds b.urls;
  max_stale = b.max_stale * 1000000000;
  urls = b.urls;
  refresh = b.refresh * 1000000000;
  fcrdns_suffixes = b.suffixes;
  verdicts = new 2048 (b.fcrdns_ttl * 1000000000) now;
}

-- `register`: the entry of the map, or an error of the configuration
unfoldable pub register : Builder → ℕ → Option (List ℕ × Verifier)
register b now =
    if ltb 32 (length b.urls) || ltb b.max_stale b.refresh then none else some (b.name, built b now)

-- `pow_gate_verifier_block`, its own line first
unfoldable pub verifier_block :
    List (List ℕ) → List (List (List ℕ)) → ℕ → Option (List ℕ × Verifier)
verifier_block args lines now =
    arg args 1 >>= λ name. parse_lines (new_builder name) lines >>= λ b. register b now
