-- ===== src/HostNames.antt =====
-- The names of verified bots: `host_matches_suffix` and `fcrdns_confirms` of
-- src/pow-gate-core/src/ranges.rs. Text is ASCII.
use ngx_http_pow_gate.Common.{
  ℕ, zero, suc, ◌+◌, ◌-◌, ◌≡◌, Bool, true, false, not, ◌&&◌, ◌||◌, leb, ◌==◌, if◌then◌else◌, Option,
  none, some, List, [], ◌∷◌, ◌++◌, map, length, drop,
}
use ngx_http_pow_gate.Common.Bytes.{codes, eq_bytes}
use ngx_http_pow_gate.Binding.{undotted, lowercase}
use ngx_http_pow_gate.Context.{IpAddr, v4, v6}
use ngx_http_pow_gate.RangeSet.{trim, reverse}
pub mod Boundary
mod Examples

-- `trim_end_matches('.')`
unfoldable pub undotted_end : List ℕ → List ℕ
undotted_end s = reverse (undotted (reverse s))

-- The host and the suffix as they are compared
unfoldable pub clean_host : List ℕ → List ℕ
clean_host host = lowercase (undotted_end (trim host))

unfoldable pub clean_suffix : List ℕ → List ℕ
clean_suffix suffix = lowercase (undotted_end (undotted (trim suffix)))

-- `ends_with`, the text first
unfoldable pub ends_with : List ℕ → List ℕ → Bool
ends_with s end = leb (length end) (length s) && eq_bytes (drop (length s - length end) s) end

abbrev pub is_empty : List ℕ → Bool
is_empty [] = true
is_empty (c ∷ s) = false

abbrev pub cleaned_match : (host suffix : List ℕ) → Bool
cleaned_match host suffix =
    if is_empty host || is_empty suffix
    then false
    else eq_bytes host suffix || ends_with host (b'.' ∷ suffix)

-- `host_matches_suffix`
unfoldable pub host_matches_suffix : (host suffix : List ℕ) → Bool
host_matches_suffix host suffix = cleaned_match (clean_host host) (clean_suffix suffix)

unfoldable pub any_suffix : List ℕ → List (List ℕ) → Bool
any_suffix host [] = false
any_suffix host (suffix ∷ suffixes) = host_matches_suffix host suffix || any_suffix host suffixes

-- `==` of addresses, and `contains`
abbrev pub same_address : IpAddr → IpAddr → Bool
same_address (v4 a) (v4 b) = a == b
same_address (v4 a) (v6 b) = false
same_address (v6 a) (v4 b) = false
same_address (v6 a) (v6 b) = a == b

unfoldable pub among : IpAddr → List IpAddr → Bool
among ip [] = false
among ip (first ∷ ips) = same_address first ip || among ip ips

-- `fcrdns_confirms`
unfoldable pub fcrdns_confirms : List ℕ → List (List ℕ) → IpAddr → (List ℕ → List IpAddr) → Bool
fcrdns_confirms host suffixes ip forward = any_suffix host suffixes && among ip (forward host)

abbrev pub confirmed_host : List (List ℕ) → IpAddr → (List ℕ → List IpAddr) → Option (List ℕ) → Bool
confirmed_host suffixes ip forward none = false
confirmed_host suffixes ip forward (some host) = fcrdns_confirms host suffixes ip forward

-- `fcrdns_confirm` of src/ngx-http-pow-gate/src/verifier.rs, with the two resolvers
unfoldable pub fcrdns_confirm :
    (reverse_dns : IpAddr → Option (List ℕ)) (forward_dns : List ℕ → List IpAddr)
    → IpAddr
    → List (List ℕ)
    → Bool
fcrdns_confirm reverse_dns forward_dns ip suffixes =
    confirmed_host suffixes ip forward_dns (reverse_dns ip)
