-- ===== src/HostNames/Examples.antt =====
-- A run of the theorem on a bot and on a look-alike.
use ngx_http_pow_gate.Common.{ℕ, ◌≡◌, ◌↔◌, refl, true, false, Option, some, List, [], ◌∷◌}
use ngx_http_pow_gate.Common.Bytes.{codes, eq_bytes}
use ngx_http_pow_gate.Binding.{undotted}
use ngx_http_pow_gate.Context.{IpAddr, v4, v6}
use ngx_http_pow_gate.RangeSet.{trim, trim_start, reverse}
use ngx_http_pow_gate.HostNames.{
  host_matches_suffix, clean_host, clean_suffix, undotted_end, ends_with, fcrdns_confirm,
}
use ngx_http_pow_gate.HostNames.Boundary.{fcrdns_confirm_iff, AnySuffix, Among}

under_matches : host_matches_suffix (codes "bot.Google.com.") (codes ".google.com.") ≡ true
unfolding host_matches_suffix clean_host clean_suffix undotted_end undotted trim trim_start reverse
    ends_with eq_bytes
under_matches = refl

look_alike_fails : host_matches_suffix (codes "evilgoogle.com") (codes "google.com") ≡ false
unfolding host_matches_suffix clean_host clean_suffix undotted_end undotted trim trim_start reverse
    ends_with eq_bytes
look_alike_fails = refl

abbrev named : IpAddr → Option (List ℕ)
named ip = some (codes "a.b")

abbrev resolved : List ℕ → List IpAddr
resolved host = v6 1 ∷ v4 7 ∷ []

fcrdns_confirm_iff_example : (fcrdns_confirm named resolved (v4 7) (codes "b" ∷ []) ≡ true) ↔ (
    (host : List ℕ) × (named (v4 7) ≡ some host)
    × AnySuffix host (codes "b" ∷ [])
    × Among (v4 7) (resolved host))
fcrdns_confirm_iff_example = fcrdns_confirm_iff named resolved (v4 7) (codes "b" ∷ [])
