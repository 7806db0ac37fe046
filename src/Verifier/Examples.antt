-- ===== src/Verifier/Examples.antt =====
-- Runs of the theorems on a verifier of one feed and one suffix.
use ngx_http_pow_gate.Common.{
  ℕ, ◌-◌, ◌<◌, ◌≡◌, ◌⊎◌, refl, true, false, Option, none, some, List, [], ◌∷◌, ap,
}
use ngx_http_pow_gate.Common.Assoc.{lookup, insert, update}
use ngx_http_pow_gate.Common.Bytes.{codes, eq_bytes}
use ngx_http_pow_gate.Common.Parse.{parse_unsigned, unsigned, digits_value}
use ngx_http_pow_gate.Binding.{undotted}
use ngx_http_pow_gate.Context.{IpAddr, v4}
use ngx_http_pow_gate.HostNames.{
  undotted_end, clean_host, clean_suffix, ends_with, host_matches_suffix, any_suffix, among,
  fcrdns_confirms, fcrdns_confirm,
}
use ngx_http_pow_gate.RangeSet.{trim, trim_start, reverse}
use ngx_http_pow_gate.VerdictCache.{new, begin, complete, is_fresh, sweep, admit, resolve}
use ngx_http_pow_gate.Verifier.{
  Verifier, any_feed, asked, fcrdns_cached, resolved, is_empty, by_name, verifier_result,
  verified_dns, verifier_unconfirmed,
}
use ngx_http_pow_gate.Verifier.Block.{
  parse_time, new_builder, arg, time_arg, directive, verifier_inner, parse_lines, no_feeds, built,
  register, verifier_block,
}
use ngx_http_pow_gate.Verifier.Confirmed.{
  Event, looks_up, ends, happen, verdicts_after, DnsSaid, AnyHolds, verifier_result-true,
}

abbrev lines : List (List (List ℕ))
lines =
    (codes "ip_ranges_url" ∷ codes "http://feed/" ∷ [])
    ∷ (codes "ip_ranges_refresh" ∷ codes "30m" ∷ [])
    ∷ (codes "fcrdns_suffix" ∷ codes "bot.org" ∷ [])
    ∷ []

abbrev args : List (List ℕ)
args = codes "pow_gate_verifier" ∷ codes "bot" ∷ []

abbrev sample : Verifier
sample = record {
  ranges = none ∷ [];
  max_stale = 172800000000000;
  urls = codes "http://feed/" ∷ [];
  refresh = 1800000000000;
  fcrdns_suffixes = codes "bot.org" ∷ [];
  verdicts = new 2048 3600000000000 5;
}

-- A feed would be too old before it is fetched again.
too_rare : verifier_block args ((codes "ip_ranges_refresh" ∷ codes "3d" ∷ []) ∷ []) 5 ≡ none
unfolding verifier_block parse_lines verifier_inner directive time_arg arg register built no_feeds
    new_builder parse_time eq_bytes trim trim_start reverse parse_unsigned unsigned digits_value
too_rare = refl

-- The DNS is a parameter; in these runs it knows one host.
abbrev some_name : IpAddr → Option (List ℕ)
some_name ip = some (codes "a.bot.org")

abbrev some_address : List ℕ → List IpAddr
some_address host = v4 7 ∷ []

-- The client 7 is looked up, and then a resolver confirms it.
abbrev events : List Event
events = ends some_name some_address (v4 7) 1 20 ∷ looks_up (v4 7) 10 true ∷ []

abbrev reached : Verifier
reached = record sample {
  verdicts = verdicts_after (codes "bot.org" ∷ []) (new 2048 3600000000000 5) events;
}

first_no :
    (verifier_result sample sample.ranges (v4 7) 10 10 true).0 ≡ (false, verifier_unconfirmed)
unfolding verifier_result by_name fcrdns_cached asked any_feed begin admit sweep new lookup
first_no = refl

then_confirmed : (verifier_result reached reached.ranges (v4 7) 30 30 true).0 ≡ (true, verified_dns)
unfolding verifier_result by_name fcrdns_cached asked any_feed begin complete admit sweep new lookup
    insert update resolve is_fresh resolved happen verdicts_after fcrdns_confirm fcrdns_confirms
    any_suffix host_matches_suffix clean_host clean_suffix ends_with undotted_end undotted among
    trim trim_start reverse eq_bytes
then_confirmed = refl

verifier_result-true_example :
    AnyHolds (v4 7) 30 reached.max_stale reached.ranges
    ⊎ ((is_empty reached.fcrdns_suffixes ≡ false)
        × (at : ℕ) × DnsSaid reached.fcrdns_suffixes (v4 7) at events
        × (30 - at < 3600000000000))
verifier_result-true_example =
    verifier_result-true reached reached.ranges (v4 7) 30 30 true 2048 3600000000000 5 events refl
      (ap (λ r. r.0) then_confirmed)
