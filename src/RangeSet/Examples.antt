-- ===== src/RangeSet/Examples.antt =====
-- Runs of the theorems on a set of ranges.
use ngx_http_pow_gate.Common.{
  ℕ, ◌≡◌, refl, Option, none, some, List, [], ◌∷◌, if◌then◌else◌, when-eq-some, some_injective,
  subst, arith,
}
use ngx_http_pow_gate.Common.Bytes.{codes, eq_bytes}
use ngx_http_pow_gate.Common.Parse.{split_once, parse_unsigned, unsigned, digits_value}
use ngx_http_pow_gate.Context.{IpAddr, v4}
use ngx_http_pow_gate.Ranges.{insert_interval, partition_point, stretched}
use ngx_http_pow_gate.RangeSet.{
  IpRangeSet, new, cidr_interval, add_cidr, push_cidr, cidr_parts, trim, trim_start, reverse,
  push_interval, sorted_in, settle_last, pop, with_v4,
}
use ngx_http_pow_gate.RangeSet.Cidr.{IsAdded, Fits, add_cidr-Adds}

-- One address that can be read, 1.0.2.7.
abbrev parse_sample : List ℕ → Option IpAddr
unfolding eq_bytes
parse_sample s = if eq_bytes s (codes "1.0.2.7") then some (v4 16777735) else none

abbrev sample : IpRangeSet
sample = record { ranges_v4 = (16777728, 16777743) ∷ []; ranges_v6 = []; prefixes = 1 }

add_sample : add_cidr parse_sample new (codes " 1.0.2.7/28") ≡ some sample
unfolding add_cidr push_cidr cidr_parts trim trim_start reverse push_interval sorted_in settle_last
    pop with_v4 split_once parse_unsigned unsigned digits_value cidr_interval insert_interval
    partition_point stretched parse_sample eq_bytes
add_sample = refl

parse_sample-Fits : (text : List ℕ) (ip : IpAddr) → parse_sample text ≡ some ip → Fits ip
unfolding parse_sample
parse_sample-Fits text ip h =
    let (read, e) = when-eq-some (eq_bytes text (codes "1.0.2.7")) _ h in
    subst Fits (some_injective (v4 16777735) ip e) (omega arith)

add_cidr-Adds_example : IsAdded parse_sample new (codes " 1.0.2.7/28") sample
add_cidr-Adds_example =
    add_cidr-Adds parse_sample parse_sample-Fits new sample (codes " 1.0.2.7/28") (tt, tt)
      add_sample
