-- ===== src/Verifier/Settings.antt =====
-- What a block of the configuration may set: src/ngx-http-pow-gate/src/verifier.rs.
use ngx_http_pow_gate.Common.{
  ℕ, zero, suc, ◌*◌, ◌≤◌, ◌<◌, ◌≡◌, arith, some, List, length, ◌>>=◌, >>=-eq-some, subst,
}
use ngx_http_pow_gate.Common.Parse.{parse_u64}
use ngx_http_pow_gate.RangeSet.{trim, reverse}
use ngx_http_pow_gate.Verifier.{Verifier}
use ngx_http_pow_gate.Verifier.Block.{
  split_unit, checked_mul, one_year, in_range, parse_time, Builder, arg, time_arg,
}

-- At least a second, and at most a year.
abbrev pub IsTime : ℕ → Type 0
IsTime seconds = (0 < seconds) × (seconds ≤ one_year)

in_range-IsTime : (n seconds : ℕ) → in_range n ≡ some seconds → IsTime seconds
in_range-IsTime zero seconds h = absurd (cc)
in_range-IsTime (suc n) seconds h = ground arith

parse_time-IsTime : (s : List ℕ) (seconds : ℕ) → parse_time s ≡ some seconds → IsTime seconds
unfolding parse_time
parse_time-IsTime s seconds h =
    let parts = split_unit (reverse (trim s)) (trim s) in
    let (n, e, h₁) = >>=-eq-some (parse_u64 (trim parts.0)) _ h in
    let (product, e₁, h₂) = >>=-eq-some (checked_mul n parts.1) _ h₁ in
    in_range-IsTime product seconds h₂

time_arg-IsTime :
    (args : List (List ℕ)) (seconds : ℕ) → time_arg args ≡ some seconds → IsTime seconds
unfolding time_arg
time_arg-IsTime args seconds h =
    let (s, e, h₁) = >>=-eq-some (arg args 1) parse_time h in parse_time-IsTime s seconds h₁

-- The builder of the verifier of a name, whose times are within the bounds.
module _ (name : List ℕ) where
  abbrev IsTimed : Builder → Type 0
  IsTimed b = (b.name ≡ name) × IsTime b.refresh × IsTime b.fcrdns_ttl × IsTime b.max_stale

  moved : (p c : Builder) → IsTimed p → some p ≡ some c → IsTimed c
  moved p c t h = let e : p ≡ c = cc in subst IsTimed e t

  -- A directive that sets a time.
  timed :
      (f : ℕ → Builder) (args : List (List ℕ)) (c : Builder)
      → ((seconds : ℕ) → IsTime seconds → IsTimed (f seconds))
      → (time_arg args >>= λ t. some (f t)) ≡ some c
      → IsTimed c
  timed f args c g h =
      let (t, e, h₁) = >>=-eq-some (time_arg args) (λ t. some (f t)) h in
      moved (f t) c (g t (time_arg-IsTime args t e)) h₁

-- A verifier within its limits, with its times in nanoseconds.
abbrev pub IsConfigured : Verifier → Type 0
IsConfigured v =
    (length v.ranges ≡ length v.urls)
    × (length v.urls ≤ 32)
    × (1000000000 ≤ v.refresh)
    × (v.refresh ≤ v.max_stale)
    × (v.max_stale ≤ one_year * 1000000000)
    × (1000000000 ≤ v.verdicts.ttl)
    × (v.verdicts.ttl ≤ one_year * 1000000000)
    × (v.verdicts.capacity ≡ 2048)
