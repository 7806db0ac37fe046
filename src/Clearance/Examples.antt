-- ===== src/Clearance/Examples.antt =====
-- Runs of the theorems on a clearance.
use ngx_http_pow_gate.Common.{
  ℕ, ◌≡◌, refl, arith, Option, none, some, List, [], ◌∷◌, length, replicate, ◌==◌, if◌then◌else◌,
}
use ngx_http_pow_gate.Common.Int.{pos, ◌+ℤ◌, ◌-ℤ◌, add_i64}
use ngx_http_pow_gate.Context.{pow}
use ngx_http_pow_gate.Mac.{parts, joined}
use ngx_http_pow_gate.Wire.Doubled.{doubled_wire, doubled_wire-IsWire}
use ngx_http_pow_gate.Clearance.{Clearance, verify, with_verified, issue, into_owned}
use ngx_http_pow_gate.Clearance.RoundTrip.{issued, verify-issue_pow}
use ngx_http_pow_gate.Clearance.Verified.{with_verified-eq-some, IsAccepted}

-- A JSON of one document, which stands for one payload.
abbrev point : List ℕ
point = 4 ∷ replicate 64 9

abbrev sample : Clearance
sample = issued doubled_wire point (7 ∷ []) (pow 20) (pos 100) (pos 50)

abbrev write_sample : Clearance → List ℕ
write_sample payload = b'{' ∷ b'}' ∷ []

abbrev read_sample : List ℕ → Option Clearance
read_sample raw = if length raw == 2 then some sample else none

abbrev token : List ℕ
unfolding issue parts joined add_i64
token = issue doubled_wire write_sample (1 ∷ []) point (7 ∷ []) (pow 20) (pos 100) (pos 50)

verify-issue_pow_example :
    verify doubled_wire read_sample
      (1 ∷ [])
      (issue doubled_wire write_sample (1 ∷ []) point (7 ∷ []) (pow 20) (pos 100) (pos 50))
      (7 ∷ [])
      (pow 10)
      (pos 120)
      (pos 60)
    ≡ some sample
unfolding issue parts joined add_i64 ◌+ℤ◌ ◌-ℤ◌
verify-issue_pow_example =
    verify-issue_pow doubled_wire doubled_wire-IsWire write_sample read_sample (7 ∷ []) point 20
      (pow 10) (pos 100) (pos 50) (pos 120) (pos 60) (1 ∷ []) refl refl refl (ground arith)
      (refl, refl, ground arith, ground arith, ground arith, ground arith) (ground arith)
      (ground arith)

with_verified-eq-some_example :
    IsAccepted doubled_wire read_sample
      (1 ∷ [])
      token
      (7 ∷ [])
      (pow 10)
      (pos 120)
      (pos 60)
      into_owned
      sample
unfolding verify with_verified token issue
with_verified-eq-some_example =
    with_verified-eq-some doubled_wire doubled_wire-IsWire read_sample (1 ∷ []) token (7 ∷ [])
      (pow 10) (pos 120) (pos 60) into_owned sample verify-issue_pow_example
