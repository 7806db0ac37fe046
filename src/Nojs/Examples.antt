-- ===== src/Nojs/Examples.antt =====
-- Runs of the theorems on a grant.
use ngx_http_pow_gate.Common.{
  ℕ, ◌≡◌, refl, arith, Option, none, some, List, [], ◌∷◌, length, replicate, ◌==◌, if◌then◌else◌,
}
use ngx_http_pow_gate.Common.Int.{pos, ◌+ℤ◌, add_i64}
use ngx_http_pow_gate.Common.Bytes.{codes, starts_with}
use ngx_http_pow_gate.Mac.{hmac, parts, joined}
use ngx_http_pow_gate.Uri.{same_site_path, is_safe_byte}
use ngx_http_pow_gate.Wire.Doubled.{doubled_wire, doubled_wire-IsWire}
use ngx_http_pow_gate.Nojs.{Grant, ok, issue, verify, mac_input}
use ngx_http_pow_gate.Nojs.RoundTrip.{issued, verify-issue_nojs}

abbrev sixteen : List ℕ
sixteen = replicate 16 5

abbrev sample : Grant
sample = issued doubled_wire sixteen (codes "//evil") (pos 5) (pos 100) (7 ∷ [])

-- A JSON of one document, which stands for one grant.
abbrev write_sample : Grant → List ℕ
write_sample grant = codes "{}"

abbrev read_sample : List ℕ → Option Grant
read_sample raw = if length raw == 2 then some sample else none

abbrev token : List ℕ
unfolding issue hmac parts joined mac_input
token = issue doubled_wire write_sample (1 ∷ []) sixteen (codes "//evil") (pos 5) (pos 100) (7 ∷ [])

verify-issue_nojs_example :
    verify doubled_wire read_sample
      (1 ∷ [])
      (issue doubled_wire write_sample (1 ∷ []) sixteen (codes "//evil") (pos 5) (pos 100) (7 ∷ []))
      (pos 110)
      (7 ∷ [])
    ≡ ok sample
unfolding issue hmac parts joined mac_input add_i64 ◌+ℤ◌ same_site_path is_safe_byte starts_with
verify-issue_nojs_example =
    verify-issue_nojs doubled_wire doubled_wire-IsWire write_sample read_sample sixteen
      (codes "//evil") (7 ∷ []) (pos 5) (pos 100) (1 ∷ []) (pos 110) refl (ground arith)
      (ground arith) (ground arith) (ground arith) (ground arith) (ground arith)
