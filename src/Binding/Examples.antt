-- ===== src/Binding/Examples.antt =====
-- Runs of the theorems on two requests.
use ngx_http_pow_gate.Common.{ℕ, List, [], ◌∷◌}
use ngx_http_pow_gate.Common.Bytes.{codes}
use ngx_http_pow_gate.Context.{IpAddr, v4, v6, default_policy}
use ngx_http_pow_gate.Mac.{fields, framed}
use ngx_http_pow_gate.Wire.Doubled.{doubled_wire}
use ngx_http_pow_gate.Binding.Inputs.{Seen, seen_fields}

abbrev ip_text : IpAddr → List ℕ
ip_text (v4 a) = 4 ∷ a ∷ []
ip_text (v6 a) = 6 ∷ a ∷ []

abbrev seen : Seen
seen = record {
  ip = v4 3;
  user_agent = codes "a";
  scope = codes "s";
  issuer = codes "i";
  address = default_policy;
}

abbrev context : List ℕ
unfolding fields framed
context =
    doubled_wire.b64url
      (fields doubled_wire.hmac_sha256 [] (seen_fields doubled_wire ip_text [] seen (v4 3)))
