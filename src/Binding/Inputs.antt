-- ===== src/Binding/Inputs.antt =====
-- A context names what it is made of: `binding_prepared` of src/pow-gate-core/src/context.rs.
use ngx_http_pow_gate.Common.{ℕ, ◌≡◌, ◌≢◌, Option, List}
use ngx_http_pow_gate.Context.{IpAddr, AddressPolicy, network}
use ngx_http_pow_gate.Mac.{framed}
use ngx_http_pow_gate.Wire.{Wire}
use ngx_http_pow_gate.Binding.{binding, context_fields}

-- One request, as a context sees it.
pub record Seen : Type 0 where
  pub ip : IpAddr
  pub user_agent : List ℕ
  pub scope : List ℕ
  pub issuer : List ℕ
  pub address : AddressPolicy

module _ (w : Wire) (ip_text : IpAddr → List ℕ) (key : List ℕ) where
  abbrev pub seen_fields : Seen → IpAddr → List (List ℕ)
  seen_fields s net = context_fields w ip_text net s.user_agent s.scope s.issuer s.address

  abbrev pub context_of : Seen → Option (List ℕ)
  context_of s = binding w ip_text key s.ip s.user_agent s.scope s.issuer s.address

  -- What a context is made of, of two requests.
  abbrev pub SameInputs : Seen → Seen → Type 0
  SameInputs s t =
      (network s.address s.ip ≡ network t.address t.ip)
      × (s.user_agent ≡ t.user_agent)
      × (s.scope ≡ t.scope)
      × (s.issuer ≡ t.issuer)
      × (s.address.ipv4_prefix ≡ t.address.ipv4_prefix)
      × (s.address.ipv6_prefix ≡ t.address.ipv6_prefix)

  -- The framed inputs of the two requests are two messages with one tag.
  abbrev pub InputsCollide : Seen → Seen → Type 0
  InputsCollide s t =
      (m n : IpAddr) × (framed (seen_fields s m) ≢ framed (seen_fields t n))
      × (w.hmac_sha256 key (framed (seen_fields s m))
          ≡ w.hmac_sha256 key (framed (seen_fields t n)))
