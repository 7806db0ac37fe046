-- ===== src/Binding.antt =====
-- The context that a clearance is bound to: `Scope` and `binding` of
-- src/pow-gate-core/src/context.rs. The JSON of `serde` and the text of an address are parameters.
use ngx_http_pow_gate.Common.{
  ℕ, ◌+◌, ◌≡◌, Bool, true, false, ◌==◌, if◌then◌else◌, Option, none, some, List, [], ◌∷◌, ◌++◌, map,
  drop, ◌>>=◌,
}
use ngx_http_pow_gate.Common.Bytes.{codes}
use ngx_http_pow_gate.Context.{IpAddr, AddressPolicy, network}
use ngx_http_pow_gate.Mac.{fields}
use ngx_http_pow_gate.Replay.{lower}
use ngx_http_pow_gate.Wire.{Wire}
pub mod Inputs
pub mod Hosts
mod Examples

pub record Scope : Type 0 where
  pub tail : List ℕ
  pub domain : Option (List ℕ)

-- `trim_start_matches('.')`
unfoldable pub undotted : List ℕ → List ℕ
undotted [] = []
undotted (c ∷ s) = let rest = undotted s in if c == b'.' then rest else c ∷ s

-- `to_ascii_lowercase`, which changes nothing where there is no capital
abbrev pub lowercase : List ℕ → List ℕ
lowercase s = map lower s

-- The JSON of a text, and of the array of the four fields.
module _ (write_text : List ℕ → List ℕ) (write_fields : (n p e y : List ℕ) → List ℕ) where
  -- `format!("[{}{tail}", ..)`
  abbrev pub in_scope : List ℕ → List ℕ → List ℕ
  in_scope tail host = b'[' ∷ write_text host ++ tail

  unfoldable pub domain_scope : List ℕ → List ℕ → List ℕ
  domain_scope tail [] = []
  domain_scope tail (c ∷ domain) = in_scope tail (c ∷ domain)

  abbrev pub domain_of : List ℕ → Option (List ℕ) → Option (List ℕ)
  domain_of tail none = none
  domain_of tail (some domain) = some (domain_scope tail (lowercase (undotted domain)))

  -- `Scope::new`
  unfoldable pub new : Option (List ℕ) → (name path endpoint policy : List ℕ) → Scope
  new domain name path endpoint policy =
      let tail = b',' ∷ drop 1 (write_fields name path endpoint policy) in
      record { tail = tail; domain = domain_of tail domain }

  abbrev nonempty : List ℕ → Option (List ℕ)
  nonempty [] = none
  nonempty (c ∷ s) = some (c ∷ s)

  abbrev pub host_scope : List ℕ → List ℕ → Option (List ℕ)
  host_scope tail [] = none
  host_scope tail (c ∷ host) = some (in_scope tail (lowercase (c ∷ host)))

  abbrev scope_or_host : List ℕ → Option (List ℕ) → List ℕ → Option (List ℕ)
  scope_or_host tail (some domain) host = nonempty domain
  scope_or_host tail none host = host_scope tail (undotted host)

  -- `Scope::for_host`
  unfoldable pub for_host : Scope → List ℕ → Option (List ℕ)
  for_host scope host = scope_or_host scope.tail scope.domain host

module _ (w : Wire) (ip_text : IpAddr → List ℕ) where
  -- What `binding_prepared` gives to the key.
  abbrev pub context_fields :
      IpAddr → (user_agent scope issuer : List ℕ) → AddressPolicy → List (List ℕ)
  context_fields net user_agent scope issuer address =
      codes "pow-gate-context-v2"
      ∷ ip_text net
      ∷ user_agent
      ∷ scope
      ∷ issuer
      ∷ (address.ipv4_prefix ∷ address.ipv6_prefix ∷ [])
      ∷ []

  -- `binding_prepared`, with the key that its schedule was made of, and `binding`
  unfoldable pub binding :
      List ℕ → IpAddr → (user_agent scope issuer : List ℕ) → AddressPolicy → Option (List ℕ)
  binding key ip user_agent scope issuer address = do
    net ← network address ip
    some (w.b64url (fields w.hmac_sha256 key (context_fields net user_agent scope issuer address)))
