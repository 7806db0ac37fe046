-- ===== src/Context/Networks.antt =====
-- Two addresses have one network exactly when they share the leading bits of the policy.
use native.Mathlib.Nat.{one-le-pow}
use ngx_http_pow_gate.Common.{
  ℕ, ◌-◌, ◌*◌, ◌/◌, ◌^◌, ◌≤◌, ◌≡◌, ◌↔◌, ap, sym, ◌∙◌, arith, true, false, none, some,
}
use ngx_http_pow_gate.Context.{
  IpAddr, v4, v6, AddressPolicy, valid, canonical, masked, mask, network,
}

-- The client's address under its one name, cut to the prefix of its family.
abbrev pub SameNetwork : AddressPolicy → IpAddr → IpAddr → Type 0
SameNetwork policy (v4 a) (v4 b) =
    a / 2 ^ (32 - policy.ipv4_prefix) ≡ b / 2 ^ (32 - policy.ipv4_prefix)
SameNetwork policy (v6 a) (v6 b) =
    a / 2 ^ (128 - policy.ipv6_prefix) ≡ b / 2 ^ (128 - policy.ipv6_prefix)
SameNetwork policy (v4 a) (v6 b) = ⊥
SameNetwork policy (v6 a) (v4 b) = ⊥

quotient_of_multiple : (q p : ℕ) → 1 ≤ p → q * p / p ≡ q
quotient_of_multiple q p h = grind arith

masked_iff :
    (width prefix a b : ℕ)
    → (masked width prefix a ≡ masked width prefix b)
      ↔ (a / 2 ^ (width - prefix) ≡ b / 2 ^ (width - prefix))
unfolding masked
masked_iff width prefix a b =
    let p = 2 ^ (width - prefix) in
    let pos : 1 ≤ p = one-le-pow (width - prefix) 2 (omega arith) in
    (
      (λ e.
          sym (quotient_of_multiple (a / p) p pos)
          ∙ ap (λ (t : ℕ). t / p) e
          ∙ quotient_of_multiple (b / p) p pos),
      (λ e. ap (λ (t : ℕ). t * p) e),
    )

mask_iff :
    (policy : AddressPolicy) (a b : IpAddr)
    → (mask policy a ≡ mask policy b) ↔ SameNetwork policy a b
unfolding mask
mask_iff policy (v4 a) (v4 b) =
    let iff = masked_iff 32 policy.ipv4_prefix a b in ((λ e. iff.0 (cc)), (λ e. ap v4 (iff.1 e)))
mask_iff policy (v6 a) (v6 b) =
    let iff = masked_iff 128 policy.ipv6_prefix a b in ((λ e. iff.0 (cc)), (λ e. ap v6 (iff.1 e)))
mask_iff policy (v4 a) (v6 b) = ((λ e. absurd (cc)), (λ e. absurd e))
mask_iff policy (v6 a) (v4 b) = ((λ e. absurd (cc)), (λ e. absurd e))

-- Under a valid policy two clients have one network exactly when their addresses, IPv4-mapped
-- ones read as version 4, are of one family and agree on the leading bits of its prefix.
pub network_iff :
    (policy : AddressPolicy) (a b : IpAddr)
    → valid policy ≡ true
    → (network policy a ≡ network policy b) ↔ SameNetwork policy (canonical a) (canonical b)
unfolding network
network_iff policy a b ok =
    let iff = mask_iff policy (canonical a) (canonical b) in
    rw ok ((λ e. iff.0 (cc)), (λ e. ap some (iff.1 e)))

-- A policy outside the bounds has no network, so that the request is refused.
pub network-invalid :
    (policy : AddressPolicy) (ip : IpAddr) → valid policy ≡ false → network policy ip ≡ none
unfolding network
network-invalid policy ip bad = rw bad
