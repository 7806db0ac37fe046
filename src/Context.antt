-- ===== src/Context.antt =====
-- Addresses, the policy on their prefixes, and the assurance of a clearance:
-- src/pow-gate-core/src/context.rs. An address is its number. The mask `MAX << (width - prefix)`
-- keeps the high bits, which is the multiple of the power of two below.
pub mod Networks
pub mod Assurances
mod Examples
use ngx_http_pow_gate.Common.{
  ℕ, zero, suc, ◌+◌, ◌-◌, ◌*◌, ◌/◌, ◌%◌, ◌^◌, Bool, true, false, ◌&&◌, ltb, leb, ◌==◌,
  if◌then◌else◌, Option, none, some, List, [], ◌∷◌, ◌++◌, length, map,
}
use ngx_http_pow_gate.Common.Int.{ℤ, pos, ltb_ℤ, leb_ℤ}

pub data IpAddr : Type 0 where
  v4 : ℕ → IpAddr
  v6 : ℕ → IpAddr

pub record AddressPolicy : Type 0 where
  pub ipv4_prefix : ℕ
  pub ipv6_prefix : ℕ

abbrev pub default_policy : AddressPolicy
default_policy = record { ipv4_prefix = 32; ipv6_prefix = 128 }

-- `(low..=high).contains(&x)`
abbrev pub within : ℕ → ℕ → ℕ → Bool
within low high x = leb low x && leb x high

-- `AddressPolicy::valid`
unfoldable pub valid : AddressPolicy → Bool
valid policy = within 1 32 policy.ipv4_prefix && within 1 128 policy.ipv6_prefix

-- `to_ipv4_mapped`: the addresses of `::ffff:0:0/96`, as the addresses of version 4.
unfoldable pub canonical : IpAddr → IpAddr
canonical (v4 a) = v4 a
canonical (v6 a) = if a / 2 ^ 32 == 0xffff then v4 (a % 2 ^ 32) else v6 a

-- `a & (MAX << (width - prefix))`
unfoldable pub masked : (width prefix a : ℕ) → ℕ
masked width prefix a = a / 2 ^ (width - prefix) * 2 ^ (width - prefix)

unfoldable pub mask : AddressPolicy → IpAddr → IpAddr
mask policy (v4 a) = v4 (masked 32 policy.ipv4_prefix a)
mask policy (v6 a) = v6 (masked 128 policy.ipv6_prefix a)

-- `AddressPolicy::network`
unfoldable pub network : AddressPolicy → IpAddr → Option IpAddr
network policy ip = if valid policy then some (mask policy (canonical ip)) else none

pub data Assurance : Type 0 where
  pow : ℕ → Assurance
  no_js : ℤ → Assurance

-- `Assurance::satisfies`
unfoldable pub satisfies : Assurance → Assurance → Bool
satisfies (pow got) (pow need) = ltb 0 need && leb need got
satisfies (pow got) (no_js need) = false
satisfies (no_js got) (pow need) = false
satisfies (no_js got) (no_js need) = ltb_ℤ (pos 0) need && leb_ℤ need got
