-- ===== src/Context/Examples.antt =====
-- Networks and assurances at inputs.
use ngx_http_pow_gate.Common.{◌≡◌, refl}
use ngx_http_pow_gate.Context.{
  IpAddr, v4, v6, AddressPolicy, valid, canonical, mask, masked, network,
}

abbrev by_24 : AddressPolicy
by_24 = record { ipv4_prefix = 24; ipv6_prefix = 64 }

-- 192.0.2.7, and ::ffff:192.0.2.200
abbrev plain : IpAddr
plain = v4 0xc000_0207

abbrev wrapped : IpAddr
wrapped = v6 0xffff_c000_02c8

one_network : network by_24 plain ≡ network by_24 wrapped
unfolding network valid canonical mask masked
one_network = refl
