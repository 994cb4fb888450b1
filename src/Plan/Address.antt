-- ===== src/Plan/Address.antt =====
-- The values of Python's `ipaddress` that plans hold: addresses, interfaces (an address with its
-- prefix length) and networks, as numbers.
use nslab.Base.{ℕ, ◌-◌, ◌*◌, ◌/◌, ◌^◌, discrete_of, nat_eq}

pub data IpAddress : Type 0 where
  ipv4 : ℕ → IpAddress
  ipv6 : ℕ → IpAddress

pub record IpInterface : Type 0 where
  pub ip : IpAddress
  pub prefixlen : ℕ

pub record IpNetwork : Type 0 where
  pub network_address : IpAddress
  pub prefixlen : ℕ

-- `address.version`
abbrev pub version : IpAddress → ℕ
version (ipv4 n) = 4
version (ipv6 n) = 6

-- `address.network`: the host bits are cleared.
abbrev masked : IpAddress → ℕ → IpAddress
masked (ipv4 n) p = ipv4 (n / 2 ^ (32 - p) * 2 ^ (32 - p))
masked (ipv6 n) p = ipv6 (n / 2 ^ (128 - p) * 2 ^ (128 - p))

unfoldable pub network : IpInterface → IpNetwork
network i = record { network_address = masked i.ip i.prefixlen; prefixlen = i.prefixlen }

IpAddress-discrete : Discrete IpAddress
IpAddress-discrete = hlevel (discrete_of nat_eq)

pub IpInterface-discrete : Discrete IpInterface
IpInterface-discrete = hlevel (discrete_of nat_eq)
