-- ===== src/Core/IpAddress.antt =====
-- src/core/src/sockspp/core/ip_address.cxx and ip_address.hpp.
use sockspp.Base.{ℕ, Mem, copy, of_bytes, htons, Bool, Option, none, some, List, if◌then◌else◌}
use sockspp.Core.SocketInfo.{IpVersion, ipv4, ipv6, address_size}

pub record IpAddress : Type 0 where
  pub storage : Mem
  pub port : ℕ
  pub version : IpVersion

abbrev pub host_port : ℕ → Bool → ℕ
host_port port netport = if netport then htons port else port

-- `IPAddress(Version, uint8_t*, uint16_t, bool)`; `old` is what the storage held before.
unfoldable pub of_raw : Mem → IpVersion → Mem → ℕ → ℕ → Bool → IpAddress
of_raw old version s q port netport = record {
  storage = copy old 0 s q (address_size version);
  port = host_port port netport;
  version = version;
}

-- `inet_pton(AF_INET, …)` and `inet_pton(AF_INET6, …)`: the bytes that the text stands for.
pub record InetPton : Type 0 where
  pub v4 : List ℕ → Option (List ℕ)
  pub v6 : List ℕ → Option (List ℕ)

-- `IPAddress(const std::string&, uint16_t, bool)`; `none` is the exception.
unfoldable pub of_text : InetPton → Mem → List ℕ → ℕ → Bool → Option IpAddress
of_text pton old ip port netport = elim (pton.v4 ip) [
  | some bs ↦
      some (record { storage = of_bytes bs old; port = host_port port netport; version = ipv4 })
  | none ↦ elim (pton.v6 ip) [
    | some bs ↦
        some (record { storage = of_bytes bs old; port = host_port port netport; version = ipv6 })
    | none ↦ none
  ]
]

unfoldable pub get_netport : IpAddress → ℕ
get_netport a = htons a.port
