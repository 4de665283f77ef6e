-- ===== src/Core/SocketInfo.antt =====
-- `SocketInfo` of src/core/src/sockspp/core/socket.hpp and socket.cxx. A `sockaddr_storage` is
-- its family, its address bytes and its port as it stands in memory, in network order.
pub mod Text
use sockspp.Base.{ℕ, Mem, of_bytes, slice, bytes_eq, Bool, true, false, List, if◌then◌else◌, ◌==◌}

pub data Family : Type 0 where
  inet inet6 : Family
  other : ℕ → Family

pub record Sockaddr : Type 0 where
  pub family : Family
  pub addr : List ℕ
  pub port : ℕ

-- `SocketInfo::IPVersion` and `IPAddress::Version`.
pub data IpVersion : Type 0 where
  ipv4 ipv6 : IpVersion

pub record SocketInfo : Type 0 where
  pub ip : Mem
  pub port : ℕ
  pub ip_version : IpVersion

abbrev pub is_ipv4 : IpVersion → Bool
is_ipv4 ipv4 = true
is_ipv4 ipv6 = false

abbrev pub address_size : IpVersion → ℕ
address_size ipv4 = 4
address_size ipv6 = 16

abbrev pub family_of : IpVersion → Family
family_of ipv4 = Family.inet
family_of ipv6 = Family.inet6

from_family : Family → SocketInfo → Sockaddr → SocketInfo
from_family Family.inet info a = record {
  ip = of_bytes a.addr info.ip;
  port = a.port;
  ip_version = ipv4;
}
from_family Family.inet6 info a = record {
  ip = of_bytes a.addr info.ip;
  port = a.port;
  ip_version = ipv6;
}
from_family (Family.other f) info a = info

-- `SocketInfo::from`: a family that is neither leaves the record as it was.
unfoldable pub from : SocketInfo → Sockaddr → SocketInfo
unfolding from_family
from info a = from_family a.family info a

-- `SocketInfo::to`.
unfoldable pub to : SocketInfo → Sockaddr
to info = record {
  family = family_of info.ip_version;
  addr = slice info.ip 0 (address_size info.ip_version);
  port = info.port;
}

abbrev pub same_version : IpVersion → IpVersion → Bool
same_version ipv4 ipv4 = true
same_version ipv6 ipv6 = true
same_version _ _ = false

-- `SocketInfo::operator==`.
unfoldable pub same_info : SocketInfo → SocketInfo → Bool
same_info a b =
    if same_version a.ip_version b.ip_version
    then (if a.port == b.port
        then bytes_eq (slice a.ip 0 (address_size a.ip_version))
            (slice b.ip 0 (address_size a.ip_version))
        else false)
    else false
