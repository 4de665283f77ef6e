-- ===== src/Session/Udp.antt =====
-- src/server/src/sockspp/server/udp_socket.cxx: datagrams between the client and the remote hosts.
pub mod Header
pub mod Source
pub mod Ports
use sockspp.Base.{
  ℕ, ◌+◌, ◌-◌, Mem, slice, copy, write, length, take, htons, of_bytes, Bool, true, false, leb, ltb,
  ◌==◌, if◌then◌else◌, Option, none, some, List, [], ◌∷◌,
}
use sockspp.Core.Enums.{AddrType}
use sockspp.Core.S5.{
  get_type, get_port, get_address, set_type, set_address, set_port, message_address, message_size,
}
use sockspp.Core.MemoryBuffer.{MemoryBuffer, contents, mem_of}
use sockspp.Core.SocketInfo.{
  Sockaddr, SocketInfo, Family, IpVersion, ipv4, ipv6, from, to, same_info, family_of, address_size,
}
use sockspp.System.{Fd, Call, Platform, IoResult, Received}
use sockspp.Session.{
  M, Fault, null_pointer, oversized_copy, overlapping_copy, Session, UdpSocket, get, put, raise,
  expect, pure, ◌>>=◌, ◌>>◌,
}
use sockspp.Session.Calls.{recv_from, send_to, garbage, received_buffer, unknown_info}
use sockspp.Session.Remote.{version_type}

-- `SOCKSPP_SESSION_SOCKET_BUFFER_SIZE` (src/server/src/sockspp/server/defs.hpp).
abbrev pub buffer_size : ℕ
buffer_size = 8192

-- `_port_maps`, an association list of which the newest entry for a key counts.
unfoldable pub find_port : ℕ → List (ℕ × ℕ) → Option ℕ
find_port k [] = none
find_port k ((j, v) ∷ m) = if j == k then some v else find_port k m

unfoldable pub get_udp : M UdpSocket
get_udp = do s ← get; expect null_pointer s.udp_socket

unfoldable pub put_udp : UdpSocket → M (Unit {0})
put_udp u = do s ← get; put (record s { udp_socket = some u })

-- What `UDPSocket::recv_from` returns: the `int`, the buffer and the address as it leaves them.
pub record Datagram : Type 0 where
  pub status : IoResult
  pub buffer : MemoryBuffer
  pub addr : Sockaddr

-- The protocol's address types that are relayed, as address families.
abbrev pub relayed_version : AddrType → Option IpVersion
relayed_version AddrType.ipv4 = some ipv4
relayed_version AddrType.ipv6 = some ipv6
relayed_version _ = none

-- The destination that a datagram's header names.
unfoldable pub header_sockaddr : Mem → IpVersion → Sockaddr
unfolding message_address get_address
header_sockaddr m v =
    let p = message_address 0 in
    record {
      family = family_of v;
      addr = slice m (get_address p) (address_size v);
      port = htons (get_port m p);
    }

-- The buffer with the payload moved to its front, over the header.
unfoldable pub payload_of : MemoryBuffer → ℕ → MemoryBuffer
payload_of b header =
    let m = mem_of b.ptr in
    let n = b.size - header in
    record { ptr = some (copy m 0 m header n); size = n; capacity = b.capacity }

-- The `memcpy` that does it. A header longer than the datagram gives it a negative size, and for a
-- payload longer than the header its two regions overlap: both are undefined.
unfoldable pub strip_header : MemoryBuffer → ℕ → M MemoryBuffer
unfolding payload_of
strip_header b header =
    if ltb b.size header
    then raise oversized_copy
    else if ltb header (b.size - header)
    then raise overlapping_copy
    else pure (payload_of b header)

-- The bytes of the destination's address that are handed on: no more of it than the sender's own
-- socket address is long is copied, which for an IPv4 sender is 16 bytes: the first 8 bytes of an
-- IPv6 address. The first version is the destination's.
abbrev pub cut_address : IpVersion → IpVersion → List ℕ → List ℕ
cut_address ipv4 sender addr = addr
cut_address ipv6 ipv4 addr = take 8 addr
cut_address ipv6 ipv6 addr = addr

abbrev pub cut_sockaddr : IpVersion → IpVersion → Sockaddr → Sockaddr
cut_sockaddr v sender a = record a { addr = cut_address v sender a.addr }

-- The datagram from the client to a remote host: its sender's port is noted under the
-- destination's port.
unfoldable pub accept_datagram : UdpSocket → MemoryBuffer → SocketInfo → IpVersion → M Datagram
unfolding header_sockaddr strip_header put_udp
accept_datagram u b info v = do
  let m = mem_of b.ptr
  let dest = header_sockaddr m v
  let header = message_size m 0
  put_udp (record u { port_maps = (dest.port, info.port) ∷ u.port_maps })
  stripped ← strip_header b header
  pure (record {
    status = IoResult.count (b.size - header);
    buffer = stripped;
    addr = cut_sockaddr v info.ip_version dest;
  })

-- A dropped datagram: the result is 0, and buffer and address stay.
unfoldable pub drop_datagram : MemoryBuffer → Sockaddr → M Datagram
drop_datagram b addr = pure (record { status = IoResult.count 0; buffer = b; addr = addr })

-- `info == _client_info` with the port left out of the comparison.
unfoldable pub is_client : UdpSocket → SocketInfo → Bool
unfolding same_info
is_client u info = same_info info (record u.client_info { port = info.port })

unfoldable pub relay_datagram : UdpSocket → MemoryBuffer → SocketInfo → Sockaddr → M Datagram
unfolding message_address
relay_datagram u b info addr =
    elim (relayed_version (get_type (mem_of b.ptr) (message_address 0))) [
      | none ↦ drop_datagram b addr
      | some v ↦ accept_datagram u b info v
    ]

abbrev pub no_address : Sockaddr
no_address = record { family = Family.other 0; addr = []; port = 0 }

-- The bytes behind the header that `send_to` builds, for a remote host.
unfoldable pub datagram_header : Mem → SocketInfo → Mem
unfolding message_address
datagram_header old info =
    let h = write (write (write old 0 0) 1 0) 2 0 in
    let p = message_address 0 in
    set_port (set_address (set_type h p (version_type info.ip_version)) p info.ip 0) p info.port
      true

-- The datagram that the client gets: the header, then the payload.
unfoldable pub client_datagram : Mem → SocketInfo → MemoryBuffer → List ℕ
unfolding datagram_header
client_datagram old info b =
    let h = datagram_header old info in
    let n = message_size h 0 in slice (copy h n (mem_of b.ptr) 0 b.size) 0 (n + b.size)

module _ (pf : Platform) where
  unfoldable pub udp_recv_from : M Datagram
  unfolding get_udp drop_datagram
  udp_recv_from = do
    u ← get_udp
    old ← garbage pf
    answer ← recv_from pf u.fd
    elim answer [
      | Received.failed e ↦ pure (record {
        status = IoResult.failed e;
        buffer = received_buffer old [] buffer_size;
        addr = no_address;
      })
      | Received.got bytes addr ↦
          let b = received_buffer old bytes buffer_size in
          let info = from (unknown_info old) addr in
          if leb (length bytes) 10
          then pure (record { status = IoResult.count (length bytes); buffer = b; addr = addr })
          else if is_client u info
          then relay_datagram u b info addr
          else drop_datagram b addr
    ]

  -- The result is the `int`: 0 if no datagram of the client named this port.
  unfoldable pub udp_send_to : MemoryBuffer → Sockaddr → M IoResult
  unfolding get_udp
  udp_send_to b addr = do
    u ← get_udp
    old ← garbage pf
    let info = from (unknown_info old) addr
    let deliver = λ (port : ℕ). (do
      res ←
          send_to pf u.fd (client_datagram old info b)
            (some (to (record u.client_info { port = port })))
      pure (elim res [
        | IoResult.failed e ↦ IoResult.failed e
        | IoResult.count n ↦ if n == 0 then IoResult.count 0 else IoResult.count b.size
      ]))
    elim (find_port info.port u.port_maps) [
      | none ↦ pure (IoResult.count 0)
      | some port ↦ deliver port
    ]
