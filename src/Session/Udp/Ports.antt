-- ===== src/Session/Udp/Ports.antt =====
-- The port table of an association: `UDPSocket::recv_from` notes where answers go, and
-- `UDPSocket::send_to` sends them there (src/server/src/sockspp/server/udp_socket.cxx).
use sockspp.Base.{
  ℕ, ◌-◌, ◌≤◌, ◌<◌, ◌+◌, ◌≡◌, refl, arith, Mem, length, true, some, List, ◌∷◌, if◌then◌else◌, ◌==◌,
}
use sockspp.Core.SocketInfo.{Sockaddr, SocketInfo, IpVersion, ipv4, ipv6, family_of, from, to}
use sockspp.Core.S5.{get_type, message_address, message_size}
use sockspp.Core.MemoryBuffer.{MemoryBuffer, mem_of}
use sockspp.System.{Call, Platform, Received, IoResult}
use sockspp.Session.{World, UdpSocket, ok}
use sockspp.Session.Calls.{recv_from, send_to, garbage, received_buffer, unknown_info}
use sockspp.Session.Udp.{
  buffer_size, udp_recv_from, udp_send_to, is_client, relayed_version, relay_datagram,
  accept_datagram, header_sockaddr, payload_of, strip_header, cut_sockaddr, client_datagram,
  find_port,
}

-- A host that answers from a port.
abbrev pub host_at : IpVersion → List ℕ → ℕ → Sockaddr
host_at v addr port = record { family = family_of v; addr = addr; port = port }

-- What `send_to` reports: the payload's size, or what the system said if nothing was sent.
abbrev pub relay_status : IoResult → ℕ → IoResult
relay_status (IoResult.failed e) size = IoResult.failed e
relay_status (IoResult.count n) size = if n == 0 then IoResult.count 0 else IoResult.count size

pub from-host_at :
    (g : Mem) (v : IpVersion) (addr : List ℕ) (port : ℕ)
    → (from (unknown_info g) (host_at v addr port)).port ≡ port
unfolding from
from-host_at g ipv4 addr port = refl
from-host_at g ipv6 addr port = refl

module _ (pf : Platform) (w : World) (u : UdpSocket) (bytes : List ℕ) (sender : Sockaddr) where
  abbrev pub info : SocketInfo
  info = from (unknown_info (pf.os.garbage w.log)) sender

  abbrev pub arrived_bytes : MemoryBuffer
  arrived_bytes = received_buffer (pf.os.garbage w.log) bytes buffer_size

  -- The session that has noted the sender's port under the destination's.
  abbrev pub noted : IpVersion → World
  noted v = record {
    session = record (w.session) {
      udp_socket = some (record u {
        port_maps = ((header_sockaddr (mem_of arrived_bytes.ptr) v).port, info.port) ∷ u.port_maps;
      });
    };
    log = Call.recv_from u.fd ∷ w.log;
  }

  -- The log after the answer was sent to the port that the client's datagram came from.
  abbrev pub delivered : IpVersion → Sockaddr → MemoryBuffer → List Call
  delivered v host b =
      let log = (noted v).log in
      Call.send_to u.fd
        (client_datagram (pf.os.garbage log) (from (unknown_info (pf.os.garbage log)) host) b)
        (some (to (record u.client_info { port = info.port })))
      ∷ log

module _ (pf : Platform) (w : World) (u : UdpSocket) (bytes : List ℕ) (sender : Sockaddr)
    (has : w.session.udp_socket ≡ some u)
    (arrives : pf.os.received (Call.recv_from u.fd ∷ w.log) ≡ Received.got bytes sender)
    (long : 10 < length bytes) where
  accepts :
      (v : IpVersion)
      → is_client u (info pf w u bytes sender) ≡ true
      → relayed_version
          (get_type (mem_of (arrived_bytes pf w u bytes sender).ptr) (message_address 0))
        ≡ some v
      → message_size (mem_of (arrived_bytes pf w u bytes sender).ptr) 0 ≤ length bytes
      → length bytes
        ≤ message_size (mem_of (arrived_bytes pf w u bytes sender).ptr) 0
          + message_size (mem_of (arrived_bytes pf w u bytes sender).ptr) 0
      → udp_recv_from pf w
        ≡ ok (
          record {
            status =
                IoResult.count
                  (length bytes - message_size (mem_of (arrived_bytes pf w u bytes sender).ptr) 0);
            buffer =
                payload_of
                  (arrived_bytes pf w u bytes sender)
                  (message_size (mem_of (arrived_bytes pf w u bytes sender).ptr) 0);
            addr =
                cut_sockaddr v
                  (info pf w u bytes sender).ip_version
                  (header_sockaddr (mem_of (arrived_bytes pf w u bytes sender).ptr) v);
          },
          noted pf w u bytes sender v,
        )
  unfolding udp_recv_from recv_from garbage relay_datagram accept_datagram strip_header
  accepts v mine relayed fits short = ground arith

  delivers :
      (v hv : IpVersion) (addr : List ℕ) (b : MemoryBuffer)
      → let host =
          host_at hv addr
            (header_sockaddr (mem_of (arrived_bytes pf w u bytes sender).ptr) v).port in
        udp_send_to pf b host (noted pf w u bytes sender v)
        ≡ ok (
          relay_status (pf.os.result (delivered pf w u bytes sender v host b)) b.size,
          record (noted pf w u bytes sender v) { log = delivered pf w u bytes sender v host b },
        )
  unfolding udp_send_to send_to garbage find_port
  delivers v hv addr b =
      let port = (header_sockaddr (mem_of (arrived_bytes pf w u bytes sender).ptr) v).port in
      let same = from-host_at (pf.os.garbage (noted pf w u bytes sender v).log) hv addr port in
      ground (arith, same)

  -- A datagram of the client of more than ten bytes with an IPv4 or IPv6 header that fits into it,
  -- and no more payload than the header is long, is taken: its payload is handed on with the
  -- destination that the header names, an IPv6 address cut for an IPv4 client. In the session that
  -- it leaves, whatever host answers from the destination's port, its datagram is sent on to the
  -- client's address, to the port that the client's datagram came from, behind a header.
  pub answer_returns :
      (v hv : IpVersion) (addr : List ℕ) (b : MemoryBuffer)
      → is_client u (info pf w u bytes sender) ≡ true
      → relayed_version
          (get_type (mem_of (arrived_bytes pf w u bytes sender).ptr) (message_address 0))
        ≡ some v
      → message_size (mem_of (arrived_bytes pf w u bytes sender).ptr) 0 ≤ length bytes
      → length bytes
        ≤ message_size (mem_of (arrived_bytes pf w u bytes sender).ptr) 0
          + message_size (mem_of (arrived_bytes pf w u bytes sender).ptr) 0
      → let dest = header_sockaddr (mem_of (arrived_bytes pf w u bytes sender).ptr) v in
        let header = message_size (mem_of (arrived_bytes pf w u bytes sender).ptr) 0 in
        let host = host_at hv addr dest.port in
        (udp_recv_from pf w
          ≡ ok (
            record {
              status = IoResult.count (length bytes - header);
              buffer = payload_of (arrived_bytes pf w u bytes sender) header;
              addr = cut_sockaddr v (info pf w u bytes sender).ip_version dest;
            },
            noted pf w u bytes sender v,
          ))
        × (udp_send_to pf b host (noted pf w u bytes sender v)
            ≡ ok (
              relay_status (pf.os.result (delivered pf w u bytes sender v host b)) b.size,
              record (noted pf w u bytes sender v) { log = delivered pf w u bytes sender v host b },
            ))
  answer_returns v hv addr b mine relayed fits short =
      (accepts v mine relayed fits short, delivers v hv addr b)
