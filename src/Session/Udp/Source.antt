-- ===== src/Session/Udp/Source.antt =====
-- Whose datagrams are relayed: the tests of `UDPSocket::recv_from` of
-- src/server/src/sockspp/server/udp_socket.cxx on the sender and the size.
use mathlib.Core.Path.{subst}
use sockspp.Base.{
  ℕ, ◌≤◌, ◌<◌, ◌≡◌, ◌≢◌, ◌⊎◌, inl, inr, refl, sym, ap, ◌∙◌, leb, if◌then◌else◌, arith, Mem,
  of_bytes, slice, slice-of_bytes, length-slice, bytes_eq, eq_of_bytes_eq, bytes_eq_refl, length,
  Bool-cases, true, false, some, List, ◌∷◌,
}
use sockspp.Core.Event.{only_read}
use sockspp.Core.SocketInfo.{
  Sockaddr, SocketInfo, IpVersion, ipv4, ipv6, from, same_info, address_size,
}
use sockspp.Core.S5.{get_type, message_address, message_size}
use sockspp.System.{Call, Platform, Received, IoResult}
use sockspp.Server.Params.{ServerParams}
use sockspp.Session.{World, UdpSocket, ok, fault, oversized_copy, overlapping_copy}
use sockspp.Session.Calls.{recv_from, garbage, received_buffer, unknown_info}
use sockspp.Session.Udp.{
  buffer_size, udp_recv_from, is_client, relayed_version, relay_datagram, accept_datagram,
  strip_header,
}
use sockspp.Session.Udp.Ports.{host_at}
use sockspp.Session.Events.{process_udp_event}
use sockspp.Session.Run.{udp, process_event}

abbrev host_info : Mem → IpVersion → ℕ → SocketInfo
host_info ip v port = record { ip = ip; port = port; ip_version = v }

-- The bytes of an address of this version.
abbrev pub own_bytes : IpVersion → Mem → List ℕ
own_bytes v ip = slice ip 0 (address_size v)

whole_address :
    (v : IpVersion) (addr : List ℕ) (m : Mem)
    → length addr ≡ address_size v
    → own_bytes v (of_bytes addr m) ≡ addr
whole_address v addr m whole = ap (slice (of_bytes addr m) 0) (sym whole) ∙ slice-of_bytes addr m

-- Two hosts that the comparison takes for the same are the same.
same_host :
    (v v' : IpVersion) (addr : List ℕ) (m ip : Mem) (port : ℕ)
    → length addr ≡ address_size v
    → same_info (host_info (of_bytes addr m) v port) (host_info ip v' port) ≡ true
    → (v ≡ v') × (addr ≡ own_bytes v' ip)
unfolding same_info
same_host ipv4 ipv4 addr m ip port whole h =
    let eq : bytes_eq (own_bytes ipv4 (of_bytes addr m)) (own_bytes ipv4 ip) ≡ true =
      ground arith in
    (refl, sym (whole_address ipv4 addr m whole) ∙ eq_of_bytes_eq _ _ eq)
same_host ipv4 ipv6 addr m ip port whole h = absurd (ground arith)
same_host ipv6 ipv4 addr m ip port whole h = absurd (ground arith)
same_host ipv6 ipv6 addr m ip port whole h =
    let eq : bytes_eq (own_bytes ipv6 (of_bytes addr m)) (own_bytes ipv6 ip) ≡ true =
      ground arith in
    (refl, sym (whole_address ipv6 addr m whole) ∙ eq_of_bytes_eq _ _ eq)

own_host :
    (v : IpVersion) (m ip : Mem) (port : ℕ)
    → same_info (host_info (of_bytes (own_bytes v ip) m) v port) (host_info ip v port) ≡ true
unfolding same_info
own_host ipv4 m ip port =
    let mine = whole_address ipv4 (own_bytes ipv4 ip) m (length-slice ip 0 4) in
    rw mine (ground (arith, bytes_eq_refl (own_bytes ipv4 ip)))
own_host ipv6 m ip port =
    let mine = whole_address ipv6 (own_bytes ipv6 ip) m (length-slice ip 0 16) in
    rw mine (ground (arith, bytes_eq_refl (own_bytes ipv6 ip)))

-- The address of the client that the association was made for, in the bytes of its version.
abbrev pub client_address : UdpSocket → List ℕ
client_address u = own_bytes u.client_info.ip_version u.client_info.ip

client_host :
    (u : UdpSocket) (g : Mem) (v : IpVersion) (addr : List ℕ) (port : ℕ)
    → length addr ≡ address_size v
    → is_client u (from (unknown_info g) (host_at v addr port)) ≡ true
    → (v ≡ u.client_info.ip_version) × (addr ≡ client_address u)
unfolding is_client from
client_host u g ipv4 addr port whole h = same_host ipv4 _ addr _ u.client_info.ip port whole h
client_host u g ipv6 addr port whole h = same_host ipv6 _ addr _ u.client_info.ip port whole h

pub is_client_own :
    (u : UdpSocket) (g : Mem) (v : IpVersion) (port : ℕ)
    → u.client_info.ip_version ≡ v
    → is_client u (from (unknown_info g) (host_at v (own_bytes v u.client_info.ip) port)) ≡ true
unfolding is_client from
is_client_own u g ipv4 port same =
    let m = (unknown_info g).ip in
    let arrived = of_bytes (own_bytes ipv4 u.client_info.ip) m in
    subst
      (λ (v : IpVersion).
        same_info (host_info arrived ipv4 port) (host_info u.client_info.ip v port) ≡ true)
      (sym same) (own_host ipv4 m u.client_info.ip port)
is_client_own u g ipv6 port same =
    let m = (unknown_info g).ip in
    let arrived = of_bytes (own_bytes ipv6 u.client_info.ip) m in
    subst
      (λ (v : IpVersion).
        same_info (host_info arrived ipv6 port) (host_info u.client_info.ip v port) ≡ true)
      (sym same) (own_host ipv6 m u.client_info.ip port)

-- The state after the one `recvfrom`.
abbrev pub after_recv : World → UdpSocket → World
after_recv w u = record w { log = Call.recv_from u.fd ∷ w.log }

module _ (pf : Platform) (w : World) (u : UdpSocket) (has : w.session.udp_socket ≡ some u) where
  others_dropped :
      (bytes : List ℕ) (sender : Sockaddr)
      → pf.os.received (Call.recv_from u.fd ∷ w.log) ≡ Received.got bytes sender
      → is_client u (from (unknown_info (pf.os.garbage w.log)) sender) ≡ false
      → udp_recv_from pf w
        ≡ ok (
          record {
            status = IoResult.count (if leb (length bytes) 10 then length bytes else 0);
            buffer = received_buffer (pf.os.garbage w.log) bytes buffer_size;
            addr = sender;
          },
          after_recv w u,
        )
  unfolding udp_recv_from recv_from garbage
  others_dropped bytes sender arrives other = ground arith

  -- A datagram from a host of another IP version or another address than the client's leaves the
  -- session as it was, the port table included, and the result is 0, so that nothing is relayed;
  -- but up to ten bytes are handed on with their sender's address, since only longer datagrams have
  -- their sender looked at.
  pub stranger_dropped :
      (bytes : List ℕ) (v : IpVersion) (addr : List ℕ) (port : ℕ)
      → length addr ≡ address_size v
      → (v ≢ u.client_info.ip_version) ⊎ (addr ≢ client_address u)
      → pf.os.received (Call.recv_from u.fd ∷ w.log) ≡ Received.got bytes (host_at v addr port)
      → udp_recv_from pf w
        ≡ ok (
          record {
            status = IoResult.count (if leb (length bytes) 10 then length bytes else 0);
            buffer = received_buffer (pf.os.garbage w.log) bytes buffer_size;
            addr = host_at v addr port;
          },
          after_recv w u,
        )
  stranger_dropped bytes v addr port whole stranger arrives =
      let info = from (unknown_info (pf.os.garbage w.log)) (host_at v addr port) in
      elim (Bool-cases (is_client u info)) [
        | inl mine ↦
            let (version, address) = client_host u (pf.os.garbage w.log) v addr port whole mine in
            absurd (elim stranger [ inl differs ↦ differs version | inr differs ↦ differs address ])
        | inr other ↦ others_dropped bytes (host_at v addr port) arrives other
      ]

  ipv6_header :
      (b0 b1 b2 : ℕ) (rest : List ℕ) (g : Mem)
      → (relayed_version (get_type (of_bytes (b0 ∷ b1 ∷ b2 ∷ 4 ∷ rest) g) (message_address 0))
          ≡ some ipv6)
        × (message_size (of_bytes (b0 ∷ b1 ∷ b2 ∷ 4 ∷ rest) g) 0 ≡ 22)
  unfolding get_type message_address message_size sockspp.Core.S5.get_size sockspp.Core.S5.size_of
      sockspp.Core.Enums.to_addr_type
  ipv6_header b0 b1 b2 rest g = (ground arith, ground arith)

  -- A datagram of the client, from any of its ports, of 11 to 21 bytes of which the fourth says
  -- IPv6, whose header would be 22 bytes long: the handler gives `memcpy` a negative size.
  pub short_header_faults :
      (params : ServerParams) (b0 b1 b2 : ℕ) (rest : List ℕ) (port : ℕ)
      → 7 ≤ length rest
      → length rest < 18
      → pf.os.received (Call.recv_from u.fd ∷ w.log)
        ≡ Received.got
            (b0 ∷ b1 ∷ b2 ∷ 4 ∷ rest)
            (host_at u.client_info.ip_version (client_address u) port)
      → process_event pf params (udp only_read) w ≡ fault oversized_copy
  unfolding process_event process_udp_event udp_recv_from recv_from garbage relay_datagram
      accept_datagram strip_header
  short_header_faults params b0 b1 b2 rest port long short arrives =
      let g = pf.os.garbage w.log in
      let mine = is_client_own u g u.client_info.ip_version port refl in
      let (version, size) = ipv6_header b0 b1 b2 rest g in ground arith

  ipv4_header :
      (b0 b1 b2 : ℕ) (rest : List ℕ) (g : Mem)
      → (relayed_version (get_type (of_bytes (b0 ∷ b1 ∷ b2 ∷ 1 ∷ rest) g) (message_address 0))
          ≡ some ipv4)
        × (message_size (of_bytes (b0 ∷ b1 ∷ b2 ∷ 1 ∷ rest) g) 0 ≡ 10)
  unfolding get_type message_address message_size sockspp.Core.S5.get_size sockspp.Core.S5.size_of
      sockspp.Core.Enums.to_addr_type
  ipv4_header b0 b1 b2 rest g = (ground arith, ground arith)

  -- A datagram of the client, from any of its ports, with an IPv4 header of ten bytes and a payload
  -- of more than ten: the handler gives `memcpy` regions that overlap.
  pub long_payload_faults :
      (params : ServerParams) (b0 b1 b2 : ℕ) (rest : List ℕ) (port : ℕ)
      → 17 ≤ length rest
      → pf.os.received (Call.recv_from u.fd ∷ w.log)
        ≡ Received.got
            (b0 ∷ b1 ∷ b2 ∷ 1 ∷ rest)
            (host_at u.client_info.ip_version (client_address u) port)
      → process_event pf params (udp only_read) w ≡ fault overlapping_copy
  unfolding process_event process_udp_event udp_recv_from recv_from garbage relay_datagram
      accept_datagram strip_header
  long_payload_faults params b0 b1 b2 rest port long arrives =
      let g = pf.os.garbage w.log in
      let mine = is_client_own u g u.client_info.ip_version port refl in
      let (version, size) = ipv4_header b0 b1 b2 rest g in ground arith
