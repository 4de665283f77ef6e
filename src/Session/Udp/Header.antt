-- ===== src/Session/Udp/Header.antt =====
-- The header that `UDPSocket::send_to` of src/server/src/sockspp/server/udp_socket.cxx writes in front
-- of a datagram, and `UDPSocket::recv_from` reads.
use sockspp.Base.{
  ℕ, suc, zero, ◌+◌, ◌-◌, ◌≤◌, ◌<◌, ◌≡◌, refl, ap, ◌∙◌, arith, Mem, write, copy, slice, slice_ext,
  of_bytes, length, length-slice, get_or, htons, htons-htons, true, some,
}
use sockspp.Core.Enums.{addr_type_byte}
use sockspp.Core.S5.{get_type, get_size, get_port, message_address, message_size}
use sockspp.Core.S5.Layout.{fill, fill_at, filled, address_length}
use sockspp.Core.S5.Fields.{size_by_type, type_by_byte, port_by_size, size_back}
use sockspp.Core.MemoryBuffer.{MemoryBuffer, contents, mem_of, slice-copy}
use sockspp.Core.SocketInfo.{SocketInfo, IpVersion, ipv4, ipv6, to, address_size}
use sockspp.Session.{World, ok}
use sockspp.Session.Calls.{received_buffer}
use sockspp.Session.Remote.{version_type}
use sockspp.Session.Remote.Replies.{version_routable}
use sockspp.Session.Udp.{
  buffer_size, header_sockaddr, payload_of, strip_header, client_datagram, relayed_version,
}

-- The header's length: three bytes, a type, an address and a port.
abbrev pub header_length : IpVersion → ℕ
header_length v = address_size v + 6

pub version_length : (v : IpVersion) (n : ℕ) → address_length (version_type v) n ≡ address_size v
version_length ipv4 n = refl
version_length ipv6 n = refl

relayed_version_type : (v : IpVersion) → relayed_version (version_type v) ≡ some v
relayed_version_type ipv4 = refl
relayed_version_type ipv6 = refl

get_or-slice : (m : Mem) (p k i : ℕ) → i < k → get_or (slice m p k) i 0 ≡ m (p + i)
unfolding slice
get_or-slice m p zero i h = elim h [ ]
get_or-slice m p (suc k) zero h = ground arith
get_or-slice m p (suc k) (suc i) h = ground (arith, get_or-slice m (p + 1) k i)

-- An array that begins with bytes of another agrees with it there.
of_bytes-slice : (m g : Mem) (k i : ℕ) → i < k → of_bytes (slice m 0 k) g i ≡ m i
of_bytes-slice m g k i h = ground (arith, length-slice m 0 k, get_or-slice m 0 k i)

module _ (old g : Mem) (info : SocketInfo) (b : MemoryBuffer) where
  abbrev pub v : IpVersion
  v = info.ip_version

  -- The header before the payload is put behind it.
  abbrev pub header : Mem
  header = fill (write (write (write old 0 0) 1 0) 2 0) 3 (version_type v) info.ip 0 info.port true

  -- What a receiver of the datagram has in its array.
  abbrev arrived : Mem
  arrived = of_bytes (client_datagram old info b) g

  header_size : message_size header 0 ≡ header_length v
  unfolding message_size message_address
  header_size = omega (
    arith,
    size_back (write (write (write old 0 0) 1 0) 2 0) 3 info.ip 0 info.port true
        (version_routable v),
    version_length v (info.ip 0),
  )

  pub datagram_bytes :
      client_datagram old info b
      ≡ slice (copy header (header_length v) (mem_of b.ptr) 0 b.size) 0 (header_length v + b.size)
  unfolding client_datagram
  datagram_bytes = rw header_size refl

  arrived-header : (i : ℕ) → i < header_length v → arrived i ≡ header i
  arrived-header i h =
      let whole = copy header (header_length v) (mem_of b.ptr) 0 b.size in
      rw datagram_bytes
        (of_bytes-slice whole g (header_length v + b.size) i (omega arith) ∙ ground arith)

  arrived_payload : (i : ℕ) → i < b.size → arrived (header_length v + i) ≡ mem_of b.ptr (0 + i)
  arrived_payload i h =
      let whole = copy header (header_length v) (mem_of b.ptr) 0 b.size in
      rw datagram_bytes (
        of_bytes-slice whole g (header_length v + b.size) (header_length v + i) (omega arith)
        ∙ ground arith)

  arrived_at :
      (i : ℕ)
      → i < header_length v
      → arrived i
        ≡ filled
            (write (write (write old 0 0) 1 0) 2 0)
            3
            (version_type v)
            info.ip
            0
            info.port
            true
            i
  arrived_at i h =
      arrived-header i h
      ∙ fill_at (write (write (write old 0 0) 1 0) 2 0) 3 info.ip 0 info.port true i
          (version_routable v)

  arrived_type : arrived 3 ≡ addr_type_byte (version_type v)
  arrived_type = ground (arith, arrived_at 3)

  arrived_address : slice arrived 4 (address_size v) ≡ slice info.ip 0 (address_size v)
  arrived_address =
      slice_ext arrived info.ip 4 0 (address_size v)
        (λ i lt. ground (arith, arrived_at (4 + i), version_length v (info.ip 0)))

  arrived_size : get_size arrived 3 ≡ address_size v + 3
  arrived_size =
      size_by_type arrived 3 (version_routable v) arrived_type
      ∙ ap (λ (n : ℕ). n + 3) (version_length v (arrived 4))

  arrived_port : info.port < 65536 → get_port arrived 3 ≡ htons info.port
  arrived_port h =
      let n = address_size v in
      ground (
        arith,
        port_by_size arrived 3 n arrived_size,
        arrived_at (3 + n + 1),
        arrived_at (3 + n + 2),
        version_length v (info.ip 0),
      )

  arrived_version : relayed_version (get_type arrived 3) ≡ some v
  arrived_version =
      ap relayed_version (type_by_byte arrived 3 (version_routable v) arrived_type)
      ∙ relayed_version_type v

  arrived_sockaddr : info.port < 65536 → header_sockaddr arrived v ≡ to info
  unfolding header_sockaddr to
  arrived_sockaddr h = ground (arith, arrived_address, arrived_port h, htons-htons info.port h)

  arrived-message_size : message_size arrived 0 ≡ header_length v
  unfolding message_size message_address
  arrived-message_size = omega (arith, arrived_size)

  arrived_contents :
      contents
        (payload_of (received_buffer g (client_datagram old info b) buffer_size) (header_length v))
      ≡ contents b
  unfolding contents payload_of
  arrived_contents =
      let n = length (client_datagram old info b) - header_length v in
      let whole = copy header (header_length v) (mem_of b.ptr) 0 b.size in
      let size : n ≡ b.size =
        omega (arith, ap length datagram_bytes, length-slice whole 0 (header_length v + b.size)) in
      slice-copy arrived arrived (header_length v) n
      ∙ ap (slice arrived (header_length v)) size
      ∙ slice_ext arrived (mem_of b.ptr) (header_length v) 0 b.size arrived_payload

  fits_back :
      (w : World)
      → b.size ≤ header_length v
      → strip_header
          (received_buffer g (client_datagram old info b) buffer_size)
          (header_length v)
          w
        ≡ ok (
          payload_of (received_buffer g (client_datagram old info b) buffer_size) (header_length v),
          w,
        )
  unfolding strip_header
  fits_back w small =
      let whole = copy header (header_length v) (mem_of b.ptr) 0 b.size in
      let size : length (client_datagram old info b) ≡ header_length v + b.size =
        ap length datagram_bytes ∙ length-slice whole 0 (header_length v + b.size) in
      ground (arith, size)

  -- A datagram that the server builds for a remote host with a 16-bit port, with no more payload
  -- than its header is long, is read back by the server's own reader: the address type is the
  -- host's IP version, the destination that the header names is the host, the header has the length
  -- for that version, and when the header is taken off, what is left is the payload.
  pub datagram_back :
      (w : World)
      → info.port < 65536
      → b.size ≤ header_length v
      → (relayed_version (get_type arrived (message_address 0)) ≡ some v)
        × (header_sockaddr arrived v ≡ to info)
        × (message_size arrived 0 ≡ header_length v)
        × ((b' : MemoryBuffer) × (strip_header
                (received_buffer g (client_datagram old info b) buffer_size)
                (message_size arrived 0)
                w
              ≡ ok (b', w))
            × (contents b' ≡ contents b))
  unfolding message_address
  datagram_back w h small =
      let taken_off = received_buffer g (client_datagram old info b) buffer_size in
      (
        arrived_version,
        arrived_sockaddr h,
        arrived-message_size,
        (
          payload_of taken_off (header_length v),
          ap (λ (n : ℕ). strip_header taken_off n w) arrived-message_size ∙ fits_back w small,
          arrived_contents,
        ),
      )
