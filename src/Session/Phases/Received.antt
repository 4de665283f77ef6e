-- ===== src/Session/Phases/Received.antt =====
-- A datagram that `recv_from` of src/server/src/sockspp/server/udp_socket.cxx takes leaves the state
-- of the session as it was.
use sockspp.Base.{
  Mem, ◌-◌, ◌≡◌, arith, length, Option, none, some, [], ◌∷◌, Bool-cases, inl, inr, leb, ltb,
  if◌then◌else◌,
}
use sockspp.Core.MemoryBuffer.{MemoryBuffer, mem_of}
use sockspp.Core.S5.{get_type, message_address, message_size}
use sockspp.Core.SocketInfo.{Sockaddr, SocketInfo, IpVersion, from}
use sockspp.System.{Call, Platform, IoResult, Received}
use sockspp.Session.{M, pure, World, State, UdpSocket}
use sockspp.Session.Calls.{recv_from, garbage, received_buffer, unknown_info}
use sockspp.Session.Udp.{
  no_address, buffer_size, Datagram, udp_recv_from, get_udp, put_udp, accept_datagram,
  drop_datagram, strip_header, relay_datagram, relayed_version, is_client,
}
use sockspp.Session.Phases.{Leaves, Leaves-bind}

-- The state is still this one.
abbrev Remains : {A : Type 0} → State → A → State → Type 0
Remains st _ s = s ≡ st

accept-Leaves :
    (st : State) (u : UdpSocket) (b : MemoryBuffer) (info : SocketInfo) (v : IpVersion) (w : World)
    → w.session.state ≡ st
    → Leaves (Remains st) (accept_datagram u b info v w)
unfolding accept_datagram put_udp strip_header
accept-Leaves st u b info v w h =
    let header = message_size (mem_of b.ptr) 0 in
    elim (Bool-cases (ltb b.size header)) [
      | inl e ↦ rw (e, Leaves) tt
      | inr e ↦ elim (Bool-cases (ltb header (b.size - header))) [
        | inl e' ↦ rw (e, e', Leaves) tt
        | inr e' ↦ rw (e, e', Leaves) h
      ]
    ]

relay-Leaves :
    (st : State) (u : UdpSocket) (b : MemoryBuffer) (info : SocketInfo) (addr : Sockaddr)
    (w : World)
    → w.session.state ≡ st
    → Leaves (Remains st) (relay_datagram u b info addr w)
unfolding relay_datagram drop_datagram
relay-Leaves st u b info addr w h =
    go (relayed_version (get_type (mem_of b.ptr) (message_address 0)))
  where
    go :
        (o : Option IpVersion)
        → Leaves (Remains st) (
            (elim o as (λ _. M Datagram) [
              | none ↦ drop_datagram b addr
              | some v ↦ accept_datagram u b info v
            ])
              w)
    go none = h
    go (some v) = accept-Leaves st u b info v w h

module _ (pf : Platform) where
  received-Leaves :
      (st : State) (old : Mem) (u : UdpSocket) (answer : Received) (w : World)
      → w.session.state ≡ st
      → Leaves (Remains st) (
          (elim answer as (λ _. M Datagram) [
            | Received.failed e ↦ pure (record {
              status = IoResult.failed e;
              buffer = received_buffer old [] buffer_size;
              addr = no_address;
            })
            | Received.got bytes addr ↦
                let b = received_buffer old bytes buffer_size in
                let info = from (unknown_info old) addr in
                if leb (length bytes) 10
                then pure
                    (record { status = IoResult.count (length bytes); buffer = b; addr = addr })
                else if is_client u info
                then relay_datagram u b info addr
                else drop_datagram b addr
          ])
            w)
  unfolding drop_datagram
  received-Leaves st old u (Received.failed e) w h = h
  received-Leaves st old u (Received.got bytes addr) w h =
      elim (Bool-cases (leb (length bytes) 10)) [
        | inl e ↦ rw (e, Leaves) h
        | inr e ↦ elim (Bool-cases (is_client u (from (unknown_info old) addr))) [
          | inl e' ↦
              rw (e, e', Leaves)
                (relay-Leaves st u (received_buffer old bytes buffer_size) _ addr w h)
          | inr e' ↦ rw (e, e', Leaves) h
        ]
      ]

  own_udp-Leaves : (w : World) → Leaves (Remains {A = UdpSocket} w.session.state) (get_udp w)
  unfolding get_udp
  own_udp-Leaves w = ground arith

  pub udp_recv-Leaves :
      (w : World) → Leaves (λ (d : Datagram) s. s ≡ w.session.state) (udp_recv_from pf w)
  unfolding udp_recv_from garbage recv_from
  udp_recv-Leaves w =
      Leaves-bind (Remains {A = UdpSocket} w.session.state) (Remains w.session.state) _ get_udp w
        (own_udp-Leaves w)
        (λ u w' h.
          let w2 : World = record w' { log = Call.recv_from u.fd ∷ w'.log } in
          received-Leaves w.session.state (pf.os.garbage w'.log) u (pf.os.received w2.log) w2 h)
