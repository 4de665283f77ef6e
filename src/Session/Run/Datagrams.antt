-- ===== src/Session/Run/Datagrams.antt =====
-- The datagrams of an association as bytes, and what the handlers of
-- src/server/src/sockspp/server/session.cxx and udp_socket.cxx do with one that comes back.
pub mod Exchange
use sockspp.Base.{
  ℕ, ◌+◌, ◌-◌, ◌*◌, ◌<◌, ◌≡◌, refl, ap, ◌∙◌, arith, Mem, of_bytes, slice, slice_last, slice_ext,
  slice-append, slice-of_bytes, write, copy, ◌/◌, ◌%◌, length, true, false, ◌==◌, Option, some,
  List, [], ◌∷◌, ◌++◌,
}
use sockspp.Core.SocketInfo.{Sockaddr, SocketInfo, ipv4, from, to}
use sockspp.Core.S5.{get_type, get_size, get_port, get_address, message_address, message_size}
use sockspp.Core.MemoryBuffer.{MemoryBuffer, contents, mem_of, slice-copy}
use sockspp.Core.Event.{only_read}
use sockspp.System.{Call, Platform, Received}
use sockspp.Session.{World, RemoteSocket, UdpSocket, State, ok, pure, expect, null_pointer, ◌>>=◌}
use sockspp.Session.Calls.{recv_from, send_to, garbage, received_buffer, to_bool, unknown_info}
use sockspp.Session.Execute.Connects.{after}
use sockspp.Session.Remote.{get_remote}
use sockspp.Session.Udp.{
  buffer_size, find_port, udp_send_to, client_datagram, header_sockaddr, payload_of,
}
use sockspp.Core.S5.Layout.{fill_at, filled}
use sockspp.Session.Remote.{version_type}
use sockspp.Session.Remote.Replies.{version_routable}
use sockspp.Session.Udp.Header.{header, datagram_bytes}
use sockspp.Session.Udp.Ports.{host_at, relay_status}
use sockspp.Session.Events.{process_remote_event, remote_receive, receive_in_state, remote_in_state}

-- A datagram for an IPv4 address and a port, as the client wraps it.
abbrev pub wrapped : List ℕ → ℕ → ℕ → List ℕ → List ℕ
wrapped ip high low payload = 0 ∷ 0 ∷ 0 ∷ 1 ∷ (ip ++ high ∷ low ∷ payload)

module _ (a b c d high low : ℕ) (payload : List ℕ) (old : Mem) where
  abbrev pub message : Mem
  message = of_bytes (wrapped (a ∷ b ∷ c ∷ d ∷ []) high low payload) old

  pub message_lem :
      (high < 256)
      → (low < 256)
      → (header_sockaddr message ipv4 ≡ host_at ipv4 (a ∷ b ∷ c ∷ d ∷ []) (high + 256 * low))
        × (message_size message 0 ≡ 10)
  unfolding header_sockaddr message_size message_address get_address get_size get_port slice
      sockspp.Core.Enums.to_addr_type get_type
  message_lem hi lo = (ground arith, ground arith)

  abbrev pub received : MemoryBuffer
  received = received_buffer old (wrapped (a ∷ b ∷ c ∷ d ∷ []) high low payload) buffer_size

  pub stripped : contents (payload_of received 10) ≡ payload
  unfolding contents payload_of
  stripped =
      let size : length (wrapped (a ∷ b ∷ c ∷ d ∷ []) high low payload) - 10 ≡ length payload =
        omega arith in
      rw size (
        slice-copy message message 10 (length payload)
        ∙ slice_last (0 ∷ 0 ∷ 0 ∷ 1 ∷ a ∷ b ∷ c ∷ d ∷ high ∷ []) low payload old 10 (omega arith))

module _ (old g rest : Mem) (a b c d high low : ℕ) (answer : List ℕ) (high_fits : high < 256)
    (low_fits : low < 256) where
  abbrev pub from_host : SocketInfo
  from_host = from (unknown_info g) (host_at ipv4 (a ∷ b ∷ c ∷ d ∷ []) (high + 256 * low))

  abbrev pub answer_buffer : MemoryBuffer
  answer_buffer = received_buffer rest answer buffer_size

  abbrev whole : Mem
  whole =
      copy (header old g from_host answer_buffer) 10 (mem_of answer_buffer.ptr) 0 (length answer)

  front : slice whole 0 10 ≡ wrapped (a ∷ b ∷ c ∷ d ∷ []) high low []
  unfolding slice from sockspp.Core.Enums.addr_type_byte
  front =
      let start : Mem = write (write (write old 0 0) 1 0) 2 0 in
      let q1 : (high + 256 * low) % 256 ≡ high = omega arith in
      let q2 : (high + 256 * low) / 256 ≡ low = omega arith in
      slice_ext whole (filled start 3 (version_type ipv4) from_host.ip 0 from_host.port true) 0 0 10
        (λ i lt.
          ground
            (arith, fill_at start 3 from_host.ip 0 from_host.port true i (version_routable ipv4)))
      ∙ rw (q1, q2) refl

  back : slice whole 10 (length answer) ≡ answer
  back =
      slice_ext whole (mem_of answer_buffer.ptr) 10 0 (length answer) (λ i lt. ground arith)
      ∙ slice-of_bytes answer rest

  -- What the client gets is wrapped in the same way as what it sends.
  pub answer_bytes :
      client_datagram old from_host answer_buffer ≡ wrapped (a ∷ b ∷ c ∷ d ∷ []) high low answer
  unfolding from
  answer_bytes =
      datagram_bytes old g from_host answer_buffer
      ∙ slice-append whole 0 10 (length answer)
      ∙ ap (λ bs. bs ++ slice whole 10 (length answer)) front
      ∙ ap (λ bs. wrapped (a ∷ b ∷ c ∷ d ∷ []) high low [] ++ bs) back

module _ (pf : Platform) where
  pub hears :
      (w : World) (r : RemoteSocket) (bytes : List ℕ) (host : Sockaddr)
      → w.session.state ≡ State.associated
      → w.session.remote_socket ≡ some r
      → 0 < length bytes
      → pf.os.received (Call.recv_from r.fd ∷ w.log) ≡ Received.got bytes host
      → process_remote_event pf only_read w
        ≡ (do
          res ← udp_send_to pf (received_buffer (pf.os.garbage w.log) bytes buffer_size) host
          pure (to_bool res))
            (record w { log = Call.recv_from r.fd ∷ w.log })
  unfolding process_remote_event remote_receive receive_in_state remote_in_state get_remote garbage
      recv_from
  hears w r bytes host st owns some_bytes came =
      let full : (length bytes == 0) ≡ false = ground arith in
      let w1 : World = record w { log = Call.recv_from r.fd ∷ w.log } in
      let b = received_buffer (pf.os.garbage w.log) bytes buffer_size in
      let receives : receive_in_state pf w.session.state r.fd w
          ≡ ok (some (Received.got bytes host), w1) =
        ap (λ (x : State). receive_in_state pf x r.fd w) st
        ∙ ap (λ (x : Received). ok (some x, w1)) came in
      after get_remote _ w (ap (λ (x : Option RemoteSocket). expect null_pointer x w) owns)
      ∙ after (receive_in_state pf w.session.state r.fd) _ w receives
      ∙ rw full (ap (λ (x : State). remote_in_state pf x b host w1) st)

  pub returns :
      (buffer : MemoryBuffer) (host : Sockaddr) (w1 : World) (u1 : UdpSocket) (port : ℕ)
      → w1.session.udp_socket ≡ some u1
      → find_port (from (unknown_info (pf.os.garbage w1.log)) host).port u1.port_maps ≡ some port
      → let L =
          Call.send_to u1.fd
            (client_datagram
              (pf.os.garbage w1.log)
              (from (unknown_info (pf.os.garbage w1.log)) host)
              buffer)
            (some (to (record u1.client_info { port = port })))
          ∷ w1.log in
        udp_send_to pf buffer host w1
        ≡ ok (relay_status (pf.os.result L) buffer.size, record w1 { log = L })
  unfolding udp_send_to garbage send_to
  returns buffer host w1 u1 port has1 found = ground (arith, found)
