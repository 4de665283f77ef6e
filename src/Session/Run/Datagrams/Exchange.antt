-- ===== src/Session/Run/Datagrams/Exchange.antt =====
-- A datagram of the client and the answer to it, as src/server/src/sockspp/server/session.cxx and
-- udp_socket.cxx pass them on: from the event of the one socket to the call on the other.
use sockspp.Base.{
  ℕ, ◌+◌, ◌-◌, ◌*◌, ◌≤◌, ◌<◌, ◌≡◌, refl, ap, ◌∙◌, arith, Mem, of_bytes, length, Bool, true, false,
  ◌==◌, Option, some, List, [], ◌∷◌,
}
use sockspp.Core.SocketInfo.{Sockaddr, ipv4, from, to}
use sockspp.Core.S5.{get_type, message_address}
use sockspp.Core.MemoryBuffer.{MemoryBuffer, contents, mem_of}
use sockspp.Core.Event.{only_read}
use sockspp.System.{Call, Platform, IoResult, Received}
use sockspp.Server.Params.{ServerParams}
use sockspp.Session.{World, RemoteSocket, UdpSocket, State, ok, pure}
use sockspp.Session.Calls.{send_to, received_buffer, to_bool, unknown_info}
use sockspp.Session.Execute.Connects.{after}
use sockspp.Session.Remote.{get_remote}
use sockspp.Session.Udp.{
  buffer_size, find_port, udp_recv_from, udp_send_to, Datagram, is_client, client_datagram,
  header_sockaddr, relayed_version, payload_of,
}
use sockspp.Session.Udp.Header.{header}
use sockspp.Session.Udp.Source.{own_bytes, is_client_own}
use sockspp.Session.Udp.Ports.{host_at, relay_status, info, noted, answer_returns, from-host_at}
use sockspp.Session.Events.{process_client, client_in_state, process_udp_event, forward_datagram}
use sockspp.Session.Run.{udp, remote, process_event, run}
use sockspp.Session.Run.Datagrams.{
  wrapped, message_lem, received, stripped, answer_bytes, hears, returns,
}

module _ (pf : Platform) (params : ServerParams) (w : World) (u : UdpSocket) (r : RemoteSocket)
    (a b c d high low : ℕ) (payload : List ℕ) (sender : Sockaddr)
    (associated : w.session.state ≡ State.associated) (has : w.session.udp_socket ≡ some u)
    (owns : w.session.remote_socket ≡ some r) (high_fits : high < 256) (low_fits : low < 256)
    (some_payload : 0 < length payload) (small : length payload ≤ 10) where
  abbrev bytes : List ℕ
  bytes = wrapped (a ∷ b ∷ c ∷ d ∷ []) high low payload

  abbrev destination : Sockaddr
  destination = host_at ipv4 (a ∷ b ∷ c ∷ d ∷ []) (high + 256 * low)

  abbrev outgoing : List Call
  outgoing = Call.send_to r.fd payload (some destination) ∷ Call.recv_from u.fd ∷ w.log

  abbrev relayed : World
  relayed = record (noted pf w u bytes sender ipv4) { log = outgoing }

  forwards :
      (buffer : MemoryBuffer) (addr : Option Sockaddr) (w1 : World)
      → w1.session.state ≡ State.associated
      → w1.session.remote_socket ≡ some r
      → process_client pf params buffer addr w1
        ≡ ok (
          to_bool (pf.os.result (Call.send_to r.fd (contents buffer) addr ∷ w1.log)),
          record w1 { log = Call.send_to r.fd (contents buffer) addr ∷ w1.log },
        )
  unfolding process_client client_in_state forward_datagram get_remote send_to
  forwards buffer addr w1 st has_remote = rw (st, has_remote) refl

  is_ipv4_datagram :
      (old : Mem) → relayed_version (get_type (of_bytes bytes old) (message_address 0)) ≡ some ipv4
  unfolding get_type message_address sockspp.Core.Enums.to_addr_type
  is_ipv4_datagram old = ground arith

  goes_out :
      pf.os.received (Call.recv_from u.fd ∷ w.log) ≡ Received.got bytes sender
      → is_client u (info pf w u bytes sender) ≡ true
      → to_bool (pf.os.result outgoing) ≡ true
      → process_event pf params (udp only_read) w ≡ ok (true, relayed)
  unfolding process_event process_udp_event
  goes_out came mine sent =
      let old = pf.os.garbage w.log in
      let (dest, header) = message_lem a b c d high low payload old high_fits low_fits in
      let (taken, back) =
        answer_returns pf w u bytes sender has came (omega arith) ipv4 ipv4 []
          (received a b c d high low payload old) mine (is_ipv4_datagram old)
          (omega (arith, header)) (omega (arith, header)) in
      let w1 = noted pf w u bytes sender ipv4 in
      let held = stripped a b c d high low payload old in
      let all = received a b c d high low payload old in
      let datagram : ℕ → Sockaddr → Datagram = λ h x. record {
        status = IoResult.count (length bytes - h);
        buffer = payload_of all h;
        addr = x;
      } in
      let full : (length bytes - 10 == 0) ≡ false = ground arith in
      let there = header_sockaddr (mem_of all.ptr) ipv4 in
      after (udp_recv_from pf) _ w (
        taken
        ∙ ap (λ (h : ℕ). ok (datagram h there, w1)) header
        ∙ ap (λ (x : Sockaddr). ok (datagram 10 x, w1)) dest)
      ∙ rw full (
          forwards (payload_of all 10) (some destination) w1 associated owns ∙ rw (held, sent) refl)

  module _ (answer answered_from : List ℕ) (some_answer : 0 < length answer) where
    abbrev answerer : Sockaddr
    answerer = host_at ipv4 answered_from (high + 256 * low)

    abbrev arrived : World
    arrived = record relayed { log = Call.recv_from r.fd ∷ outgoing }

    abbrev noted_socket : UdpSocket
    noted_socket = record u {
      port_maps =
          (
            (header_sockaddr (of_bytes bytes (pf.os.garbage w.log)) ipv4).port,
            (info pf w u bytes sender).port,
          )
          ∷ u.port_maps;
    }

    is_noted :
        find_port
          (from (unknown_info (pf.os.garbage arrived.log)) answerer).port
          noted_socket.port_maps
        ≡ some (info pf w u bytes sender).port
    unfolding find_port
    is_noted =
        let (dest, header) =
          message_lem a b c d high low payload (pf.os.garbage w.log) high_fits low_fits in
        let port = from-host_at (pf.os.garbage arrived.log) ipv4 answered_from (high + 256 * low) in
        let key = ap (λ (x : Sockaddr). x.port) dest in ground (arith, port, key)

    abbrev reply_log : List Call
    reply_log =
        Call.send_to u.fd
          (client_datagram (pf.os.garbage arrived.log)
            (from (unknown_info (pf.os.garbage arrived.log)) answerer)
            (received_buffer (pf.os.garbage outgoing) answer buffer_size))
          (some (to (record u.client_info { port = (info pf w u bytes sender).port })))
        ∷ arrived.log

    sent_on :
        (res : IoResult) → to_bool res ≡ true → to_bool (relay_status res (length answer)) ≡ true
    sent_on (IoResult.count k) h = ground (arith, h)
    sent_on (IoResult.failed e) h = refl

    comes_back :
        pf.os.received (Call.recv_from r.fd ∷ outgoing) ≡ Received.got answer answerer
        → to_bool (pf.os.result reply_log) ≡ true
        → process_event pf params (remote only_read) relayed
          ≡ ok (true, record relayed { log = reply_log })
    unfolding process_event
    comes_back came sent =
        let b = received_buffer (pf.os.garbage outgoing) answer buffer_size in
        let back =
          returns pf b answerer arrived noted_socket (info pf w u bytes sender).port refl
            is_noted in
        let answered : World = record relayed { log = reply_log } in
        hears pf relayed r answer answerer associated owns some_answer came
        ∙ after (udp_send_to pf b answerer) (λ res. pure (to_bool res)) arrived back
        ∙ ap (λ (v : Bool). ok (v, answered)) (sent_on (pf.os.result reply_log) sent)

-- An association with an IPv4 client that is up, on a system where neither of the two sends returns
-- 0: when a datagram from the client's address and any port arrives, wrapped for an IPv4 address and
-- port, the payload alone goes to that address and port; when an IPv4 host then answers from this
-- port, its answer goes to the client, to the port that the client's datagram came from, wrapped
-- with the address and the port of the host. Payload and answer are not empty, and the payload has
-- at most ten bytes, the length of its header: a longer one is moved by a memcpy of overlapping
-- regions. The calls are these and no others.
pub exchange :
    (pf : Platform) (params : ServerParams) (w : World) (u : UdpSocket) (r : RemoteSocket)
    (a b c d high low client_port a' b' c' d' : ℕ) (payload answer : List ℕ)
    → w.session.state ≡ State.associated
    → w.session.udp_socket ≡ some u
    → u.client_info.ip_version ≡ ipv4
    → w.session.remote_socket ≡ some r
    → high < 256
    → low < 256
    → 0 < length payload
    → length payload ≤ 10
    → 0 < length answer
    → let sender = host_at ipv4 (own_bytes ipv4 u.client_info.ip) client_port in
      let answerer = host_at ipv4 (a' ∷ b' ∷ c' ∷ d' ∷ []) (high + 256 * low) in
      let client = to (record u.client_info { port = client_port }) in
      let heard : List Call = Call.recv_from u.fd ∷ w.log in
      let asked : List Call =
        Call.send_to r.fd payload (some (host_at ipv4 (a ∷ b ∷ c ∷ d ∷ []) (high + 256 * low)))
        ∷ heard in
      let told : List Call =
        Call.send_to u.fd (wrapped (a' ∷ b' ∷ c' ∷ d' ∷ []) high low answer) (some client)
        ∷ Call.recv_from r.fd
        ∷ asked in
      pf.os.received heard ≡ Received.got (wrapped (a ∷ b ∷ c ∷ d ∷ []) high low payload) sender
      → to_bool (pf.os.result asked) ≡ true
      → pf.os.received (Call.recv_from r.fd ∷ asked) ≡ Received.got answer answerer
      → to_bool (pf.os.result told) ≡ true
      → (w' : World) × (run pf params (udp only_read ∷ remote only_read ∷ []) w ≡ ok (true, w'))
        × (w'.session.state ≡ State.associated)
        × (w'.log ≡ told)
unfolding run
exchange pf params w u r a b c d high low client_port a' b' c' d' payload answer st has is_v4 owns
      hi lo some_payload small some_answer came sent came' sent' =
    let mine = is_client_own u (pf.os.garbage w.log) ipv4 client_port is_v4 in
    let sender = host_at ipv4 (own_bytes ipv4 u.client_info.ip) client_port in
    let from_ip = a' ∷ b' ∷ c' ∷ d' ∷ [] in
    let w1 =
      relayed pf params w u r a b c d high low payload sender st has owns hi lo some_payload
        small in
    let w2 =
      arrived pf params w u r a b c d high low payload sender st has owns hi lo some_payload small
        answer from_ip some_answer in
    let log2 =
      reply_log pf params w u r a b c d high low payload sender st has owns hi lo some_payload small
        answer from_ip some_answer in
    let answers_from =
      from-host_at (pf.os.garbage w.log) ipv4 (own_bytes ipv4 u.client_info.ip) client_port in
    let g = pf.os.garbage w2.log in
    let wraps = answer_bytes g g (pf.os.garbage w1.log) a' b' c' d' high low answer hi lo in
    let tells = λ (bs : List ℕ) (port : ℕ).
      (Call.send_to u.fd bs (some (to (record u.client_info { port = port }))) ∷ w2.log) in
    let heard = wrapped (a ∷ b ∷ c ∷ d ∷ []) high low payload in
    let same =
      ap (λ (bs : List ℕ). tells bs (info pf w u heard sender).port) wraps
      ∙ ap (tells (wrapped from_ip high low answer)) answers_from in
    let out =
      goes_out pf params w u r a b c d high low payload sender st has owns hi lo some_payload small
        came mine sent in
    let back =
      comes_back pf params w u r a b c d high low payload sender st has owns hi lo some_payload
        small answer from_ip some_answer came'
        (ap (λ (l : List Call). to_bool (pf.os.result l)) same ∙ sent') in
    (
      record w1 { log = log2 },
      after (process_event pf params (udp only_read)) _ w out
          ∙ after (process_event pf params (remote only_read)) _ w1 back,
      st,
      same,
    )
