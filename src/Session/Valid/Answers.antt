-- ===== src/Session/Valid/Answers.antt =====
-- Datagrams and DNS answers keep a session valid: `recv_from` of
-- src/server/src/sockspp/server/udp_socket.cxx and `get_response` of dns_socket.cxx.
use sockspp.Base.{
  Mem, ℕ, ◌-◌, ◌≡◌, refl, arith, length, true, Option, none, some, List, [], ◌∷◌, Bool-cases, inl,
  inr, leb, ltb, if◌then◌else◌, ◌==◌,
}
use sockspp.Core.MemoryBuffer.{MemoryBuffer, mem_of}
use sockspp.Core.S5.{get_type, message_address, message_size}
use sockspp.Core.SocketInfo.{Sockaddr, SocketInfo, IpVersion, from}
use sockspp.Core.IpAddress.{IpAddress}
use sockspp.System.{Call, Platform, IoResult, Received, Answer}
use sockspp.Session.{M, pure, ◌>>=◌, World, Session, DnsSocket, UdpSocket, expect, dns_message}
use sockspp.Session.Calls.{recv_from, garbage, received_buffer, unknown_info}
use sockspp.Session.Udp.{
  no_address, buffer_size, Datagram, udp_recv_from, get_udp, put_udp, accept_datagram,
  drop_datagram, strip_header, relay_datagram, relayed_version, is_client,
}
use sockspp.Session.Dns.{take_answer, take_answers, decode_response, get_response}
use sockspp.Session.Valid.{IsValid, After, After-bind}

-- The session is valid, and owns this UDP socket.
abbrev Receives : UdpSocket → World → Type 0
Receives u w = (w.session.udp_socket ≡ some u) × IsValid w.session

accept_After :
    (u : UdpSocket) (b : MemoryBuffer) (info : SocketInfo) (v : IpVersion) (w : World)
    → Receives u w
    → After true (λ _ w'. IsValid w'.session) (accept_datagram u b info v w)
unfolding accept_datagram put_udp strip_header
accept_After u b info v w h =
    let header = message_size (mem_of b.ptr) 0 in
    elim (Bool-cases (ltb b.size header)) [
      | inl e ↦ rw (e, After) refl
      | inr e ↦ elim (Bool-cases (ltb header (b.size - header))) [
        | inl e' ↦ rw (e, e', After) refl
        | inr e' ↦ rw (e, e', After) (ground arith)
      ]
    ]

relay_After :
    (u : UdpSocket) (b : MemoryBuffer) (info : SocketInfo) (addr : Sockaddr) (w : World)
    → Receives u w
    → After true (λ _ w'. IsValid w'.session) (relay_datagram u b info addr w)
unfolding relay_datagram drop_datagram
relay_After u b info addr w h = go (relayed_version (get_type (mem_of b.ptr) (message_address 0)))
  where
    go :
        (o : Option IpVersion)
        → After true
            (λ _ w'. IsValid w'.session)
            ((elim o as (λ _. M Datagram) [
              | none ↦ drop_datagram b addr
              | some v ↦ accept_datagram u b info v
            ])
              w)
    go none = h.1
    go (some v) = accept_After u b info v w h

module _ (pf : Platform) where
  received_After :
      (old : Mem) (u : UdpSocket) (answer : Received) (w : World)
      → Receives u w
      → After true
          (λ _ w'. IsValid w'.session)
          ((elim answer as (λ _. M Datagram) [
            | Received.failed e ↦ pure (record {
              status = IoResult.failed e;
              buffer = received_buffer old [] buffer_size;
              addr = no_address;
            })
            | Received.got bytes addr ↦
                let b = received_buffer old bytes buffer_size in
                let info = from (unknown_info old) addr in
                if leb (length bytes) 10
                then pure
                    (record { status = IoResult.count (length bytes); buffer = b; addr = addr })
                else if is_client u info
                then relay_datagram u b info addr
                else drop_datagram b addr
          ])
            w)
  unfolding drop_datagram
  received_After old u (Received.failed e) w h = h.1
  received_After old u (Received.got bytes addr) w h = elim (Bool-cases (leb (length bytes) 10)) [
    | inl e ↦ rw (e, After) h.1
    | inr e ↦ elim (Bool-cases (is_client u (from (unknown_info old) addr))) [
      | inl e' ↦
          rw (e, e', After) (relay_After u (received_buffer old bytes buffer_size) _ addr w h)
      | inr e' ↦ rw (e, e', After) h.1
    ]
  ]

  own_udp : (u : UdpSocket) (w : World) → Receives u w → After true Receives (get_udp w)
  unfolding get_udp
  own_udp u w h = ground arith

  pub udp_recv_After :
      (u : UdpSocket) (w : World)
      → Receives u w
      → After true (λ _ w'. IsValid w'.session) (udp_recv_from pf w)
  unfolding udp_recv_from garbage recv_from
  udp_recv_After u w h =
      After-bind true Receives (λ _ w'. IsValid w'.session) _ get_udp w (own_udp u w h)
        (λ u' w' h'.
          let w2 : World = record w' { log = Call.recv_from u'.fd ∷ w'.log } in
          received_After (pf.os.garbage w'.log) u' (pf.os.received w2.log) w2 h')

-- The loop leaves the session as it was.
take_answer-After :
    (s : Session) (old : Mem) (port : ℕ) (a : Answer) (w : World)
    → w.session ≡ s
    → After true (λ _ w'. w'.session ≡ s) (take_answer old port a w)
unfolding take_answer
take_answer-After s old port a w h = ground arith

take_answers-After :
    (s : Session) (old : Mem) (port : ℕ) (as' : List Answer) (w : World)
    → w.session ≡ s
    → After true (λ _ w'. w'.session ≡ s) (take_answers old port as' w)
unfolding take_answers
take_answers-After s old port [] w h = h
take_answers-After s old port (a ∷ as') w h =
    let Same = λ (_ : List IpAddress) (w' : World). w'.session ≡ s in
    After-bind true Same Same _ (take_answer old port a) w (take_answer-After s old port a w h)
      (λ first w' h'.
        After-bind true Same Same _ (take_answers old port as') w'
          (take_answers-After s old port as' w' h') (λ others w2 h2. h2))

module _ (pf : Platform) where
  decode_After :
      (s : Session) (d : DnsSocket) (bytes : List ℕ) (w : World)
      → w.session ≡ s
      → After true (λ _ w'. w'.session ≡ s) (decode_response pf d bytes w)
  unfolding decode_response garbage
  decode_After s d bytes w h = go (pf.dns_lib.decode bytes)
    where
      go :
          (o : Option (List Answer))
          → After true
              (λ _ w'. w'.session ≡ s)
              ((expect dns_message o >>= take_answers (pf.os.garbage w.log) d.port) w)
      go none = refl
      go (some as') = take_answers-After s (pf.os.garbage w.log) d.port as' w h

  answered_After :
      (s : Session) (d : DnsSocket) (answer : Received) (w : World)
      → w.session ≡ s
      → After true
          (λ _ w'. w'.session ≡ s)
          ((elim answer as (λ _. M (IoResult × List IpAddress)) [
            | Received.failed e ↦ pure (IoResult.failed e, [])
            | Received.got bytes addr ↦
                let decoded = (do
                  addresses ← decode_response pf d bytes
                  pure (IoResult.count (length bytes), addresses)) in
                if length bytes == 0 then pure (IoResult.count 0, []) else decoded
          ])
            w)
  answered_After s d (Received.failed e) w h = h
  answered_After s d (Received.got bytes addr) w h = elim (Bool-cases (length bytes == 0)) [
    | inl e ↦ rw (e, After) h
    | inr e ↦
        let k =
          After-bind true (λ _ w'. w'.session ≡ s) (λ _ w'. w'.session ≡ s)
            (λ (addresses : List IpAddress). pure (IoResult.count (length bytes), addresses))
            (decode_response pf d bytes) w (decode_After s d bytes w h) (λ _ w' h'. h') in
        rw (e, After) k
  ]

  pub get_response-After :
      (d : DnsSocket) (w : World)
      → After true (λ _ w'. w'.session ≡ w.session) (get_response pf d w)
  unfolding get_response recv_from
  get_response-After d w =
      let w1 : World = record w { log = Call.recv_from d.fd ∷ w.log } in
      answered_After w.session d (pf.os.received w1.log) w1 refl
