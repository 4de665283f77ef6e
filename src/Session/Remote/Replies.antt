-- ===== src/Session/Remote/Replies.antt =====
-- What the client is told about its connection: `reply_remote_connection` of
-- src/server/src/sockspp/server/session.cxx as remote_socket.cxx calls it.
use sockspp.Base.{
  ◌+◌, ◌-◌, ◌%◌, ◌<◌, ◌≡◌, refl, arith, length, length-append, get_elem?, true, false, none, some,
  List, [], ◌∷◌, ◌++◌,
}
use sockspp.Core.Enums.{Reply, is_success, reply_byte}
use sockspp.Core.SocketInfo.{IpVersion, Sockaddr, ipv4, ipv6, from}
use sockspp.Core.IpAddress.{IpAddress}
use sockspp.Core.Event.{read_closed}
use sockspp.Core.S5.Layout.{IsRoutable}
use sockspp.System.{Call, CtlOp, Target, Notice, Platform}
use sockspp.Session.{World, RemoteSocket, State, ok}
use sockspp.Session.Calls.{connect, garbage, to_bool, peer_name, unknown_info}
use sockspp.Session.Client.Wire.{wire_reply, send_reply_lem}
use sockspp.Session.Auth.{size_mod}
use sockspp.Session.Remote.{
  address_sockaddr, attempt, could_connect, is_pending, remote_connected, reply_remote_connection,
  try_connect_next, version_type,
}
use sockspp.Session.Remote.Attempts.{get_elem?_middle, with_idx}

pub version_routable : (v : IpVersion) → IsRoutable (version_type v)
version_routable ipv4 = IsRoutable.ipv4
version_routable ipv6 = IsRoutable.ipv6

-- The log after a reply with this address.
abbrev pub replied : Platform → World → Reply → IpAddress → List Call
replied pf w reply a =
    Call.send w.session.client_socket
      (wire_reply (pf.os.garbage w.log 2) reply (version_type a.version) a.storage 0 a.port)
    ∷ w.log

reply_failure :
    (pf : Platform) (w : World) (reply : Reply) (a : IpAddress)
    → w.session.state ≡ State.connecting_remote
    → is_success reply ≡ false
    → a.port < 65536
    → reply_remote_connection pf reply (version_type a.version) a.storage 0 a.port w
      ≡ ok (false, record w { log = replied pf w reply a })
unfolding reply_remote_connection
reply_failure pf w reply a connecting bad small =
    ground (arith, send_reply_lem pf w reply a.storage 0 a.port (version_routable a.version) small)

module _ (pf : Platform) (w : World) (r : RemoteSocket) (a : IpAddress)
    (has : w.session.remote_socket ≡ some r)
    (connecting : w.session.state ≡ State.connecting_remote) (small : a.port < 65536) where
  -- While a session connects, the event after the last address of its list failed ends it with the
  -- reply "unreachable", which names that address, and makes no other call. The port has 16 bits,
  -- and the list is shorter than 2^64.
  pub gives_up :
      (pre : List IpAddress)
      → r.addresses ≡ some (pre ++ a ∷ [])
      → r.connecting_idx ≡ length pre
      → length pre + 1 < size_mod
      → (w' : World) × (try_connect_next pf w ≡ ok (false, w'))
        × (w'.log ≡ replied pf w Reply.unreachable a)
  unfolding try_connect_next is_success reply_byte
  gives_up pre addrs idx fits =
      let n = length pre + 1 in
      let w1 = with_idx w r n in
      let count : length (pre ++ a ∷ []) ≡ n = omega (arith, length-append pre (a ∷ [])) in
      let last = get_elem?_middle pre a [] in
      let reply = reply_failure pf w1 Reply.unreachable a connecting refl small in
      let wrapped : (r.connecting_idx + 1) % size_mod ≡ n = omega (arith, idx) in
      let back : (n + size_mod - 1) % size_mod ≡ length pre = omega arith in
      (record w1 { log = replied pf w Reply.unreachable a }, ground arith, refl)

  -- While a session connects, a `connect` that is refused at once ends the event with the reply
  -- "general failure", which names the address and its port of 16 bits.
  pub attempt_refused :
      is_pending (pf.os.result (Call.connect r.fd (address_sockaddr a) ∷ w.log)) ≡ false
      → (w' : World) × (attempt pf r.fd a w ≡ ok (false, w'))
        × (w'.log
            ≡ replied pf
                (record w { log = Call.connect r.fd (address_sockaddr a) ∷ w.log })
                Reply.general_failure
                a)
  unfolding attempt connect is_success reply_byte
  attempt_refused refused =
      let w1 : World = record w { log = Call.connect r.fd (address_sockaddr a) ∷ w.log } in
      let reply = reply_failure pf w1 Reply.general_failure a connecting refl small in
      (record w1 { log = replied pf w1 Reply.general_failure a }, ground arith, refl)

  -- The session once it is connected to `peer`, before and after the reply.
  abbrev pub named_world : Sockaddr → World
  named_world peer =
      let log1 : List Call = Call.get_peer_name r.fd ∷ w.log in
      let r1 : RemoteSocket = record r {
        is_connected = true;
        addresses = none;
        remote_info = from (unknown_info (pf.os.garbage log1)) peer;
      } in
      record {
        session = record (w.session) { remote_socket = some r1; state = State.connected };
        log =
            Call.notify Notice.remote_connected
            ∷ Call.set_event CtlOp.modify r.fd Target.remote read_closed
            ∷ log1;
      }

  abbrev pub connected_world : Sockaddr → World
  connected_world peer =
      let w1 = named_world peer in record w1 { log = replied pf w1 Reply.success a }

  pub could_connect_world :
      (as' : List IpAddress) (peer : Sockaddr)
      → r.addresses ≡ some as'
      → get_elem? as' r.connecting_idx ≡ some a
      → pf.os.name (Call.get_peer_name r.fd ∷ w.log) ≡ some peer
      → let w' = connected_world peer in could_connect pf w ≡ ok (to_bool (pf.os.result w'.log), w')
  unfolding could_connect reply_remote_connection remote_connected is_success reply_byte peer_name
      garbage
  could_connect_world as' peer addrs at name =
      let reply =
        send_reply_lem pf (named_world peer) Reply.success a.storage 0 a.port
          (version_routable a.version) small in
      ground (arith, reply)

  -- While a session connects, a socket that becomes writable is connected: the reply "success"
  -- names the address that was tried, with its 16-bit port, the poller watches the remote socket
  -- for READ, and the session relays from then on. The peer has a name, and the result is true
  -- unless `send` took no byte.
  pub could_connect_lem :
      (as' : List IpAddress) (peer : Sockaddr)
      → r.addresses ≡ some as'
      → get_elem? as' r.connecting_idx ≡ some a
      → pf.os.name (Call.get_peer_name r.fd ∷ w.log) ≡ some peer
      → (w' : World) × (could_connect pf w ≡ ok (to_bool (pf.os.result w'.log), w'))
        × (w'.session.state ≡ State.connected)
        × (w'.log
            ≡ replied pf
                (record w {
                  log =
                      Call.notify Notice.remote_connected
                      ∷ Call.set_event CtlOp.modify r.fd Target.remote read_closed
                      ∷ Call.get_peer_name r.fd
                      ∷ w.log;
                })
                Reply.success
                a)
  could_connect_lem as' peer addrs at name =
      (connected_world peer, could_connect_world as' peer addrs at name, refl, refl)
