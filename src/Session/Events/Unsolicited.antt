-- ===== src/Session/Events/Unsolicited.antt =====
-- A datagram that nobody asked for: `process_remote_event` and `_process_remote` of
-- src/server/src/sockspp/server/session.cxx with `UDPSocket::send_to` of udp_socket.cxx.
use sockspp.Base.{ℕ, ◌<◌, ◌≡◌, arith, length, false, none, some, List, ◌∷◌}
use sockspp.Core.SocketInfo.{Sockaddr, from}
use sockspp.Core.Event.{only_read}
use sockspp.System.{Call, Platform, Received}
use sockspp.Session.{World, State, RemoteSocket, UdpSocket, ok}
use sockspp.Session.Calls.{recv_from, garbage, unknown_info}
use sockspp.Session.Udp.{find_port, udp_send_to}
use sockspp.Session.Events.{process_remote_event}

-- A datagram, not empty, that reaches the remote socket of an association from a port to which the
-- client has sent nothing: it is not delivered, and the handler returns false, which ends the
-- session.
pub unsolicited_ends :
    (pf : Platform) (w : World) (r : RemoteSocket) (u : UdpSocket) (bytes : List ℕ)
    (sender : Sockaddr)
    → w.session.state ≡ State.associated
    → w.session.remote_socket ≡ some r
    → w.session.udp_socket ≡ some u
    → pf.os.received (Call.recv_from r.fd ∷ w.log) ≡ Received.got bytes sender
    → 0 < length bytes
    → find_port
        (from (unknown_info (pf.os.garbage (Call.recv_from r.fd ∷ w.log))) sender).port
        u.port_maps
      ≡ none
    → process_remote_event pf only_read w
      ≡ ok (false, record w { log = Call.recv_from r.fd ∷ w.log })
unfolding process_remote_event udp_send_to recv_from garbage
unsolicited_ends pf w r u bytes sender state remote udp arrives some_bytes unmapped = ground arith
