-- ===== src/Session/Execute/Associates.antt =====
-- A UDP association: `_associate` of src/server/src/sockspp/server/session.cxx.
use sockspp.Base.{
  ℕ, ◌<◌, ◌≡◌, refl, arith, Mem, of_bytes, htons, true, false, none, some, List, [], ◌∷◌,
}
use sockspp.Core.Enums.{Reply}
use sockspp.Core.SocketInfo.{IpVersion, ipv4, ipv6, from, to}
use sockspp.Core.Event.{read_closed}
use sockspp.System.{Fd, Call, CtlOp, Target, Platform}
use sockspp.Session.{World, State, ok}
use sockspp.Session.Calls.{bound_name, bind, garbage, to_bool, is_failed, unknown_info}
use sockspp.Session.Client.Wire.{wire_reply, send_reply_lem}
use sockspp.Session.Remote.{version_type, new_remote}
use sockspp.Session.Remote.Replies.{version_routable}
use sockspp.Session.Udp.Ports.{host_at}
use sockspp.Session.Execute.{any_port, associate}

from_host :
    (g : Mem) (v : IpVersion) (addr : List ℕ) (port : ℕ)
    → from (unknown_info g) (host_at v addr port)
      ≡ record { ip = of_bytes addr g; port = port; ip_version = v }
unfolding from
from_host g ipv4 addr port = refl
from_host g ipv6 addr port = refl

module _ (pf : Platform) (w : World) (cl rm : Fd) where
  -- The calls up to the reply: the local address of the client's connection, a socket bound to it
  -- at a free port, and the address that it got.
  abbrev pub binding : IpVersion → List ℕ → List Call
  binding v addr =
      let log = Call.get_sock_name w.session.client_socket ∷ w.log in
      Call.bind cl (
        any_port (to (record { ip = of_bytes addr (pf.os.garbage log); port = 0; ip_version = v })))
      ∷ log

  abbrev pub announcing : IpVersion → List ℕ → IpVersion → List ℕ → ℕ → List Call
  announcing v addr bv baddr port =
      let log = Call.get_sock_name cl ∷ binding v addr in
      let g = pf.os.garbage log in
      Call.send w.session.client_socket
        (wire_reply (g 2) Reply.success (version_type bv) (of_bytes baddr g) 0 (htons port))
      ∷ log

  -- A UDP association, when the calls succeed and the reply is not cut to nothing: the client's
  -- socket is bound to the address that the client reached, the reply names the address and the
  -- 16-bit port that it got, and from then on the session is associated, its table of ports empty,
  -- with both sockets watched for READ.
  pub associates :
      (v bv : IpVersion) (addr baddr : List ℕ) (lport port : ℕ)
      → pf.os.name (Call.get_sock_name w.session.client_socket ∷ w.log)
        ≡ some (host_at v addr lport)
      → is_failed (pf.os.result (binding v addr)) ≡ false
      → pf.os.name (Call.get_sock_name cl ∷ binding v addr) ≡ some (host_at bv baddr port)
      → port < 65536
      → to_bool (pf.os.result (announcing v addr bv baddr port)) ≡ true
      → (w' : World) × (associate pf cl rm w ≡ ok (true, w'))
        × (w'.session.state ≡ State.associated)
        × (w'.session.udp_socket
            ≡ some (record { fd = cl; port_maps = []; client_info = w.session.peer_info }))
        × (w'.log
            ≡ Call.set_event CtlOp.add rm Target.remote read_closed
              ∷ Call.set_blocking rm false
              ∷ Call.set_event CtlOp.add cl Target.udp read_closed
              ∷ Call.set_blocking cl false
              ∷ announcing v addr bv baddr port)
  unfolding associate bind bound_name garbage new_remote to
  associates v bv addr baddr lport port local bound name small sent =
      let log0 : List Call = Call.get_sock_name w.session.client_socket ∷ w.log in
      let log1 : List Call = Call.get_sock_name cl ∷ binding v addr in
      let g = pf.os.garbage log1 in
      let here = from_host (pf.os.garbage log0) v addr lport in
      let there = from_host g bv baddr port in
      let reply =
        send_reply_lem pf (record w { log = log1 }) Reply.success (of_bytes baddr g) 0 (htons port)
          (version_routable bv) (omega arith) in
      (
        record {
          session = record (w.session) {
            udp_socket =
                some (record { fd = cl; port_maps = []; client_info = w.session.peer_info });
            remote_socket = some (
                new_remote
                  (pf.os.garbage (
                    Call.set_event CtlOp.add cl Target.udp read_closed
                    ∷ Call.set_blocking cl false
                    ∷ announcing v addr bv baddr port))
                  rm none);
            state = State.associated;
          };
          log =
              Call.set_event CtlOp.add rm Target.remote read_closed
              ∷ Call.set_blocking rm false
              ∷ Call.set_event CtlOp.add cl Target.udp read_closed
              ∷ Call.set_blocking cl false
              ∷ announcing v addr bv baddr port;
        },
        ground (arith, here, there, reply),
        refl,
        refl,
        refl,
      )
