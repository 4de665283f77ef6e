-- ===== src/Session/Execute/Resolved.antt =====
-- What follows the answer to a DNS query: `process_dns_event` of
-- src/server/src/sockspp/server/session.cxx for a client that asked for a connection.
use sockspp.Base.{
  ℕ, ◌<◌, ◌≡◌, refl, sym, ap, ◌∙◌, arith, htons, length, get_elem?, get_or, true, false, ◌==◌,
  Option, some, List, [], ◌∷◌, map,
}
use sockspp.Core.Enums.{Command}
use sockspp.Core.SocketInfo.{Sockaddr, IpVersion, ipv4, ipv6, family_of}
use sockspp.Core.IpAddress.{IpAddress}
use sockspp.Core.Event.{only_read, write_closed}
use sockspp.System.{Answer, Call, CtlOp, Notice, Platform, Received, Target}
use sockspp.Server.Params.{ServerParams}
use sockspp.Session.{World, DnsSocket, RemoteSocket, State, ok, expect, out_of_range}
use sockspp.Session.Calls.{open_socket, garbage, connect}
use sockspp.Session.Remote.{
  address_sockaddr, is_pending, new_remote, remote_error, try_connect_next,
}
use sockspp.Session.Dns.{get_response}
use sockspp.Session.Dns.Answers.{Gives, get_response_lem}
use sockspp.Session.Execute.{do_connect, do_command, run_command}
use sockspp.Session.Execute.Connects.{opening, connecting, after}
use sockspp.Session.Events.{process_dns_event}
use sockspp.Session.Run.{dns, process_event}

same_family : (v v' : IpVersion) → family_of v ≡ family_of v' → v ≡ v'
same_family ipv4 ipv4 e = refl
same_family ipv4 ipv6 e = ground arith
same_family ipv6 ipv4 e = ground arith
same_family ipv6 ipv6 e = refl

module _ (pf : Platform) (params : ServerParams) (w : World) where
  abbrev attempting : IpAddress → List IpAddress → ℕ → World
  attempting a rest fd =
      let old = pf.os.garbage (Call.notify Notice.remote_socket_created ∷ opening w a.version) in
      let r : RemoteSocket = new_remote old (some fd) (some (a ∷ rest)) in
      record {
        session = record (w.session) {
          remote_socket = some (record r { connecting_idx = 0 });
          state = State.connecting_remote;
        };
        log =
            Call.set_event CtlOp.add (some fd) Target.remote write_closed
            ∷ connecting params w a.version fd (address_sockaddr a);
      }

  connect_first :
      (a : IpAddress) (rest : List IpAddress) (fd : ℕ)
      → pf.os.opened (opening w a.version) ≡ some fd
      → is_pending (pf.os.result (connecting params w a.version fd (address_sockaddr a))) ≡ true
      → do_connect pf params a.version (a ∷ rest) w ≡ ok (true, attempting a rest fd)
  unfolding do_connect open_socket garbage try_connect_next connect new_remote remote_error
  connect_first a rest fd opened pending = ground arith

  command_first :
      (a : IpAddress) (rest : List IpAddress) (fd : ℕ)
      → w.session.command ≡ Command.connect
      → pf.os.opened (opening w a.version) ≡ some fd
      → is_pending (pf.os.result (connecting params w a.version fd (address_sockaddr a))) ≡ true
      → do_command pf params (some (a ∷ rest)) w ≡ ok (true, attempting a rest fd)
  unfolding do_command run_command
  command_first a rest fd asked opened pending =
      ap (λ (c : Command). run_command pf params c a.version (a ∷ rest) w) asked
      ∙ connect_first a rest fd opened pending

-- A host of this version at a port in host order.
abbrev pub resolved_host : IpVersion → List ℕ → ℕ → Sockaddr
resolved_host v bytes port = record { family = family_of v; addr = bytes; port = htons port }

first_of :
    (as' : List IpAddress) (v : IpVersion) (bytes : List ℕ) (port : ℕ) {l : List Sockaddr}
    → map address_sockaddr as' ≡ resolved_host v bytes port ∷ l
    → (a : IpAddress) × (rest : List IpAddress) × (as' ≡ a ∷ rest)
      × (a.version ≡ v)
      × (address_sockaddr a ≡ resolved_host v bytes port)
unfolding address_sockaddr
first_of [] v bytes port same = absurd (ground arith)
first_of (a ∷ rest) v bytes port same =
    let first : address_sockaddr a ≡ resolved_host v bytes port =
      ap (λ (xs : List Sockaddr). get_or xs 0 (address_sockaddr a)) same in
    (a, rest, refl, same_family a.version v (ap (λ (x : Sockaddr). x.family) first), first)

-- A remote socket that tries the first of these addresses.
abbrev pub HasAddresses : List Sockaddr → Option RemoteSocket → Type 0
HasAddresses l o =
    (r : RemoteSocket) × (as' : List IpAddress) × (o ≡ some r)
    × (r.addresses ≡ some as')
    × (map address_sockaddr as' ≡ l)
    × (r.connecting_idx ≡ 0)
    × (r.is_connected ≡ false)

-- A client that asked for a connection, and an answer to the query for the name that can be decoded
-- and whose first usable record is of class IN and type A or AAAA: a socket of that IP version is
-- opened and connected to the address of the record and the port of the request; the remote socket
-- keeps the usable addresses, the first of which is the one that is tried, the later ones for
-- further attempts; and the session waits for the connection. The system can open the socket, and
-- the connection is pending or there. The calls are these and no others.
pub resolved_connects :
    (pf : Platform) (params : ServerParams) (w : World) (i fd : ℕ) (d : DnsSocket) (bytes : List ℕ)
    (sender : Sockaddr) (answers : List Answer) (v : IpVersion) (first : List ℕ) {l : List Sockaddr}
    → w.session.command ≡ Command.connect
    → get_elem? w.session.dns_sockets i ≡ some d
    → pf.os.received (Call.recv_from d.fd ∷ w.log) ≡ Received.got bytes sender
    → 0 < length bytes
    → pf.dns_lib.decode bytes ≡ some answers
    → Gives d.port answers (resolved_host v first d.port ∷ l)
    → let w0 : World = record w { log = Call.remove_event d.fd ∷ Call.recv_from d.fd ∷ w.log } in
      let dest = resolved_host v first d.port in
      pf.os.opened (opening w0 v) ≡ some fd
      → is_pending (pf.os.result (connecting params w0 v fd dest)) ≡ true
      → (w' : World) × (process_event pf params (dns only_read i) w ≡ ok (true, w'))
        × (w'.session.state ≡ State.connecting_remote)
        × HasAddresses (dest ∷ l) w'.session.remote_socket
        × (w'.log
            ≡ Call.set_event CtlOp.add (some fd) Target.remote write_closed
              ∷ connecting params w0 v fd dest)
unfolding process_event process_dns_event new_remote
resolved_connects pf params w i fd d bytes sender answers v first asked at came some_bytes decoded
      gives opened pending =
    let w0 : World = record w { log = Call.remove_event d.fd ∷ Call.recv_from d.fd ∷ w.log } in
    let (as', done, same) =
      get_response_lem pf d w bytes sender answers came some_bytes decoded gives in
    let (a, rest, is_first, version, there) = first_of as' v first d.port same in
    let full : (length bytes == 0) ≡ false = ground arith in
    let calls =
      ap (λ (x : IpVersion). connecting params w0 x fd (address_sockaddr a)) version
      ∙ ap (connecting params w0 v fd) there in
    let goes =
      command_first pf params w0 a rest fd asked
        (ap (λ (x : IpVersion). pf.os.opened (opening w0 x)) version ∙ opened)
        (ap (λ (x : List Call). is_pending (pf.os.result x)) calls ∙ pending) in
    (
      attempting pf params w0 a rest fd,
      after (expect out_of_range (get_elem? w.session.dns_sockets i)) _ w
            (ap (λ (x : Option DnsSocket). expect out_of_range x w) at)
          ∙ after (get_response pf d) _ w done
          ∙ rw full (ap (λ (x : List IpAddress). do_command pf params (some x) w0) is_first ∙ goes),
      refl,
      (
        record (new_remote
            (pf.os.garbage (Call.notify Notice.remote_socket_created ∷ opening w0 a.version))
            (some fd) (some (a ∷ rest))) { connecting_idx = 0 },
        a ∷ rest,
        refl,
        refl,
        ap (map address_sockaddr) (sym is_first) ∙ same,
        refl,
        refl,
      ),
      ap (λ (x : List Call). Call.set_event CtlOp.add (some fd) Target.remote write_closed ∷ x)
          calls,
    )
