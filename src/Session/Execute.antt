-- ===== src/Session/Execute.antt =====
-- The commands carried out: `_do_command`, `_connect_remote` and `_associate` of
-- src/server/src/sockspp/server/session.cxx.
pub mod Connects
pub mod Associates
pub mod Resolved
use sockspp.Base.{
  ℕ, ◌+◌, Mem, slice, length, htons, Bool, true, false, leb, if◌then◌else◌, ◌++◌, Option, none,
  some, List, [], ◌∷◌,
}
use sockspp.Core.Enums.{AddrType, Command, Reply}
use sockspp.Core.S5.{get_command, get_type, get_port, get_address, message_address}
use sockspp.Core.MemoryBuffer.{MemoryBuffer, mem_of}
use sockspp.Core.SocketInfo.{Sockaddr, SocketInfo, IpVersion, ipv4, ipv6, from, to, is_ipv4}
use sockspp.Core.IpAddress.{IpAddress, of_raw, of_text}
use sockspp.Core.Event.{Flags, read_closed, write_closed}
use sockspp.System.{Fd, Call, Platform, Target, SocketKind, IoResult, Notice}
use sockspp.Server.Params.{ServerParams, empty}
use sockspp.Session.{
  M, Fault, null_pointer, invalid_ip_address, dns_message, no_sock_name, State, Session,
  RemoteSocket, UdpSocket, DnsSocket, get, put, call, raise, expect, pure, ◌>>=◌, ◌>>◌,
}
use sockspp.Session.Calls.{
  open_socket, send_to, bind, bound_name, garbage, add_event, set_blocking, close, is_failed,
  unknown_info,
}
use sockspp.Session.Client.{send_reply}
use sockspp.Session.Auth.{set_state}
use sockspp.Session.Remote.{
  get_remote, put_remote, new_remote, remote_error, address_sockaddr, version_type,
}
use sockspp.Session.Udp.{put_udp}
use sockspp.Session.Request.{udp_kind}

-- The port of a socket address, cleared for `bind`.
abbrev pub any_port : Sockaddr → Sockaddr
any_port a = record a { port = 0 }

abbrev pub tcp_kind : IpVersion → SocketKind
tcp_kind ipv4 = SocketKind.tcp
tcp_kind ipv6 = SocketKind.tcp6

module _ (pf : Platform) where
  -- The socket's `process_event(Event::Error)` starts the attempts.
  unfoldable pub connect_remote : ServerParams → Fd → List IpAddress → M Bool
  unfolding set_blocking put_remote set_state add_event
  connect_remote params fd addresses = do
    old ← garbage pf
    put_remote (new_remote old fd (some addresses))
    set_blocking fd false
    call (Call.set_nodelay fd params.remote_tcp_nodelay)
    call (Call.set_keepalive fd params.remote_tcp_keepalive)
    set_state State.connecting_remote
    started ← remote_error pf
    let listen = (do add_event fd Target.remote write_closed; pure true)
    if started then listen else pure false

  unfoldable pub open_relay : Fd → Fd → M (Unit {0})
  unfolding set_blocking put_udp put_remote add_event set_state
  open_relay cl_fd rm_fd = do
    s ← get
    set_blocking cl_fd false
    put_udp (record { fd = cl_fd; port_maps = []; client_info = s.peer_info })
    add_event cl_fd Target.udp read_closed
    old ← garbage pf
    set_blocking rm_fd false
    put_remote (new_remote old rm_fd none)
    add_event rm_fd Target.remote read_closed
    set_state State.associated

  -- Once `cl_sock` is bound: the reply says where the client's datagrams are to go.
  unfoldable pub associate_bound : Fd → Fd → M Bool
  unfolding bound_name open_relay
  associate_bound cl_fd rm_fd = do
    answer ← bound_name pf cl_fd
    old ← garbage pf
    let relay = (do open_relay cl_fd rm_fd; pure true)
    let announce = λ (addr : Sockaddr). (do
      let info = from (unknown_info old) addr
      sent ← send_reply pf Reply.success (version_type info.ip_version) info.ip 0 (htons info.port)
      if sent then relay else pure false)
    elim answer [ none ↦ pure false | some addr ↦ announce addr ]

  unfoldable pub associate : Fd → Fd → M Bool
  unfolding bound_name associate_bound bind
  associate cl_fd rm_fd = do
    s ← get
    answer ← bound_name pf s.client_socket
    addr ← expect no_sock_name answer
    old ← garbage pf
    res ← bind pf cl_fd (any_port (to (from (unknown_info old) addr)))
    let bound = associate_bound cl_fd rm_fd
    if is_failed res then pure false else bound

  -- The `switch` of `_do_command`; what `_connect_remote` returns is not looked at. The two local
  -- sockets of an association that fails are closed as they go out of scope.
  unfoldable pub do_connect : ServerParams → IpVersion → List IpAddress → M Bool
  unfolding connect_remote
  do_connect params v addresses = do
    fd ← open_socket pf (tcp_kind v)
    call (Call.notify Notice.remote_socket_created)
    _ ← connect_remote params fd addresses
    pure true

  unfoldable pub do_associate : IpVersion → M Bool
  unfolding associate close
  do_associate v = do
    cl_fd ← open_socket pf (udp_kind v)
    rm_fd ← open_socket pf (udp_kind v)
    call (Call.notify Notice.remote_socket_created)
    done ← associate cl_fd rm_fd
    let discard = (do close rm_fd; close cl_fd; pure false)
    if done then pure true else discard

  unfoldable pub run_command : ServerParams → Command → IpVersion → List IpAddress → M Bool
  unfolding do_connect do_associate
  run_command params Command.connect v addresses = do_connect params v addresses
  run_command params Command.udp_associate v addresses = do_associate v
  run_command params Command.bind v addresses = pure true
  run_command params Command.invalid v addresses = pure true
  run_command params (Command.other b) v addresses = pure true

  unfoldable pub do_command : ServerParams → Option (List IpAddress) → M Bool
  unfolding run_command
  do_command params none = pure false
  do_command params (some []) = pure false
  do_command params (some (a ∷ rest)) = do
    s ← get
    run_command params s.command a.version (a ∷ rest)
