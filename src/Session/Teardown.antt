-- ===== src/Session/Teardown.antt =====
-- The ends of a session's life in src/server/src/sockspp/server/session.cxx: the constructor, `shutdown`
-- and the destructor.
pub mod Closes
use sockspp.Base.{Mem, Bool, false, Option, none, some, List, [], ◌∷◌}
use sockspp.Core.Enums.{Command}
use sockspp.Core.MemoryBuffer.{null_buffer}
use sockspp.System.{Fd, Call, Notice}
use sockspp.Session.{
  M, Session, State, RemoteSocket, UdpSocket, DnsSocket, get, put, call, pure, ◌>>=◌, ◌>>◌,
}
use sockspp.Session.Calls.{close, set_blocking, unknown_info}

-- The members as the constructor leaves them.
unfoldable pub new_session : Mem → Fd → Session
new_session old fd = record {
  state = State.invalid;
  command = Command.invalid;
  client_socket = fd;
  remote_socket = none;
  udp_socket = none;
  dns_sockets = [];
  domain_name = [];
  client_buffer = null_buffer;
  remote_buffer = null_buffer;
  peer_info = unknown_info old;
}

unfoldable pub construct : M (Unit {0})
unfolding set_blocking
construct = do
  s ← get
  set_blocking s.client_socket false
  call (Call.notify Notice.accepted_client)

-- Unregister, shut down and close one socket.
unfoldable pub end_socket : Fd → M (Unit {0})
unfolding close
end_socket fd = do call (Call.remove_event fd); call (Call.shut_down fd); close fd

unfoldable pub end_remote : Option RemoteSocket → M (Unit {0})
unfolding end_socket
end_remote none = pure tt
end_remote (some r) = do
  end_socket r.fd
  s ← get
  put (record s { remote_socket = some (record r { fd = none }) })

unfoldable pub end_udp : Option UdpSocket → M (Unit {0})
unfolding end_socket
end_udp none = pure tt
end_udp (some u) = do
  end_socket u.fd
  s ← get
  put (record s { udp_socket = some (record u { fd = none }) })

abbrev pub closed_dns : List DnsSocket → List DnsSocket
closed_dns [] = []
closed_dns (d ∷ rest) = record d { fd = none } ∷ closed_dns rest

unfoldable pub end_dns : List DnsSocket → M (Unit {0})
unfolding end_socket
end_dns [] = pure tt
end_dns (d ∷ rest) = do end_socket d.fd; end_dns rest

-- `Session::shutdown`.
unfoldable pub shutdown : M (Unit {0})
unfolding end_remote end_udp end_dns
shutdown = do
  s ← get
  end_socket s.client_socket
  put (record s { client_socket = none })
  end_remote s.remote_socket
  end_udp s.udp_socket
  end_dns s.dns_sockets
  t ← get
  put (record t { dns_sockets = closed_dns t.dns_sockets })

-- The destructors of the sockets close what is still open.
unfoldable pub close_dns : List DnsSocket → M (Unit {0})
unfolding close
close_dns [] = pure tt
close_dns (d ∷ rest) = do close d.fd; close_dns rest

abbrev pub remote_fd : Option RemoteSocket → Fd
remote_fd none = none
remote_fd (some r) = r.fd

abbrev pub udp_fd : Option UdpSocket → Fd
udp_fd none = none
udp_fd (some u) = u.fd

unfoldable pub destroy : M (Unit {0})
unfolding close_dns
destroy = do
  s ← get
  close s.client_socket
  call (Call.notify Notice.client_disconnected)
  close (remote_fd s.remote_socket)
  close (udp_fd s.udp_socket)
  close_dns s.dns_sockets
