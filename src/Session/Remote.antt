-- ===== src/Session/Remote.antt =====
-- The remote side of a session: src/server/src/sockspp/server/remote_socket.cxx, with
-- `_remote_connected` and `reply_remote_connection` of session.cxx, which it calls back.
pub mod Attempts
pub mod Replies
use sockspp.Base.{
  ℕ, ◌+◌, ◌-◌, ◌%◌, Mem, slice, length, get_elem?, htons, Bool, true, false, not, ◌&&◌, leb, ◌==◌,
  if◌then◌else◌, Option, none, some, List,
}
use sockspp.Core.Enums.{AddrType, Reply, reply_byte, is_success}
use sockspp.Core.SocketInfo.{Sockaddr, SocketInfo, IpVersion, family_of, address_size, ipv4, ipv6}
use sockspp.Core.IpAddress.{IpAddress, get_netport}
use sockspp.Core.Event.{Flags, read_closed}
use sockspp.System.{Fd, Call, Platform, Target, IoResult, Errno, Notice}
use sockspp.Session.{
  M, Fault, null_pointer, out_of_range, State, Session, RemoteSocket, get, put, call, expect, pure,
  ◌>>=◌, ◌>>◌,
}
use sockspp.Session.Calls.{
  connect, garbage, get_peer_address, modify_event, set_blocking, unknown_info,
}
use sockspp.Session.Client.{send_reply}
use sockspp.Session.Auth.{set_state, size_mod}

-- `IPAddress::Version` as an address type of the protocol.
abbrev pub version_type : IpVersion → AddrType
version_type ipv4 = AddrType.ipv4
version_type ipv6 = AddrType.ipv6

-- The `sockaddr` that the code fills from an address.
unfoldable pub address_sockaddr : IpAddress → Sockaddr
unfolding get_netport
address_sockaddr a = record {
  family = family_of a.version;
  addr = slice a.storage 0 (address_size a.version);
  port = get_netport a;
}

-- `*_remote_socket`, and a write to it.
unfoldable pub get_remote : M RemoteSocket
get_remote = do s ← get; expect null_pointer s.remote_socket

unfoldable pub put_remote : RemoteSocket → M (Unit {0})
put_remote r = do s ← get; put (record s { remote_socket = some r })

-- `_remote_connected`.
unfoldable pub remote_connected : M (Unit {0})
unfolding get_remote modify_event set_state
remote_connected = do
  r ← get_remote
  modify_event r.fd Target.remote read_closed
  set_state State.connected
  call (Call.notify Notice.remote_connected)

abbrev pub is_connecting : State → Bool
is_connecting State.connecting_remote = true
is_connecting _ = false

-- An error number that leaves a connection under way.
abbrev pub is_pending : IoResult → Bool
is_pending (IoResult.count n) = true
is_pending (IoResult.failed Errno.would_block) = true
is_pending (IoResult.failed Errno.in_progress) = true
is_pending (IoResult.failed _) = false

-- `RemoteSocket::RemoteSocket`, without the session's pointer; `_connecting_idx` starts at -1.
unfoldable pub new_remote : Mem → Fd → Option (List IpAddress) → RemoteSocket
new_remote old fd none = record {
  fd = fd;
  remote_info = unknown_info old;
  addresses = none;
  connecting_idx = size_mod - 1;
  is_connected = true;
}
new_remote old fd (some as') = record {
  fd = fd;
  remote_info = unknown_info old;
  addresses = some as';
  connecting_idx = size_mod - 1;
  is_connected = false;
}

module _ (pf : Platform) where
  unfoldable pub reply_remote_connection : Reply → AddrType → Mem → ℕ → ℕ → M Bool
  unfolding is_success reply_byte
  reply_remote_connection reply addr_type s q port = do
    session ← get
    let connected = (if is_success reply then remote_connected else pure tt)
    let proceed = (do
      connected
      sent ← send_reply pf reply addr_type s q port
      pure (sent && is_success reply))
    if is_connecting session.state then proceed else pure false

  -- One `connect` to the address, once it is known that there is one to try.
  unfoldable pub attempt : Fd → IpAddress → M Bool
  unfolding address_sockaddr
  attempt fd a = do
    res ← connect pf fd (address_sockaddr a)
    let fail = (do
      _ ← reply_remote_connection Reply.general_failure (version_type a.version) a.storage 0 a.port
      pure false)
    if is_pending res then pure true else fail

  unfoldable pub give_up : IpAddress → M Bool
  give_up a = do
    _ ← reply_remote_connection Reply.unreachable (version_type a.version) a.storage 0 a.port
    pure false

  -- The index wraps at 2^64: the first call takes it from -1 to 0.
  unfoldable pub try_connect_next : M Bool
  unfolding get_remote put_remote attempt give_up
  try_connect_next = do
    r ← get_remote
    let idx = (r.connecting_idx + 1) % size_mod
    put_remote (record r { connecting_idx = idx })
    addresses ← expect null_pointer r.addresses
    let size = length addresses
    let at = (if idx == size then (idx + size_mod - 1) % size_mod else idx)
    let next = (do
      a ← expect out_of_range (get_elem? addresses at)
      if idx == size then give_up a else attempt r.fd a)
    if leb idx size then next else pure false

  unfoldable pub could_connect : M Bool
  unfolding get_remote put_remote get_peer_address
  could_connect = do
    r ← get_remote
    addresses ← expect null_pointer r.addresses
    a ← expect out_of_range (get_elem? addresses r.connecting_idx)
    info ← get_peer_address pf r.fd
    put_remote (record r { is_connected = true; addresses = none; remote_info = info })
    reply_remote_connection Reply.success (version_type a.version) a.storage 0 a.port

  -- `process_remote_event` on `Event::Error` without `Event::Closed`.
  unfoldable pub remote_error : M Bool
  unfolding get_remote try_connect_next
  remote_error = do
    r ← get_remote
    let lost = (do call (Call.notify Notice.remote_disconnected); pure false)
    let retry = try_connect_next
    if r.is_connected then lost else retry
