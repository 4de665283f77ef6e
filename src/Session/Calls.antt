-- ===== src/Session/Calls.antt =====
-- System calls as the code makes them: the wrappers of src/core/src/sockspp/core/socket.cxx and of
-- src/core/src/sockspp/core/poller/epoll_poller.hpp, and `SessionSocket::recv`, `recv_from`, `send`
-- and `send_to` of src/server/src/sockspp/server/session_socket.hpp.
use sockspp.Base.{
  ℕ, Mem, of_bytes, length, Bool, true, false, not, load16, if◌then◌else◌, Option, none, some, List,
  ◌==◌,
}
use sockspp.Core.MemoryBuffer.{MemoryBuffer}
use sockspp.Core.SocketInfo.{Sockaddr, SocketInfo, ipv4, ipv6, from}
use sockspp.Core.Event.{Flags}
use sockspp.System.{Fd, Call, Target, CtlOp, SocketKind, Platform, IoResult, Received}
use sockspp.Session.{M, get_log, call, expect, pure, ◌>>=◌, ◌>>◌, socket_creation, no_peer_name}

-- An `int` result as the code tests it: `res == -1`, and its conversion to `bool`.
abbrev pub is_failed : IoResult → Bool
is_failed (IoResult.count n) = false
is_failed (IoResult.failed e) = true

abbrev pub to_bool : IoResult → Bool
to_bool (IoResult.count n) = not (n == 0)
to_bool (IoResult.failed e) = true

-- A `SocketInfo` that was not initialised: its 19 bytes are what the memory held.
abbrev pub unknown_info : Mem → SocketInfo
unknown_info m = record {
  ip = m;
  port = load16 m 16;
  ip_version = if m 18 == 0 then ipv4 else ipv6;
}

unfoldable pub set_blocking : Fd → Bool → M (Unit {0})
set_blocking fd b = call (Call.set_blocking fd b)

-- `EpollPoller::set_event` without and with `is_mod`; the callers ignore the result.
unfoldable pub add_event : Fd → Target → Flags → M (Unit {0})
add_event fd t flags = call (Call.set_event CtlOp.add fd t flags)

unfoldable pub modify_event : Fd → Target → Flags → M (Unit {0})
modify_event fd t flags = call (Call.set_event CtlOp.modify fd t flags)

-- `Socket::close`: nothing is closed twice.
unfoldable pub close : Fd → M (Unit {0})
close none = pure tt
close (some fd) = call (Call.close (some fd))

module _ (pf : Platform) where
  -- `Socket(int, int, int)`: a failure is an exception.
  unfoldable pub open_socket : SocketKind → M Fd
  open_socket kind = do
    call (Call.open_socket kind)
    log ← get_log
    fd ← expect socket_creation (pf.os.opened log)
    pure (some fd)

  unfoldable pub send : Fd → List ℕ → M IoResult
  send fd bytes = do call (Call.send fd bytes); log ← get_log; pure (pf.os.result log)

  unfoldable pub send_to : Fd → List ℕ → Option Sockaddr → M IoResult
  send_to fd bytes addr = do
    call (Call.send_to fd bytes addr)
    log ← get_log
    pure (pf.os.result log)

  unfoldable pub connect : Fd → Sockaddr → M IoResult
  connect fd addr = do call (Call.connect fd addr); log ← get_log; pure (pf.os.result log)

  unfoldable pub bind : Fd → Sockaddr → M IoResult
  bind fd addr = do call (Call.bind fd addr); log ← get_log; pure (pf.os.result log)

  unfoldable pub garbage : M Mem
  garbage = do log ← get_log; pure (pf.os.garbage log)

  unfoldable pub recv : Fd → M Received
  recv fd = do call (Call.recv fd); log ← get_log; pure (pf.os.received log)

  unfoldable pub recv_from : Fd → M Received
  recv_from fd = do call (Call.recv_from fd); log ← get_log; pure (pf.os.received log)

  -- `getsockname` and `getpeername`.
  unfoldable pub bound_name : Fd → M (Option Sockaddr)
  bound_name fd = do call (Call.get_sock_name fd); log ← get_log; pure (pf.os.name log)

  unfoldable pub peer_name : Fd → M (Option Sockaddr)
  peer_name fd = do call (Call.get_peer_name fd); log ← get_log; pure (pf.os.name log)

  -- `Socket::get_peer_address`: a failure is an exception.
  unfoldable pub get_peer_address : Fd → M SocketInfo
  unfolding peer_name garbage
  get_peer_address fd = do
    answer ← peer_name fd
    addr ← expect no_peer_name answer
    old ← garbage
    pure (from (unknown_info old) addr)

-- A buffer of `capacity` bytes on the stack into which these bytes were received.
abbrev pub received_buffer : Mem → List ℕ → ℕ → MemoryBuffer
received_buffer old bytes capacity = record {
  ptr = some (of_bytes bytes old);
  size = length bytes;
  capacity = capacity;
}
