-- ===== src/System.antt =====
-- What the program asks of the operating system and of other libraries, none of it under src/.
-- A call is logged, newest first, and the answer is a function of the whole log: so every
-- behaviour of the system, call by call, is some `Os`. The wrappers of
-- src/core/src/sockspp/core/socket.cxx and poller/epoll_poller.hpp make exactly these calls.
use sockspp.Base.{ℕ, Mem, Bool, List, Option}
use sockspp.Core.SocketInfo.{Sockaddr}
use sockspp.Core.IpAddress.{InetPton}
use sockspp.Core.Event.{Flags}

-- A file descriptor; `none` is -1.
abbrev pub Fd : Type 0
Fd = Option ℕ

-- `sockerrno`, as far as the code looks at it (src/core/src/sockspp/core/errno.hpp).
pub data Errno : Type 0 where
  would_block in_progress interrupted : Errno
  other : ℕ → Errno

-- An `int` result: a count, or -1 with an error number.
pub data IoResult : Type 0 where
  count : ℕ → IoResult
  failed : Errno → IoResult

-- What `recv` and `recvfrom` deliver: the bytes and the sender.
pub data Received : Type 0 where
  got : List ℕ → Sockaddr → Received
  failed : Errno → Received

pub data SocketKind : Type 0 where
  tcp tcp6 udp udp6 : SocketKind

-- The pointer that an event carries: one of a session's sockets, a DNS socket by its position.
pub data Target : Type 0 where
  client remote udp : Target
  dns : ℕ → Target

pub data CtlOp : Type 0 where
  add modify delete : CtlOp

-- The event hooks of `ServerHook`, which do nothing unless a user overrides them.
pub data Notice : Type 0 where
  accepted_client client_disconnected : Notice
  remote_socket_created remote_connected remote_disconnected : Notice
  server_started server_stopped : Notice

pub data Call : Type 0 where
  open_socket : SocketKind → Call
  set_blocking set_nodelay set_keepalive : Fd → Bool → Call
  send : Fd → List ℕ → Call
  send_to : Fd → List ℕ → Option Sockaddr → Call
  recv recv_from : Fd → Call
  connect bind : Fd → Sockaddr → Call
  get_sock_name get_peer_name : Fd → Call
  shut_down close : Fd → Call
  set_event : CtlOp → Fd → Target → Flags → Call
  remove_event accept : Fd → Call
  listen : Fd → ℕ → Call
  create_poller : Call
  watch_server : Fd → Fd → Flags → Call
  notify : Notice → Call

-- The answer to the call at the head of the log, and what uninitialised memory holds.
pub record Os : Type 0 where
  pub opened : List Call → Option ℕ
  pub result : List Call → IoResult
  pub received : List Call → Received
  pub name : List Call → Option Sockaddr
  pub garbage : List Call → Mem

-- A record of a DNS answer as the dnslib copy under src/core/src/dnslib decodes it: class, type, and
-- the address bytes, `none` where the record has no data.
pub record Answer : Type 0 where
  pub class : ℕ
  pub type : ℕ
  pub rdata : Option (List ℕ)

-- `Message::encode` of one question of type A, and `Message::decode`; `none` is an exception.
pub record DnsLib : Type 0 where
  pub encode_query : List ℕ → Option (List ℕ)
  pub decode : List ℕ → Option (List Answer)

pub record Platform : Type 0 where
  pub os : Os
  pub dns_lib : DnsLib
  pub inet_pton : InetPton
