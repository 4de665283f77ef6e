-- ===== src/Server/Loop/Startup.antt =====
-- The opening of `Server::serve` (src/server/src/sockspp/server/server.cxx), with `bind` and
-- `_make_address` of src/core/src/sockspp/core/socket.cxx and the constructor of
-- src/core/src/sockspp/core/poller/epoll_poller.hpp, and the whole of `serve`.
pub mod Opening
use sockspp.Base.{
  ℕ, Mem, slice, htons, Bool, true, false, not, ◌==◌, if◌then◌else◌, Option, none, some, List, [],
  ◌∷◌,
}
use sockspp.Core.SocketInfo.{Sockaddr, Family}
use sockspp.Core.IpAddress.{InetPton}
use sockspp.Core.Event.{only_read}
use sockspp.System.{Fd, Call, Platform, SocketKind, IoResult, Notice}
use sockspp.Session.Calls.{is_failed, to_bool}
use sockspp.Server.Params.{ServerParams}
use sockspp.Server.Loop.{
  Server, Poll, Result, done, crash, socket_failed, bind_failed, poller_failed, stop, serve,
}

-- `SOCKSPP_SERVER_LISTEN` (src/server/src/sockspp/server/defs.hpp).
abbrev pub listen_count : ℕ
listen_count = 128

-- `_make_address`. A text that is no address leaves what the 16 bytes from offset 8 held.
unfoldable pub make_address : InetPton → Mem → List ℕ → ℕ → Sockaddr
make_address pton old ip port = elim (pton.v4 ip) [
  | some bytes ↦ record { family = Family.inet; addr = bytes; port = htons port }
  | none ↦ record {
    family = Family.inet6;
    addr = elim (pton.v6 ip) [ some bytes ↦ bytes | none ↦ slice old 8 16 ];
    port = htons port;
  }
]

-- `::bind(…) != 0`.
abbrev pub is_nonzero : IoResult → Bool
is_nonzero (IoResult.count n) = not (n == 0)
is_nonzero (IoResult.failed e) = true

module _ (pf : Platform) (params : ServerParams) where
  -- `Socket::bind(const std::string&, uint16_t)`; the flag says whether it throws.
  unfoldable pub bind_text : Fd → List Call → List Call × Bool
  unfolding make_address
  bind_text fd log =
      let addr =
        make_address pf.inet_pton (pf.os.garbage log) params.listen_ip params.listen_port in
      let log1 : List Call = Call.bind fd addr ∷ log in (log1, is_nonzero (pf.os.result log1))

  -- `open_tcp` to `listen`: the server has its socket from then on.
  unfoldable pub open_server : Server → Result Server
  unfolding bind_text
  open_server v =
      let log1 : List Call = Call.open_socket SocketKind.tcp ∷ v.log in
      elim (pf.os.opened log1) [
        | none ↦ crash socket_failed
        | some k ↦
            let fd : Fd = some k in
            let (log2, throws) = bind_text fd (Call.set_blocking fd false ∷ log1) in
            if throws
            then crash bind_failed
            else done (record v { socket = fd; log = Call.listen fd listen_count ∷ log2 })
      ]

  -- The poller and its first event; the flag says whether `register_event` did it.
  unfoldable pub start_poller : Server → Result (Server × Fd × Bool)
  start_poller v =
      let log1 : List Call = Call.create_poller ∷ v.log in
      elim (pf.os.opened log1) [
        | none ↦ crash poller_failed
        | some k ↦
            let log2 : List Call = Call.watch_server (some k) v.socket only_read ∷ log1 in
            done (record v { log = log2 }, some k, not (is_nonzero (pf.os.result log2)))
      ]

  -- `~EpollPoller`.
  abbrev pub close_poller : Fd → Result Server → Result Server
  close_poller poller (crash c) = crash c
  close_poller poller (done v) = done (record v { log = Call.close poller ∷ v.log })

  -- `Server::serve`, once it has its poller, and once it has its socket.
  unfoldable pub with_poller : List Poll → Result (Server × Fd × Bool) → Result Server
  with_poller polls (crash c) = crash c
  with_poller polls (done (v, poller, false)) = close_poller poller (done (stop v))
  with_poller polls (done (v, poller, true)) =
      let started : Server = record v { log = Call.notify Notice.server_started ∷ v.log } in
      close_poller poller (serve pf params v.socket started polls)

  unfoldable pub with_socket : List Poll → Result Server → Result Server
  unfolding start_poller with_poller
  with_socket polls (crash c) = crash c
  with_socket polls (done v) = with_poller polls (start_poller v)

  -- `Server::serve`.
  unfoldable pub serve_all : Server → List Poll → Result Server
  unfolding open_server with_socket
  serve_all v polls = with_socket polls (open_server v)
