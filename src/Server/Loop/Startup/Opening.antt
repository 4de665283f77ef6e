-- ===== src/Server/Loop/Startup/Opening.antt =====
-- How `Server::serve` of src/server/src/sockspp/server/server.cxx begins and ends as a whole.
use sockspp.Base.{
  ℕ, htons, ◌≡◌, refl, ◌⊎◌, inl, inr, Bool, true, false, Bool-cases, none, some, Option-cases, List,
  [], ◌∷◌,
}
use sockspp.Core.SocketInfo.{Sockaddr, Family}
use sockspp.Core.Event.{only_read}
use sockspp.System.{Fd, Call, Platform, SocketKind, IoResult, Notice}
use sockspp.Server.Params.{ServerParams}
use sockspp.Server.Loop.{
  Server, Poll, Crash, Result, done, crash, socket_failed, bind_failed, poller_failed, stop, serve,
}
use sockspp.Server.Loop.Ends.{HasEnded, HasCrashed, serve_ends}
use sockspp.Server.Loop.Startup.{
  make_address, is_nonzero, bind_text, open_server, start_poller, close_poller, serve_all,
  with_poller, with_socket,
}

-- The exceptions of the opening: no socket, no `bind`, no poller.
abbrev pub IsStartup : Crash → Type 0
IsStartup socket_failed = Unit
IsStartup bind_failed = Unit
IsStartup poller_failed = Unit
IsStartup _ = ⊥

-- A step of the opening that throws, throws one of these; otherwise there is no session yet.
abbrev pub Opens : Result Server → Type 0
Opens (crash c) = IsStartup c
Opens (done v) = v.sessions ≡ []

abbrev pub OpensPoller : Result (Server × Fd × Bool) → Type 0
OpensPoller (crash c) = IsStartup c
OpensPoller (done (v, poller, watched)) = v.sessions ≡ []

abbrev pub FailsToStart : Result Server → Type 0
FailsToStart (crash c) = IsStartup c
FailsToStart (done v) = ⊥

module _ (pf : Platform) (params : ServerParams) where
  close_poller_ends :
      (poller : Fd) (r : Result Server)
      → HasEnded pf params r
      → HasEnded pf params (close_poller pf params poller r)
  close_poller_ends poller r (v, e, h, h') =
      (record v { log = Call.close poller ∷ v.log }, rw e refl, h, h')

  pub open_server-Opens : (v : Server) → v.sessions ≡ [] → Opens (open_server pf params v)
  unfolding open_server bind_text
  open_server-Opens v h =
      let log1 : List Call = Call.open_socket SocketKind.tcp ∷ v.log in
      elim (Option-cases (pf.os.opened log1)) [
        | inl e ↦ rw (e, Opens) tt
        | inr (k, e) ↦
            let log2 : List Call = Call.set_blocking (some k) false ∷ log1 in
            elim (Bool-cases ((bind_text pf params (some k) log2).1)) [
              | inl throws ↦ rw (e, throws, Opens) tt
              | inr fine ↦ rw (e, fine, Opens) h
            ]
      ]

  pub start_poller-Opens : (v : Server) → v.sessions ≡ [] → OpensPoller (start_poller pf params v)
  unfolding start_poller
  start_poller-Opens v h = elim (Option-cases (pf.os.opened (Call.create_poller ∷ v.log))) [
    | inl e ↦ rw (e, OpensPoller) tt
    | inr (k, e) ↦ rw (e, OpensPoller) h
  ]

  -- The server whose loop `serve` runs: its socket and its poller were opened, and the event of the
  -- socket was registered.
  abbrev pub Starts : Server → Server → Type 0
  Starts v started =
      (v1 : Server) × (v2 : Server) × (poller : Fd) × (open_server pf params v ≡ done v1)
      × (start_poller pf params v1 ≡ done (v2, poller, true))
      × (started ≡ record v2 { log = Call.notify Notice.server_started ∷ v2.log })

  -- How a run of `serve` from a server can end with a result.
  abbrev pub Ends : Server → List Poll → Result Server → Type 0
  Ends v polls r =
      HasEnded pf params r
      ⊎ FailsToStart r
      ⊎ ((started : Server) × Starts v started × HasCrashed pf params started polls r)

  close_poller-crash :
      (v : Server) (polls : List Poll) (poller : Fd) (r : Result Server)
      → HasCrashed pf params v polls r
      → HasCrashed pf params v polls (close_poller pf params poller r)
  close_poller-crash v polls poller r (c, e, h) = (c, rw e refl, h)

  with_poller-Ends :
      (v v1 : Server) (polls : List Poll) (r : Result (Server × Fd × Bool))
      → open_server pf params v ≡ done v1
      → start_poller pf params v1 ≡ r
      → OpensPoller r
      → Ends v polls (with_poller pf params polls r)
  unfolding with_poller stop
  with_poller-Ends v v1 polls (crash c) e e' h = inr (inl h)
  with_poller-Ends v v1 polls (done (v2, poller, false)) e e' h = inl (_, refl, h, refl)
  with_poller-Ends v v1 polls (done (v2, poller, true)) e e' h =
      let started : Server = record v2 { log = Call.notify Notice.server_started ∷ v2.log } in
      let r = serve pf params v2.socket started polls in
      elim (serve_ends pf params v2.socket polls started) [
        | inl ended ↦ inl (close_poller_ends poller r ended)
        | inr crashed ↦ inr (
            inr (
              started,
              (v1, v2, poller, e, e', refl),
              close_poller-crash started polls poller r crashed,
            ))
      ]

  with_socket-Ends :
      (v : Server) (polls : List Poll) (r : Result Server)
      → open_server pf params v ≡ r
      → Opens r
      → Ends v polls (with_socket pf params polls r)
  unfolding with_socket
  with_socket-Ends v polls (crash c) e h = inr (inl h)
  with_socket-Ends v polls (done v1) e h =
      with_poller-Ends v v1 polls (start_poller pf params v1) e refl (start_poller-Opens v1 h)

  -- On a server without sessions, the whole of `serve` ends with no session and no listening socket
  -- left, unless the opening throws (no socket, no `bind`, no poller) or the loop of the server that
  -- was opened comes to a batch whose events end the process, and then it ends as they do; a server
  -- whose event cannot be registered ends with no session and no listening socket left too.
  pub serve_all-Ends :
      (v : Server) (polls : List Poll)
      → v.sessions ≡ []
      → Ends v polls (serve_all pf params v polls)
  unfolding serve_all
  serve_all-Ends v polls h =
      with_socket-Ends v polls (open_server pf params v) refl (open_server-Opens v h)

-- The calls of the opening, newest first, on the socket `k` with the poller `q`.
abbrev pub opened_log : ℕ → Sockaddr → List Call → List Call
opened_log k addr log =
    Call.create_poller
    ∷ Call.listen (some k) 128
    ∷ Call.bind (some k) addr
    ∷ Call.set_blocking (some k) false
    ∷ Call.open_socket SocketKind.tcp
    ∷ log

abbrev pub started_server : Server → ℕ → ℕ → Sockaddr → Server
started_server v k q addr = record v {
  socket = some k;
  log =
      Call.notify Notice.server_started
      ∷ Call.watch_server (some q) (some k) only_read
      ∷ opened_log k addr v.log;
}

module _ (pf : Platform) (params : ServerParams) (v : Server) (k : ℕ)
    (opened : pf.os.opened (Call.open_socket SocketKind.tcp ∷ v.log) ≡ some k) where
  -- With an IPv4 address to listen at, a server whose calls all succeed opens one socket, makes it
  -- non-blocking, binds it to that address and port in network order, listens, watches it for READ
  -- and says that it has started, in this order; then its loop runs, and the poller is closed.
  pub serve_all_lem :
      (bytes : List ℕ) (q : ℕ) (polls : List Poll)
      → let addr : Sockaddr = record {
        family = Family.inet;
        addr = bytes;
        port = htons params.listen_port;
      } in
        let log1 : List Call =
          Call.set_blocking (some k) false ∷ Call.open_socket SocketKind.tcp ∷ v.log in
        pf.inet_pton.v4 params.listen_ip ≡ some bytes
        → pf.os.result (Call.bind (some k) addr ∷ log1) ≡ IoResult.count 0
        → pf.os.opened (opened_log k addr v.log) ≡ some q
        → pf.os.result (Call.watch_server (some q) (some k) only_read ∷ opened_log k addr v.log)
          ≡ IoResult.count 0
        → serve_all pf params v polls
          ≡ close_poller pf params
              (some q)
              (serve pf params (some k) (started_server v k q addr) polls)
  unfolding serve_all open_server start_poller with_socket with_poller bind_text make_address
  serve_all_lem bytes q polls text bound poller watched =
      rw
        (
          serve_all, with_socket, open_server, opened, bind_text, is_nonzero, make_address, text,
          bound, with_poller, start_poller, poller, watched,
        )
        refl

  -- The listening socket is always an IPv4 socket. So an IPv6 address to listen at ends the
  -- process with the exception of `bind`, on a system that refuses to bind such a socket to an
  -- IPv6 address.
  pub serve_all_v6 :
      (bytes : List ℕ) (polls : List Poll)
      → pf.inet_pton.v4 params.listen_ip ≡ none
      → pf.inet_pton.v6 params.listen_ip ≡ some bytes
      → ((addr : Sockaddr)
          → addr.family ≡ Family.inet6
          → is_nonzero (
              pf.os.result (
                Call.bind (some k) addr
                ∷ Call.set_blocking (some k) false
                ∷ Call.open_socket SocketKind.tcp
                ∷ v.log))
            ≡ true)
      → serve_all pf params v polls ≡ crash bind_failed
  unfolding serve_all open_server with_socket bind_text make_address
  serve_all_v6 bytes polls no4 text refused =
      let addr : Sockaddr = record {
        family = Family.inet6;
        addr = bytes;
        port = htons params.listen_port;
      } in
      let throws = refused addr refl in
      rw
        (
          serve_all, with_socket, open_server, opened, bind_text, is_nonzero, make_address, no4,
          text, throws,
        )
        refl
