-- ===== src/Server/Loop/Valid/Whole.antt =====
-- The whole of `Server::serve` of src/server/src/sockspp/server/server.cxx with all its sessions,
-- its opening included.
use sockspp.Base.{ℕ, ◌≡◌, refl, sym, arith, Bool, true, false, List, [], ◌∷◌}
use mathlib.Core.Path.{subst}
use sockspp.System.{Platform, Fd, Call, Notice}
use sockspp.Session.{Session}
use sockspp.Server.Params.{ServerParams}
use sockspp.Server.Loop.{Server, Poll, Crash, Result, done, crash, stop, serve}
use sockspp.Server.Loop.Startup.{
  open_server, start_poller, close_poller, with_poller, with_socket, serve_all,
}
use sockspp.Server.Loop.Startup.Opening.{
  IsStartup, Opens, OpensPoller, open_server-Opens, start_poller-Opens,
}
use sockspp.Server.Loop.Polls.{AllValid}
use sockspp.Server.Loop.Valid.{Tolerable, Yields}
use sockspp.Server.Loop.Valid.Serving.{Polled, IsOver, serve-IsOver}

startup-Tolerable : (risky : Bool) (c : Crash) → IsStartup c → Tolerable risky c
startup-Tolerable risky c h = ground arith

module _ (pf : Platform) (params : ServerParams) (risky : Bool) where
  -- Each batch is ready at its poll, from the server that the opening leaves.
  abbrev pub PolledBy : List Poll → Result (Server × Fd × Bool) → Type 0
  PolledBy polls (done (v, poller, true)) =
      Polled pf params risky polls (record v { log = Call.notify Notice.server_started ∷ v.log })
  PolledBy polls _ = Unit

  abbrev pub PolledOnce : List Poll → Result Server → Type 0
  PolledOnce polls (done v) = PolledBy polls (start_poller pf params v)
  PolledOnce polls (crash c) = Unit

  poller_closed :
      (poller : Fd) (r : Result Server)
      → Yields risky (IsOver pf params risky) r
      → Yields risky (IsOver pf params risky) (close_poller pf params poller r)
  poller_closed poller (crash c) h = h
  poller_closed poller (done v) h = h

  no_sessions-AllValid : (l : List (ℕ × Session)) → l ≡ [] → AllValid l
  no_sessions-AllValid l e = subst AllValid (sym e) tt

  with_poller-IsOver :
      (polls : List Poll) (r : Result (Server × Fd × Bool))
      → OpensPoller r
      → PolledBy polls r
      → Yields risky (IsOver pf params risky) (with_poller pf params polls r)
  unfolding with_poller stop
  with_poller-IsOver polls (crash c) h p = startup-Tolerable risky c h
  with_poller-IsOver polls (done (v, poller, false)) h p = (h, refl)
  with_poller-IsOver polls (done (v, poller, true)) h p =
      let started : Server = record v { log = Call.notify Notice.server_started ∷ v.log } in
      poller_closed poller (serve pf params v.socket started polls)
        (serve-IsOver pf params risky v.socket polls started (no_sessions-AllValid v.sessions h) p)

  with_socket-IsOver :
      (polls : List Poll) (r : Result Server)
      → Opens r
      → PolledOnce polls r
      → Yields risky (IsOver pf params risky) (with_socket pf params polls r)
  unfolding with_socket
  with_socket-IsOver polls (crash c) h p = startup-Tolerable risky c h
  with_socket-IsOver polls (done v) h p =
      with_poller-IsOver polls (start_poller pf params v) (start_poller-Opens pf params v h) p

  -- A server without sessions that is told to serve, over any polls of which each batch finds its
  -- sessions and sockets when it is polled, ends with no session and no listening socket, or the
  -- process ends. It never ends by an access to a deleted session or by an index out of range of
  -- a vector. Only
  -- if the flag allows WRITE events, DNS answers and datagrams for associations, it may end by a null
  -- pointer or a memcpy with a negative size or overlapping regions; all other ends are exceptions.
  pub serve_all-IsOver :
      (v : Server) (polls : List Poll)
      → v.sessions ≡ []
      → PolledOnce polls (open_server pf params v)
      → Yields risky (IsOver pf params risky) (serve_all pf params v polls)
  unfolding serve_all
  serve_all-IsOver v polls h p =
      with_socket-IsOver polls (open_server pf params v) (open_server-Opens pf params v h) p
