-- ===== src/Server/Loop/Ends.antt =====
-- The end of `Server::serve` of src/server/src/sockspp/server/server.cxx.
use sockspp.Base.{
  ℕ, ◌≡◌, refl, ◌⊎◌, inl, inr, arith, true, Bool-cases, none, some, Option-cases, List, [], ◌∷◌,
}
use sockspp.System.{Fd, Call, Platform, Notice, Errno}
use sockspp.Server.Params.{ServerParams}
use sockspp.Session.{World, Session, DnsSocket, ok}
use sockspp.Session.Calls.{close}
use sockspp.Session.Teardown.{destroy, close_dns, remote_fd, udp_fd}
use sockspp.Server.Loop.{
  Server, PollEvent, Poll, batch, timeout, error, Crash, Result, done, crash, stop, is_serving,
  delete_all, finish, serve, process_batch,
}

close_done :
    (fd : Fd) (w : World) → (log : List Call) × (close fd w ≡ ok (tt, record w { log = log }))
unfolding close
close_done none w = (w.log, refl)
close_done (some k) w = (_, refl)

close_dns_done :
    (l : List DnsSocket) (w : World)
    → (log : List Call) × (close_dns l w ≡ ok (tt, record w { log = log }))
unfolding close_dns
close_dns_done [] w = (w.log, refl)
close_dns_done (d ∷ l) w =
    let (log1, e1) = close_done d.fd w in
    let (log2, e2) = close_dns_done l (record w { log = log1 }) in (log2, ground (arith, e1, e2))

destroy_done : (w : World) → (w' : World) × (destroy w ≡ ok (tt, w'))
unfolding destroy
destroy_done w =
    let s = w.session in
    let (log1, e1) = close_done s.client_socket w in
    let (log2, e2) =
      close_done (remote_fd s.remote_socket)
        (record w { log = Call.notify Notice.client_disconnected ∷ log1 }) in
    let (log3, e3) = close_done (udp_fd s.udp_socket) (record w { log = log2 }) in
    let (log4, e4) = close_dns_done s.dns_sockets (record w { log = log3 }) in
    (record w { log = log4 }, ground (arith, e1, e2, e3, e4))

module _ (pf : Platform) (params : ServerParams) where
  delete_all_done :
      (l : List (ℕ × Session)) (log : List Call)
      → (log' : List Call) × (delete_all pf params l log ≡ done log')
  unfolding delete_all
  delete_all_done [] log = (log, refl)
  delete_all_done ((k, s) ∷ l) log =
      let (w, e) = destroy_done (record { session = s; log = log }) in
      let (log', e') = delete_all_done l w.log in (log', ground (arith, e, e'))

  -- The server has no session and no listening socket.
  abbrev pub HasEnded : Result Server → Type 0
  HasEnded r = (v : Server) × (r ≡ done v) × (v.sessions ≡ []) × (v.socket ≡ none)

  pub finish_ends : (fd : Fd) (v : Server) → HasEnded (finish pf params fd v)
  unfolding finish stop
  finish_ends fd v =
      let (log, e) = delete_all_done v.sessions (Call.remove_event fd ∷ v.log) in
      elim (Option-cases v.socket) [
        | inl no_socket ↦ (
          record v { sessions = []; log = Call.notify Notice.server_stopped ∷ log },
          ground (arith, e),
          refl,
          no_socket,
        )
        | inr (k, socket) ↦
            let v1 = stop (record v { sessions = []; log = log }) in
            (
              record v1 { log = Call.notify Notice.server_stopped ∷ v1.log },
              ground (arith, e),
              refl,
              refl,
            )
      ]

  -- The run of the loop from this server comes to the batch that ends the process so: the server is
  -- still serving, and the batches before were handled.
  abbrev pub CrashesIn : Server → List Poll → Crash → Type 0
  CrashesIn v [] c = ⊥
  CrashesIn v (batch es ∷ polls) c =
      (is_serving v ≡ true)
      × ((process_batch pf params v es ≡ crash c)
          ⊎ ((v' : Server) × (process_batch pf params v es ≡ done v') × CrashesIn v' polls c))
  CrashesIn v (timeout ∷ polls) c = (is_serving v ≡ true) × CrashesIn v polls c
  CrashesIn v (error e ∷ polls) c = ⊥

  -- The loop ended the process with what one of its own batches crashed with.
  abbrev pub HasCrashed : Server → List Poll → Result Server → Type 0
  HasCrashed v polls r = (c : Crash) × (r ≡ crash c) × CrashesIn v polls c

  abbrev pub EndsOrCrashes : Server → List Poll → Result Server → Type 0
  EndsOrCrashes v polls r = HasEnded r ⊎ HasCrashed v polls r

  go_on :
      (fd : Fd) (v : Server) (es : List PollEvent) (polls : List Poll) (r : Result Server)
      → process_batch pf params v es ≡ r
      → is_serving v ≡ true
      → ((v' : Server) → EndsOrCrashes v' polls (serve pf params fd v' polls))
      → EndsOrCrashes v (batch es ∷ polls) (serve pf params fd v (batch es ∷ polls))
  unfolding serve
  go_on fd v es polls (crash c) e on rest = inr (c, ground arith, (on, inl e))
  go_on fd v es polls (done v') e on rest = elim (rest v') [
    | inl (v1, q, h1, h2) ↦ inl (v1, ground (arith, q), h1, h2)
    | inr (c, q, h) ↦ inr (c, ground (arith, q), (on, inr (v', e, h)))
  ]

  wait_on :
      (fd : Fd) (v : Server) (polls : List Poll)
      → is_serving v ≡ true
      → EndsOrCrashes v polls (serve pf params fd v polls)
      → EndsOrCrashes v (timeout ∷ polls) (serve pf params fd v (timeout ∷ polls))
  unfolding serve
  wait_on fd v polls on (inl (v1, q, h1, h2)) = inl (v1, ground (arith, q), h1, h2)
  wait_on fd v polls on (inr (c, q, h)) = inr (c, ground (arith, q), (on, h))

  -- Whatever the polls return, the loop ends with no session and no listening socket left, unless
  -- it comes to a batch whose events end the process, and then it ends as they do: `stop`, an
  -- interrupted poll, a failed one and the deletion of all sessions do not end the process.
  pub serve_ends :
      (fd : Fd) (polls : List Poll) (v : Server)
      → EndsOrCrashes v polls (serve pf params fd v polls)
  unfolding serve
  serve_ends fd [] v = inl (finish_ends fd v)
  serve_ends fd (p ∷ polls) v = elim (Bool-cases (is_serving v)) [
    | inl on ↦ serving p on (serve_ends fd polls)
    | inr off ↦ inl (rw (off, serve) (finish_ends fd v))
  ]
    where
      serving :
          (p : Poll)
          → is_serving v ≡ true
          → ((v' : Server) → EndsOrCrashes v' polls (serve pf params fd v' polls))
          → EndsOrCrashes v (p ∷ polls) (serve pf params fd v (p ∷ polls))
      serving (batch es) on rest = go_on fd v es polls (process_batch pf params v es) refl on rest
      serving timeout on rest = wait_on fd v polls on (rest v)
      serving (error Errno.interrupted) on rest = inl (rw (on, serve) (finish_ends fd v))
      serving (error Errno.would_block) on rest = inl (rw (on, serve) (finish_ends fd (stop v)))
      serving (error Errno.in_progress) on rest = inl (rw (on, serve) (finish_ends fd (stop v)))
      serving (error (Errno.other n)) on rest = inl (rw (on, serve) (finish_ends fd (stop v)))
