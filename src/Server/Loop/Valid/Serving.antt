-- ===== src/Server/Loop/Valid/Serving.antt =====
-- The whole loop of `Server::serve` of src/server/src/sockspp/server/server.cxx with all its
-- sessions: how polls that report sockets that exist may end the process.
use sockspp.Base.{
  ℕ, zero, suc, ◌≡◌, refl, length, Bool, true, false, Bool-cases, inl, inr, none, List, [], ◌∷◌,
}
use sockspp.Core.Event.{Flags}
use sockspp.System.{Platform, Fd, Errno}
use sockspp.Server.Params.{ServerParams}
use sockspp.Server.Loop.{
  Server, Ptr, null, server, session_socket, PollEvent, Poll, batch, timeout, error, Result, done,
  crash, stop, is_serving, create_session, session_event, resume, resume_created, round,
  process_rounds, process_batch, serve,
}
use sockspp.Server.Loop.Ends.{HasEnded, finish_ends}
use sockspp.Server.Loop.Polls.{AllValid, ReadyPtr, Ready, Apart, Distinct}
use sockspp.Server.Loop.Valid.{Yields, Good, GoodAfter, create_Good, event_Good}

-- A server whose sessions are valid.
abbrev pub IsSound : Server → Type 0
IsSound v = AllValid v.sessions

module _ (pf : Platform) (params : ServerParams) (risky : Bool) where
  abbrev IsKept : (Server → List PollEvent → Result Server) → Type 0
  IsKept next =
      (v : Server) (es : List PollEvent)
      → Good pf params risky es v
      → Yields risky IsSound (next v es)

  resume_kept :
      (next : Server → List PollEvent → Result Server) (k : ℕ) (es : List PollEvent)
      (r : Result (Server × Bool))
      → IsKept next
      → Yields risky (GoodAfter pf params risky k es) r
      → Yields risky IsSound (resume pf params next k es r)
  unfolding resume
  resume_kept next k es (crash c) kept h = h
  resume_kept next k es (done (v, true)) kept h = kept v es h
  resume_kept next k es (done (v, false)) kept h = kept v _ h

  created_kept :
      (next : Server → List PollEvent → Result Server) (es : List PollEvent) (r : Result Server)
      → IsKept next
      → Yields risky (Good pf params risky es) r
      → Yields risky IsSound (resume_created pf params next es r)
  unfolding resume_created
  created_kept next es (crash c) kept h = h
  created_kept next es (done v) kept h = kept v es h

  round_kept :
      (next : Server → List PollEvent → Result Server) (v : Server) (flags : Flags) (p : Ptr)
      (es : List PollEvent)
      → IsKept next
      → ReadyPtr risky flags p v.sessions
      → Apart p es
      → Good pf params risky es v
      → Yields risky IsSound (round pf params next v flags p es)
  unfolding round stop
  round_kept next v flags null es kept h apart g = kept v es g
  round_kept next v flags server es kept h apart g = elim (Bool-cases flags.read) [
    | inl e ↦
        rw (e, Yields)
          (created_kept next es (create_session pf params v) kept
            (create_Good pf params risky v es g))
    | inr e ↦ rw (e, Yields) g.0
  ]
  round_kept next v flags (session_socket k t) es kept h apart g =
      resume_kept next k es (session_event pf params v k t flags) kept
        (event_Good pf params risky v k t flags es h apart g)

  rounds-IsKept : (n : ℕ) → IsKept (process_rounds pf params n)
  unfolding process_rounds
  rounds-IsKept zero v es g = g.0
  rounds-IsKept (suc n) v [] g = g.0
  rounds-IsKept (suc n) v (e ∷ es) (valid, (h, ready), (apart, distinct)) =
      round_kept (process_rounds pf params n) v e.flags e.ptr es (rounds-IsKept n) h apart
        (valid, ready, distinct)

  -- A batch in which each event finds its session and its socket, and each socket stands once,
  -- keeps all sessions valid, those that it accepts included, and ends the process neither by an
  -- access to a deleted session nor by an index out of range of a vector; by a null pointer or a
  -- memcpy with a negative size or overlapping regions only if the flag allows WRITE events, DNS
  -- answers and datagrams for associations.
  pub process_batch-IsSound :
      (v : Server) (es : List PollEvent)
      → IsSound v
      → Ready risky es v.sessions
      → Distinct es
      → Yields risky IsSound (process_batch pf params v es)
  unfolding process_batch
  process_batch-IsSound v es valid ready distinct =
      rounds-IsKept (length es) v es (valid, ready, distinct)

  -- Each batch is ready for the server at the time of its poll.
  abbrev pub Polled : List Poll → Server → Type 0
  Polled [] v = Unit
  Polled (batch es ∷ polls) v =
      Ready risky es v.sessions
      × Distinct es
      × ((v' : Server) → process_batch pf params v es ≡ done v' → Polled polls v')
  Polled (timeout ∷ polls) v = Polled polls v
  Polled (error e ∷ polls) v = Unit

  -- The loop has ended with no session and no listening socket.
  abbrev pub IsOver : Server → Type 0
  IsOver v = (v.sessions ≡ []) × (v.socket ≡ none)

  over : (r : Result Server) → HasEnded pf params r → Yields risky IsOver r
  over r (v, e, h, h') = rw (e, Yields) (h, h')

  batch-IsOver :
      (fd : Fd) (v : Server) (es : List PollEvent) (polls : List Poll) (r : Result Server)
      → process_batch pf params v es ≡ r
      → Yields risky IsSound r
      → ((v' : Server)
          → r ≡ done v'
          → IsSound v'
          → Yields risky IsOver (serve pf params fd v' polls))
      → Yields risky IsOver (elim r [ crash c ↦ crash c | done v' ↦ serve pf params fd v' polls ])
  batch-IsOver fd v es polls (crash c) e h k = h
  batch-IsOver fd v es polls (done v') e h k = k v' refl h

  serving :
      (fd : Fd) (v : Server) (polls : List Poll) (p : Poll)
      → is_serving v ≡ true
      → IsSound v
      → Polled (p ∷ polls) v
      → ((v' : Server)
          → IsSound v'
          → Polled polls v'
          → Yields risky IsOver (serve pf params fd v' polls))
      → Yields risky IsOver (serve pf params fd v (p ∷ polls))
  unfolding serve
  serving fd v polls (batch es) on valid (ready, distinct, next) rest =
      rw (on, serve)
        (batch-IsOver fd v es polls (process_batch pf params v es) refl
          (process_batch-IsSound v es valid ready distinct)
          (λ v' e valid'. rest v' valid' (next v' e)))
  serving fd v polls timeout on valid h rest = rw (on, serve) (rest v valid h)
  serving fd v polls (error Errno.interrupted) on valid h rest =
      rw (on, serve) (over _ (finish_ends pf params fd v))
  serving fd v polls (error Errno.would_block) on valid h rest =
      rw (on, serve) (over _ (finish_ends pf params fd (stop v)))
  serving fd v polls (error Errno.in_progress) on valid h rest =
      rw (on, serve) (over _ (finish_ends pf params fd (stop v)))
  serving fd v polls (error (Errno.other k)) on valid h rest =
      rw (on, serve) (over _ (finish_ends pf params fd (stop v)))

  -- From a server whose sessions are valid, over any polls of which each batch finds its sessions
  -- and sockets when it is polled, the loop ends with no session and no listening socket, or the
  -- process ends: never by an access to a deleted session or an index out of range of a vector, and
  -- by a null pointer or a memcpy with a negative size or overlapping regions only if the flag allows
  -- WRITE events, DNS answers and datagrams for associations; all other ends are exceptions.
  pub serve-IsOver :
      (fd : Fd) (polls : List Poll) (v : Server)
      → IsSound v
      → Polled polls v
      → Yields risky IsOver (serve pf params fd v polls)
  unfolding serve
  serve-IsOver fd [] v valid h = over _ (finish_ends pf params fd v)
  serve-IsOver fd (p ∷ polls) v valid h = elim (Bool-cases (is_serving v)) [
    | inl on ↦ serving fd v polls p on valid h (serve-IsOver fd polls)
    | inr off ↦ rw (off, serve) (over _ (finish_ends pf params fd v))
  ]
