-- ===== src/Server/Loop.antt =====
-- The event loop of src/server/src/sockspp/server/server.cxx: `serve`, `stop`, `_accept_client`,
-- `_create_new_session`, `_delete_session` and `_delete_all_sessions`. A session's address is a
-- number that no other session has had.
pub mod Live
pub mod Polls
pub mod Valid
pub mod Ends
pub mod Fuel
pub mod Startup
use sockspp.Base.{
  ℕ, zero, suc, length, Bool, true, false, not, ◌==◌, if◌then◌else◌, Option, none, some, List, [],
  ◌∷◌, ◌++◌,
}
use sockspp.Core.Event.{Flags, only_closed}
use sockspp.System.{Fd, Call, Target, Platform, Errno, Notice}
use sockspp.Server.Params.{ServerParams}
use sockspp.Session.{World, Session, Fault, Outcome, M, ok, fault, ◌>>=◌, ◌>>◌}
use sockspp.Session.Run.{Event, client, remote, udp, dns, process_event}
use sockspp.Session.Events.{initialize}
use sockspp.Session.Teardown.{new_session, construct, shutdown, destroy}

pub record Server : Type 0 where
  pub socket : Fd
  pub sessions : List (ℕ × Session)
  pub next_id : ℕ
  pub log : List Call

-- What an event's pointer is: null, the server, or a socket of the session at an address.
pub data Ptr : Type 0 where
  null server : Ptr
  session_socket : ℕ → Target → Ptr

pub record PollEvent : Type 0 where
  pub flags : Flags
  pub ptr : Ptr

-- What `poll` returns: a batch of events, none, or an error.
pub data Poll : Type 0 where
  batch : List PollEvent → Poll
  timeout : Poll
  error : Errno → Poll

-- Why the process ends: a fault in a session, an access to a deleted session, or the exception of
-- a call that failed.
pub data Crash : Type 0 where
  in_session : Fault → Crash
  accept_failed freed_session : Crash
  socket_failed bind_failed poller_failed : Crash

pub data Result {ℓ} (A : Type ℓ) : Type ℓ where
  done : A → Result A
  crash : Crash → Result A

-- The session at an address, and the vector with it replaced or erased.
unfoldable pub find_session : ℕ → List (ℕ × Session) → Option Session
find_session k [] = none
find_session k ((j, s) ∷ rest) = if j == k then some s else find_session k rest

unfoldable pub set_session : ℕ → Session → List (ℕ × Session) → List (ℕ × Session)
set_session k t [] = []
set_session k t ((j, s) ∷ rest) = if j == k then (j, t) ∷ rest else (j, s) ∷ set_session k t rest

unfoldable pub erase_session : ℕ → List (ℕ × Session) → List (ℕ × Session)
erase_session k [] = []
erase_session k ((j, s) ∷ rest) = if j == k then rest else (j, s) ∷ erase_session k rest

unfoldable pub target_event : Target → Flags → Event
target_event Target.client flags = client flags
target_event Target.remote flags = remote flags
target_event Target.udp flags = udp flags
target_event (Target.dns i) flags = dns flags i

-- `events[j] = Event(0, Event::Closed, nullptr)` for the later events of a session.
abbrev pub clear_ptr : ℕ → PollEvent → PollEvent
clear_ptr k e = elim e.ptr [
  | null ↦ e
  | server ↦ e
  | session_socket j t ↦ if j == k then record { flags = only_closed; ptr = null } else e
]

unfoldable pub clear_events : ℕ → List PollEvent → List PollEvent
clear_events k [] = []
clear_events k (e ∷ rest) = clear_ptr k e ∷ clear_events k rest

-- `stop`.
unfoldable pub stop : Server → Server
stop v = record v {
  socket = none;
  log = elim v.socket [
    | none ↦ Call.shut_down none ∷ v.log
    | some fd ↦ Call.close (some fd) ∷ Call.shut_down (some fd) ∷ v.log
  ];
}

abbrev pub is_serving : Server → Bool
is_serving v = elim v.socket [ none ↦ false | some fd ↦ true ]

module _ (pf : Platform) (params : ServerParams) where
  -- `_accept_client` and `_create_new_session`.
  unfoldable pub create_session : Server → Result Server
  create_session v =
      let log = Call.accept v.socket ∷ v.log in
      elim (pf.os.opened log) [
        | none ↦ crash accept_failed
        | some fd ↦
            let w : World = record {
              session = new_session (pf.os.garbage log) (some fd);
              log = log;
            } in
            elim ((construct >> initialize pf params) w) [
              | fault f ↦ crash (in_session f)
              | ok (_, w') ↦ done (record v {
                sessions = v.sessions ++ (v.next_id, w'.session) ∷ [];
                next_id = suc v.next_id;
                log = w'.log;
              })
            ]
      ]

  -- `_delete_session`.
  unfoldable pub delete_session : Server → ℕ → Session → Result Server
  delete_session v k s = elim ((shutdown >> destroy) (record { session = s; log = v.log })) [
    | fault f ↦ crash (in_session f)
    | ok (_, w) ↦ done (record v { sessions = erase_session k v.sessions; log = w.log })
  ]

  -- `session_socket->process_event(flags)`, and the deletion if it returned false. The flag says
  -- whether the session is still there.
  unfoldable pub session_event : Server → ℕ → Target → Flags → Result (Server × Bool)
  unfolding delete_session
  session_event v k t flags = elim (find_session k v.sessions) [
    | none ↦ crash freed_session
    | some s ↦
        elim (process_event pf params (target_event t flags)
          (record { session = s; log = v.log })) [
            | fault f ↦ crash (in_session f)
            | ok (true, w) ↦
                done (record v { sessions = set_session k w.session v.sessions; log = w.log }, true)
            | ok (false, w) ↦ elim (delete_session (record v { log = w.log }) k w.session) [
              | crash c ↦ crash c
              | done v' ↦ done (v', false)
            ]
          ]
  ]

  -- One event of a batch, before the events `rest`; `next` is the loop over what follows. A deleted
  -- session's events are cleared from the ones that follow.
  unfoldable pub resume :
      (Server → List PollEvent → Result Server)
      → ℕ
      → List PollEvent
      → Result (Server × Bool)
      → Result Server
  resume next k rest (crash c) = crash c
  resume next k rest (done (v, true)) = next v rest
  resume next k rest (done (v, false)) = next v (clear_events k rest)

  unfoldable pub resume_created :
      (Server → List PollEvent → Result Server) → List PollEvent → Result Server → Result Server
  resume_created next rest (crash c) = crash c
  resume_created next rest (done v) = next v rest

  unfoldable pub round :
      (Server → List PollEvent → Result Server)
      → Server
      → Flags
      → Ptr
      → List PollEvent
      → Result Server
  unfolding resume resume_created
  round next v flags null rest = next v rest
  round next v flags server rest =
      if flags.read then resume_created next rest (create_session v) else done (stop v)
  round next v flags (session_socket k t) rest = resume next k rest (session_event v k t flags)

  -- The loop over the events of one poll, with `rounds` of them left.
  unfoldable pub process_rounds : ℕ → Server → List PollEvent → Result Server
  unfolding round session_event clear_events
  process_rounds zero v events = done v
  process_rounds (suc n) v [] = done v
  process_rounds (suc n) v (e ∷ rest) = round (process_rounds n) v e.flags e.ptr rest

  unfoldable pub process_batch : Server → List PollEvent → Result Server
  unfolding process_rounds
  process_batch v events = process_rounds (length events) v events

  -- `_delete_all_sessions`.
  unfoldable pub delete_all : List (ℕ × Session) → List Call → Result (List Call)
  unfolding destroy
  delete_all [] log = done log
  delete_all ((k, s) ∷ rest) log = elim (destroy (record { session = s; log = log })) [
    | fault f ↦ crash (in_session f)
    | ok (_, w) ↦ delete_all rest w.log
  ]

  -- After the loop of `serve`; `server_sock` is the descriptor that the loop began with.
  unfoldable pub finish : Fd → Server → Result Server
  unfolding delete_all
  finish server_sock v = elim (delete_all v.sessions (Call.remove_event server_sock ∷ v.log)) [
    | crash c ↦ crash c
    | done log ↦
        let v' : Server = record v { sessions = []; log = log } in
        let v2 = (if is_serving v' then stop v' else v') in
        done (record v2 { log = Call.notify Notice.server_stopped ∷ v2.log })
  ]

  -- The `while` loop of `serve`, from one `poll` to the next.
  unfoldable pub serve : Fd → Server → List Poll → Result Server
  unfolding process_batch finish
  serve server_sock v [] = finish server_sock v
  serve server_sock v (p ∷ polls) = elim (is_serving v) [
    | false ↦ finish server_sock v
    | true ↦ elim p [
      | timeout ↦ serve server_sock v polls
      | error Errno.interrupted ↦ finish server_sock v
      | error _ ↦ finish server_sock (stop v)
      | batch events ↦ elim (process_batch v events) [
        | crash c ↦ crash c
        | done v' ↦ serve server_sock v' polls
      ]
    ]
  ]
