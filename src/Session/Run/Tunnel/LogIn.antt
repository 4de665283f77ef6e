-- ===== src/Session/Run/Tunnel/LogIn.antt =====
-- A CONNECT session with a server that asks for a user name and a password, as a whole: what
-- src/server/src/sockspp/server/session.cxx does for a client that presents them.
use sockspp.Base.{ℕ, suc, ◌<◌, ◌≡◌, refl, ap, ◌∙◌, length, Bool, true, false, some, List, [], ◌∷◌}
use sockspp.Core.Enums.{AuthMethod}
use sockspp.Core.SocketInfo.{Sockaddr}
use sockspp.Core.Event.{only_read}
use sockspp.System.{Call, Platform, Fd}
use sockspp.Server.Params.{ServerParams, get_auth_method, authenticate}
use sockspp.Session.{World, State, ok}
use sockspp.Session.Auth.Select.{verdict}
use sockspp.Session.Relay.{Side}
use sockspp.Session.Run.{Event, client, remote, process_event, run}
use sockspp.Session.Run.Tunnel.{receipts, IsCooperative, arrivals, all_passed, step_run, last_run}
use sockspp.Session.Run.Tunnel.Opened.{only_write, connect_request}
use sockspp.Session.Run.Tunnel.Credentials.{
  login_greeting, credentials, asked_to_log_in, offers, presented, presents,
}
use sockspp.Session.Run.Tunnel.Whole.{destination, success_reply, answered, serves_request}

-- The calls of a log-in, newest first, up to the verdict.
abbrev pub judged : Fd → ℕ → List Call → List Call
judged fd status log =
    Call.send fd (5 ∷ status ∷ []) ∷ Call.recv fd ∷ Call.send fd (5 ∷ 2 ∷ []) ∷ Call.recv fd ∷ log

module _ (pf : Platform) (params : ServerParams) (script : ℕ → List ℕ) (k : ℕ) (peer : Sockaddr)
    (good : IsCooperative pf script k peer) (full : (n : ℕ) → 0 < length (script n))
    (secret : get_auth_method params ≡ AuthMethod.user_pass) (w : World) (user pass : List ℕ)
    (st : w.session.state ≡ State.accepted) (first : script (receipts w.log) ≡ login_greeting)
    (short : length user < 256) (short' : length pass < 256)
    (second : script (suc (receipts w.log)) ≡ credentials user pass) where
  -- The session after the verdict.
  abbrev told : Bool → World
  told accepted =
      verdict
        (presented pf params script k peer good (asked_to_log_in pf params script k peer good w))
        accepted

  run_offers :
      (es : List Event)
      → run pf params (client only_read ∷ es) w
        ≡ run pf params es (asked_to_log_in pf params script k peer good w)
  run_offers es =
      step_run pf params script k peer good full (client only_read) es w
        (asked_to_log_in pf params script k peer good w)
        (offers pf params script k peer good w secret st first)

  judges :
      (accepted : Bool)
      → authenticate params user pass ≡ accepted
      → process_event pf params (client only_read) (asked_to_log_in pf params script k peer good w)
        ≡ ok (accepted, told accepted)
  judges accepted says =
      presents pf params script k peer good (asked_to_log_in pf params script k peer good w) user
        pass short short' refl second
      ∙ ap (λ v. ok (v, told v)) says

  -- A server with a user name or a password, and a client that offers to log in and presents
  -- credentials of less than 256 bytes each that the server does not accept, on a system where
  -- sockets can be opened, connections come about and every send takes all its bytes: the client is
  -- told so and the session ends with that event, whatever events were to follow. The calls are the
  -- two receives and the two answers: no socket was opened, and no request was read.
  pub login_refused :
      (es : List Event)
      → authenticate params user pass ≡ false
      → run pf params (client only_read ∷ client only_read ∷ es) w
        ≡ ok (
          false,
          record {
            session = record (w.session) { state = State.auth_requested };
            log = judged w.session.client_socket 255 w.log;
          },
        )
  login_refused es refused =
      run_offers (client only_read ∷ es)
      ∙ last_run pf params script k peer good full (client only_read) es
          (asked_to_log_in pf params script k peer good w) (told false) (judges false refused)

  -- A server with a user name or a password, and a client that offers to log in, presents
  -- credentials of less than 256 bytes each that the server accepts, and then asks for a connection
  -- to an IPv4 address and port, on a system where sockets can be opened, the connection comes about
  -- and every send takes all its bytes: the client is let in, the socket is connected to that
  -- address, the reply "success" names it, and from then on each message is sent on to the other
  -- side, whole and in order, in whatever order the two sides send. The calls are these and no
  -- others.
  pub login_session :
      (reserved a b c d high low : ℕ) (sides : List Side)
      → authenticate params user pass ≡ true
      → w.session.client_buffer.size ≡ 0
      → w.session.remote_buffer.size ≡ 0
      → high < 256
      → low < 256
      → script (suc (suc (receipts w.log))) ≡ connect_request reserved (a ∷ b ∷ c ∷ d ∷ []) high low
      → let ip = a ∷ b ∷ c ∷ d ∷ [] in
        let fd = w.session.client_socket in
        (w' : World) × (spare : ℕ) × (run pf params
            (client only_read
              ∷ client only_read
              ∷ client only_read
              ∷ remote only_write
              ∷ arrivals sides)
            w
          ≡ ok (true, w'))
        × (w'.session.state ≡ State.connected)
        × (w'.log
            ≡ all_passed script fd (some k) sides (
                answered params fd
                  (some k)
                  (destination ip high low)
                  (success_reply spare ip high low)
                  (Call.recv fd ∷ judged fd 0 w.log)))
  login_session reserved a b c d high low sides let_in quiet quiet' hi lo third =
      let (w', spare, runs, relays, logged) =
        serves_request pf params script k peer good full (told true) reserved a b c d high low sides
          refl quiet quiet' hi lo third in
      let rest = client only_read ∷ remote only_write ∷ arrivals sides in
      (
        w',
        spare,
        run_offers (client only_read ∷ rest)
            ∙ step_run pf params script k peer good full (client only_read) rest
                (asked_to_log_in pf params script k peer good w) (told true) (judges true let_in)
            ∙ runs,
        relays,
        logged,
      )
