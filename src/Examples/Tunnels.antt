-- ===== src/Examples/Tunnels.antt =====
-- A client that connects through the server and exchanges messages.
use sockspp.Base.{
  bytes_eq, ℕ, zero, suc, ◌<◌, ◌≡◌, refl, arith, length, true, false, none, some, List, [], ◌∷◌,
}
use sockspp.Core.Event.{only_read}
use sockspp.System.{Call, Platform, IoResult, Received, Errno}
use sockspp.Server.Params.{ServerParams, get_auth_method, authenticate}
use sockspp.Session.{World, State, ok}
use sockspp.Session.Relay.{Side, to_client, to_remote}
use sockspp.Session.Run.{client, remote, run}
use sockspp.Session.Run.Tunnel.{receipts, IsCooperative, arrivals, all_passed}
use sockspp.Session.Run.Tunnel.Opened.{only_write, greeting, connect_request}
use sockspp.Session.Run.Tunnel.Whole.{destination, success_reply, set_up, answered, connect_session}
use sockspp.Session.Run.Tunnel.Credentials.{login_greeting, credentials}
use sockspp.Session.Run.Tunnel.LogIn.{judged, login_refused, login_session}
use sockspp.Examples.{host, steady, secret_params, session_in, world_of}

-- The greeting, a request for port 80 of 10.0.0.9, and messages of one byte.
abbrev messages : ℕ → List ℕ
messages zero = greeting
messages (suc zero) = connect_request 0 (10 ∷ 0 ∷ 0 ∷ 9 ∷ []) 0 80
messages (suc (suc n)) = n ∷ []

messages_full : (n : ℕ) → 0 < length (messages n)
messages_full zero = omega arith
messages_full (suc zero) = omega arith
messages_full (suc (suc n)) = omega arith

abbrev results : List Call → IoResult
results (Call.send fd bytes ∷ log) = IoResult.count (length bytes)
results (Call.connect fd addr ∷ log) = IoResult.failed Errno.in_progress
results _ = IoResult.count 0

abbrev deliveries : (ℕ → List ℕ) → List Call → Received
deliveries script (Call.recv fd ∷ log) = Received.got (script (receipts log)) host
deliveries script _ = Received.failed Errno.would_block

abbrev helpful : (ℕ → List ℕ) → Platform
helpful script =
    let p = steady (IoResult.count 0) (deliveries script) in
    record p { os = record (p.os) { result = results } }

helpful-IsCooperative : (script : ℕ → List ℕ) → IsCooperative (helpful script) script 7 host
helpful-IsCooperative script = record {
  sends = λ fd bytes log. refl;
  connects = λ fd addr log. refl;
  opens = λ kind log. refl;
  names = λ fd log. refl;
  delivers = λ fd log. refl;
}

abbrev open_params : ServerParams
open_params = record secret_params { username = []; password = [] }

abbrev accepted : World
accepted = world_of (session_in State.accepted none none)

abbrev both_ways : List Side
both_ways = to_remote ∷ to_client ∷ to_remote ∷ []

connect_session_example :
    (w' : World) × (spare : ℕ) × (run
        (helpful messages)
        open_params
        (client only_read ∷ client only_read ∷ remote only_write ∷ arrivals both_ways)
        accepted
      ≡ ok (true, w'))
    × (w'.session.state ≡ State.connected)
    × (w'.log
        ≡ all_passed messages (some 3) (some 7) both_ways (
            set_up open_params
              (some 3)
              (some 7)
              (destination (10 ∷ 0 ∷ 0 ∷ 9 ∷ []) 0 80)
              (success_reply spare (10 ∷ 0 ∷ 0 ∷ 9 ∷ []) 0 80)
              []))
unfolding get_auth_method
connect_session_example =
    connect_session (helpful messages) open_params messages 7 host (helpful-IsCooperative messages)
      messages_full accepted 0 10 0 0 9 0 80 both_ways refl refl refl refl (omega arith)
      (omega arith) refl refl

-- A client that logs in with these credentials first.
abbrev login_messages : List ℕ → List ℕ → ℕ → List ℕ
login_messages user pass zero = login_greeting
login_messages user pass (suc zero) = credentials user pass
login_messages user pass (suc (suc n)) = messages (suc n)

login_messages_full : (user pass : List ℕ) (n : ℕ) → 0 < length (login_messages user pass n)
login_messages_full user pass zero = omega arith
login_messages_full user pass (suc zero) = omega arith
login_messages_full user pass (suc (suc n)) = messages_full (suc n)

-- The server's user name and password are "a" and "b".
abbrev known_messages : ℕ → List ℕ
known_messages = login_messages (97 ∷ []) (98 ∷ [])

abbrev unknown_messages : ℕ → List ℕ
unknown_messages = login_messages (97 ∷ []) (99 ∷ [])

login_session_example :
    (w' : World) × (spare : ℕ) × (run
        (helpful known_messages)
        secret_params
        (client only_read
          ∷ client only_read
          ∷ client only_read
          ∷ remote only_write
          ∷ arrivals both_ways)
        accepted
      ≡ ok (true, w'))
    × (w'.session.state ≡ State.connected)
    × (w'.log
        ≡ all_passed known_messages (some 3) (some 7) both_ways (
            answered secret_params
              (some 3)
              (some 7)
              (destination (10 ∷ 0 ∷ 0 ∷ 9 ∷ []) 0 80)
              (success_reply spare (10 ∷ 0 ∷ 0 ∷ 9 ∷ []) 0 80)
              (Call.recv (some 3) ∷ judged (some 3) 0 [])))
unfolding get_auth_method authenticate bytes_eq
login_session_example =
    login_session (helpful known_messages) secret_params known_messages 7 host
      (helpful-IsCooperative known_messages) (login_messages_full (97 ∷ []) (98 ∷ [])) refl accepted
      (97 ∷ []) (98 ∷ []) refl refl (omega arith) (omega arith) refl 0 10 0 0 9 0 80 both_ways refl
      refl refl (omega arith) (omega arith) refl

login_refused_example :
    run
      (helpful unknown_messages)
      secret_params
      (client only_read ∷ client only_read ∷ client only_read ∷ [])
      accepted
    ≡ ok (
      false,
      record {
        session = record (accepted.session) { state = State.auth_requested };
        log = judged (some 3) 255 [];
      },
    )
unfolding get_auth_method authenticate bytes_eq
login_refused_example =
    login_refused (helpful unknown_messages) secret_params unknown_messages 7 host
      (helpful-IsCooperative unknown_messages) (login_messages_full (97 ∷ []) (99 ∷ [])) refl
      accepted (97 ∷ []) (99 ∷ []) refl refl (omega arith) (omega arith) refl
      (client only_read ∷ []) refl
