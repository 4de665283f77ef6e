-- ===== src/Examples/Startup.antt =====
-- Servers that start, and one that cannot.
use mathlib.Core.Path.{subst}
use sockspp.Base.{ℕ, ◌≡◌, refl, ap, false, none, some, List, [], ◌∷◌}
use sockspp.Core.Event.{only_read}
use sockspp.System.{Platform, IoResult, Received, Errno, Target}
use sockspp.Session.{Session}
use sockspp.Session.Teardown.{construct}
use sockspp.Session.Events.{initialize}
use sockspp.Server.Loop.{
  Server, Poll, PollEvent, server, session_socket, batch, timeout, error, crash, bind_failed, done,
  Result, process_batch, create_session, find_session, target_event,
}
use sockspp.Server.Loop.Polls.{Ready}
use sockspp.Server.Loop.Valid.{Yields}
use sockspp.Server.Loop.Valid.Serving.{IsOver}
use sockspp.Server.Loop.Valid.Whole.{serve_all-IsOver}
use sockspp.Server.Loop.Startup.{open_server, start_poller, serve_all}
use sockspp.Server.Loop.Startup.Opening.{serve_all_v6}
use sockspp.Examples.{host, steady, secret_params}

-- A server before `serve`.
abbrev idle_server : Server
idle_server = record { socket = none; sessions = []; next_id = 0; log = [] }

-- A system on which every call succeeds, and one that reads "v" as an IPv6 address and refuses to
-- bind.
abbrev pub all_succeed : Platform
all_succeed = record (steady (IoResult.count 0) (λ log. Received.got [] host)) {
  inet_pton = record { v4 = λ text. some (10 ∷ 0 ∷ 0 ∷ 1 ∷ []); v6 = λ text. none };
}

abbrev only_v6 : Platform
only_v6 = record (steady (IoResult.failed (Errno.other 97)) (λ log. Received.got [] host)) {
  inet_pton = record { v4 = λ text. none; v6 = λ text. some (1 ∷ []) };
}

abbrev pub interrupted_at_once : List Poll
interrupted_at_once = timeout ∷ error Errno.interrupted ∷ []

serve_all_v6_example :
    serve_all only_v6 secret_params idle_server interrupted_at_once ≡ crash bind_failed
serve_all_v6_example =
    serve_all_v6 only_v6 secret_params idle_server 7 refl (1 ∷ []) interrupted_at_once refl refl
      (λ addr h. refl)

-- A client that connects, then sends something, and an interrupt.
abbrev one_client : List PollEvent
one_client = record { flags = only_read; ptr = server } ∷ []

abbrev its_greeting : List PollEvent
its_greeting = record { flags = only_read; ptr = session_socket 0 Target.client } ∷ []

abbrev short_day : List Poll
short_day = batch one_client ∷ batch its_greeting ∷ error Errno.interrupted ∷ []

abbrev sessions_of : Result Server → List (ℕ × Session)
sessions_of (done v) = v.sessions
sessions_of (crash c) = []

serve_all-IsOver_example :
    Yields false
      (IsOver all_succeed secret_params false)
      (serve_all all_succeed secret_params idle_server short_day)
unfolding open_server start_poller process_batch create_session find_session target_event construct
    initialize
serve_all-IsOver_example =
    serve_all-IsOver all_succeed secret_params false idle_server short_day refl (
      (tt, tt),
      (tt, tt),
      λ v e. (
        subst (λ (l : List (ℕ × Session)). Ready false its_greeting l) (ap sessions_of e)
            ((_, refl, tt, refl), tt),
        (tt, tt),
        λ v' e'. tt,
      ),
    )
