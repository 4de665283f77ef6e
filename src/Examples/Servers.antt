-- ===== src/Examples/Servers.antt =====
-- The server's loop, and the deletion of sessions.
use sockspp.Base.{ℕ, ◌≡◌, ◌≢◌, ◌+◌, refl, none, some, List, [], ◌∷◌}
use sockspp.Core.Event.{only_closed}
use sockspp.System.{Target, Errno}
use sockspp.Session.{World, Session, State, ok, ◌>>◌}
use sockspp.Examples.{two_taken, secret_params, session_in, world_of, connected_remote, server_with}
use sockspp.Session.Teardown.{shutdown, destroy}
use sockspp.Session.Teardown.Closes.{deletion_closes_once, count_closed, count_owned}
use sockspp.Server.Loop.{
  Server, PollEvent, Ptr, server, session_socket, Poll, batch, timeout, error, crash, freed_session,
  process_batch, process_rounds, serve,
}
use sockspp.Server.Loop.Live.{batch_safe}

abbrev relaying : Session
relaying = session_in State.connected (some connected_remote) none

abbrev closed_event : Target → PollEvent
closed_event t = record { flags = only_closed; ptr = session_socket 3 t }

-- Both sockets of a session report at once that they are closed.
abbrev both_closed : List PollEvent
both_closed = closed_event Target.client ∷ closed_event Target.remote ∷ []

abbrev one_session : Server
one_session = server_with ((3, relaying) ∷ [])

batch_safe_example :
    process_batch two_taken secret_params one_session both_closed ≢ crash freed_session
unfolding sockspp.Server.Loop.find_session
batch_safe_example = batch_safe two_taken secret_params one_session both_closed (refl, (refl, tt))

deletion_closes_once_example :
    (w' : World) × ((shutdown >> destroy) (world_of relaying) ≡ ok (tt, w'))
    × ((n : ℕ) → count_closed n w'.log ≡ count_owned n relaying + count_closed n [])
deletion_closes_once_example = deletion_closes_once (world_of relaying)

abbrev some_polls : List Poll
some_polls = timeout ∷ batch both_closed ∷ error Errno.interrupted ∷ []
