-- ===== src/Examples/Remotes.antt =====
-- A connection to a remote host, from the request to the reply.
use sockspp.Base.{ℕ, ◌≡◌, ◌-◌, refl, arith, of_bytes, true, false, none, some, List, [], ◌∷◌}
use sockspp.Core.Enums.{Reply, addr_type_byte}
use sockspp.Core.SocketInfo.{ipv4}
use sockspp.Core.IpAddress.{IpAddress}
use sockspp.Core.Event.{write_closed}
use sockspp.System.{Call, CtlOp, Target}
use sockspp.Session.{World, State, ok}
use sockspp.Session.Auth.{size_mod}
use sockspp.Examples.{
  zeros, two_taken, secret_params, session_in, world_of, address_at, trying_remote, buffer_of,
}
use sockspp.Session.Remote.{try_connect_next}
use sockspp.Session.Remote.Attempts.{tries_in_order, errors, connects, idx_before}
use sockspp.Session.Run.{run}
use sockspp.Session.Remote.Replies.{gives_up, replied}
use sockspp.Session.Events.{handle_request}
use sockspp.Session.Execute.Connects.{request_connects, requested, connecting}

abbrev list_of_two : List IpAddress
list_of_two = address_at 1 ∷ address_at 2 ∷ []

abbrev trying : ℕ → World
trying idx =
    world_of (session_in State.connecting_remote (some (trying_remote idx list_of_two)) none)

tries_in_order_example :
    (w' : World) × (run two_taken secret_params (errors 2) (trying (size_mod - 1)) ≡ ok (true, w'))
    × (w'.log ≡ connects (some 5) list_of_two [])
    × (w'.session.remote_socket ≡ some (trying_remote (idx_before 2) list_of_two))
    × (w'.session.state ≡ State.connecting_remote)
tries_in_order_example =
    tries_in_order two_taken secret_params (λ log. refl) list_of_two (trying (size_mod - 1))
      (trying_remote (size_mod - 1) list_of_two) refl refl refl refl (omega arith)

gives_up_example :
    (w' : World) × (try_connect_next two_taken (trying 1) ≡ ok (false, w'))
    × (w'.log ≡ replied two_taken (trying 1) Reply.unreachable (address_at 2))
gives_up_example =
    gives_up two_taken (trying 1) (trying_remote 1 list_of_two) (address_at 2) refl refl
      (omega arith) (address_at 1 ∷ []) refl refl (omega arith)

-- CONNECT to 10.0.0.1, port 80.
abbrev request_bytes : List ℕ
request_bytes = 5 ∷ 1 ∷ 0 ∷ 1 ∷ 10 ∷ 0 ∷ 0 ∷ 1 ∷ 0 ∷ 80 ∷ []

abbrev ready : World
ready = world_of (session_in State.authenticated none none)

request_connects_example :
    (w' : World) × (handle_request two_taken secret_params (buffer_of request_bytes) ready
      ≡ ok (true, w'))
    × (w'.session.state ≡ State.connecting_remote)
    × (w'.log
        ≡ Call.set_event CtlOp.add (some 7) Target.remote write_closed
          ∷ connecting secret_params ready ipv4 7 (requested (of_bytes request_bytes zeros) ipv4))
unfolding addr_type_byte
request_connects_example =
    request_connects two_taken secret_params ready (of_bytes request_bytes zeros)
      (buffer_of request_bytes) refl ipv4 7 refl refl (omega arith) (omega arith) refl refl
