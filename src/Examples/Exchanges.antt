-- ===== src/Examples/Exchanges.antt =====
-- A question to a name server and its answer through an association.
use sockspp.Base.{◌+◌, ◌*◌, ◌≡◌, refl, arith, slice, true, some, List, [], ◌∷◌}
use sockspp.Core.SocketInfo.{ipv4, to}
use sockspp.Core.Event.{only_read}
use sockspp.System.{Call, Platform, IoResult, Received, Errno}
use sockspp.Session.{World, State, ok}
use sockspp.Session.Udp.Ports.{host_at}
use sockspp.Session.Run.{udp, remote, run}
use sockspp.Session.Run.Datagrams.{wrapped}
use sockspp.Session.Run.Datagrams.Exchange.{exchange}
use sockspp.Examples.{
  host, steady, secret_params, some_info, session_in, world_of, connected_remote, some_udp,
}

abbrev associated : World
associated = world_of (session_in State.associated (some connected_remote) (some some_udp))

-- The client asks 10.0.0.9, port 53, which answers.
abbrev arrivals : List Call → Received
arrivals (Call.recv_from fd ∷ []) =
    Received.got (wrapped (10 ∷ 0 ∷ 0 ∷ 9 ∷ []) 0 53 (1 ∷ 2 ∷ [])) host
arrivals (Call.recv_from fd ∷ (call ∷ log)) =
    Received.got (7 ∷ []) (host_at ipv4 (10 ∷ 0 ∷ 0 ∷ 9 ∷ []) (0 + 256 * 53))
arrivals _ = Received.failed Errno.would_block

abbrev name_server_up : Platform
name_server_up = steady (IoResult.count 2) arrivals

exchange_example :
    (w' : World) × (run name_server_up secret_params
        (udp only_read ∷ remote only_read ∷ [])
        associated
      ≡ ok (true, w'))
    × (w'.session.state ≡ State.associated)
    × (w'.log
        ≡ Call.send_to (some 6) (wrapped (10 ∷ 0 ∷ 0 ∷ 9 ∷ []) 0 53 (7 ∷ [])) (some (to some_info))
          ∷ Call.recv_from (some 5)
          ∷ Call.send_to
              (some 5)
              (1 ∷ 2 ∷ [])
              (some (host_at ipv4 (10 ∷ 0 ∷ 0 ∷ 9 ∷ []) (0 + 256 * 53)))
          ∷ Call.recv_from (some 6)
          ∷ [])
unfolding slice
exchange_example =
    exchange name_server_up secret_params associated some_udp connected_remote 10 0 0 9 0 53 20480
      10 0 0 9 (1 ∷ 2 ∷ []) (7 ∷ []) refl refl refl refl (omega arith) (omega arith) (omega arith)
      (omega arith) (omega arith) refl refl refl refl
