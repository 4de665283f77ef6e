-- ===== src/Examples/Associations.antt =====
-- A UDP association.
use sockspp.Base.{ℕ, ◌≡◌, refl, arith, false, true, none, some, List, [], ◌∷◌}
use sockspp.Core.Event.{read_closed}
use sockspp.Core.SocketInfo.{ipv4}
use sockspp.System.{Call, CtlOp, Target}
use sockspp.Session.{World, State, ok}
use sockspp.Session.Execute.{associate}
use sockspp.Session.Execute.Associates.{associates, announcing}
use sockspp.Examples.{two_taken, some_info, session_in, world_of}

abbrev ready : World
ready = world_of (session_in State.authenticated none none)

abbrev local : List ℕ
local = 10 ∷ 0 ∷ 0 ∷ 1 ∷ []

associates_example :
    (w' : World) × (associate two_taken (some 6) (some 5) ready ≡ ok (true, w'))
    × (w'.session.state ≡ State.associated)
    × (w'.session.udp_socket
        ≡ some (record { fd = some 6; port_maps = []; client_info = some_info }))
    × (w'.log
        ≡ Call.set_event CtlOp.add (some 5) Target.remote read_closed
          ∷ Call.set_blocking (some 5) false
          ∷ Call.set_event CtlOp.add (some 6) Target.udp read_closed
          ∷ Call.set_blocking (some 6) false
          ∷ announcing two_taken ready (some 6) (some 5) ipv4 local ipv4 local 20480)
associates_example =
    associates two_taken ready (some 6) (some 5) ipv4 ipv4 local local 20480 20480 refl refl refl
      (omega arith) refl
