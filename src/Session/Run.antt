-- ===== src/Session/Run.antt =====
-- A session's life between two polls: each event goes to the handler of the socket that its
-- pointer names (`process_event` in src/server/src/sockspp/server/client_socket.cxx,
-- remote_socket.cxx, udp_socket.cxx and dns_socket.cxx), and the session ends with the first
-- handler that returns false (server.cxx).
pub mod Closed
pub mod Login
pub mod Tunnel
pub mod Datagrams
use sockspp.Base.{ℕ, Bool, true, false, List, [], ◌∷◌}
use sockspp.Core.Event.{Flags}
use sockspp.System.{Platform}
use sockspp.Server.Params.{ServerParams}
use sockspp.Session.{M, World, Outcome, ok, fault, pure, ◌>>=◌}
use sockspp.Session.Events.{
  process_client_event, process_remote_event, process_udp_event, process_dns_event,
}

pub data Event : Type 0 where
  client remote udp : Flags → Event
  dns : Flags → ℕ → Event

module _ (pf : Platform) (params : ServerParams) where
  unfoldable pub process_event : Event → M Bool
  process_event (client flags) = process_client_event pf params flags
  process_event (remote flags) = process_remote_event pf flags
  process_event (udp flags) = process_udp_event pf params flags
  process_event (dns flags i) = process_dns_event pf params flags i

  unfoldable pub run : List Event → M Bool
  run [] = pure true
  run (e ∷ es) = do
    alive ← process_event e
    let rest = run es
    elim alive [ true ↦ rest | false ↦ pure false ]
