-- ===== src/Examples/Names.antt =====
-- A DNS answer.
use sockspp.Base.{◌≡◌, refl, arith, true, none, some, List, [], ◌∷◌, map, inr}
use sockspp.Core.SocketInfo.{ipv4}
use sockspp.Core.IpAddress.{IpAddress}
use sockspp.Core.Enums.{Command}
use sockspp.Core.Event.{only_read, write_closed}
use sockspp.System.{Answer, Call, CtlOp, Errno, Platform, Received, IoResult, Target}
use sockspp.Session.{World, DnsSocket, State, ok}
use sockspp.Session.Remote.{address_sockaddr}
use sockspp.Session.Dns.{get_response}
use sockspp.Session.Dns.Answers.{Gives, get_response_lem}
use sockspp.Session.Execute.Connects.{connecting}
use sockspp.Session.Execute.Resolved.{resolved_host, HasAddresses, resolved_connects}
use sockspp.Session.Run.{dns, process_event}
use sockspp.Examples.{host, steady, secret_params, session_in, world_of}

-- An alias and an address.
abbrev alias : Answer
alias = record { class = 1; type = 5; rdata = none }

abbrev address_record : Answer
address_record = record { class = 1; type = 1; rdata = some (10 ∷ 0 ∷ 0 ∷ 1 ∷ []) }

abbrev answers : List Answer
answers = alias ∷ address_record ∷ []

abbrev resolving : Platform
resolving = record (steady (IoResult.count 2) (λ log. Received.got (1 ∷ []) host)) {
  dns_lib = record { encode_query = λ name. some name; decode = λ bytes. some answers };
}

abbrev asking : DnsSocket
asking = record { fd = some 8; domain_name = []; port = 80 }

abbrev waiting : World
waiting = world_of (session_in State.resolving_domain_name none none)

get_response_lem_example :
    (as' : List IpAddress) × (get_response resolving asking waiting
      ≡ ok ((IoResult.count 1, as'), record waiting { log = Call.recv_from (some 8) ∷ [] }))
    × (map address_sockaddr as' ≡ host ∷ [])
get_response_lem_example =
    get_response_lem resolving asking waiting (1 ∷ []) host answers refl (omega arith) refl (
      Gives.other (inr ((λ p. ground arith), (λ p. ground arith))) (
        Gives.address ipv4 (10 ∷ 0 ∷ 0 ∷ 1 ∷ [])
          (record { internet = refl; kind = refl; data_bytes = refl; whole = refl }) Gives.nothing))

-- A client that asked for a connection to port 80 of the host with this name.
abbrev connecting_platform : Platform
connecting_platform = record resolving {
  os = record (resolving.os) { result = λ log. IoResult.failed Errno.in_progress };
}

abbrev named : World
named = record waiting {
  session = record (waiting.session) { command = Command.connect; dns_sockets = asking ∷ [] };
}

abbrev answered : World
answered = record named { log = Call.remove_event (some 8) ∷ Call.recv_from (some 8) ∷ [] }

resolved_connects_example :
    (w' : World) × (process_event connecting_platform secret_params (dns only_read 0) named
      ≡ ok (true, w'))
    × (w'.session.state ≡ State.connecting_remote)
    × HasAddresses (resolved_host ipv4 (10 ∷ 0 ∷ 0 ∷ 1 ∷ []) 80 ∷ []) w'.session.remote_socket
    × (w'.log
        ≡ Call.set_event CtlOp.add (some 7) Target.remote write_closed
          ∷ connecting secret_params answered ipv4 7 (resolved_host ipv4 (10 ∷ 0 ∷ 0 ∷ 1 ∷ []) 80))
resolved_connects_example =
    resolved_connects connecting_platform secret_params named 0 7 asking (1 ∷ []) host answers ipv4
      (10 ∷ 0 ∷ 0 ∷ 1 ∷ []) refl refl refl (omega arith) refl
      (Gives.other (inr ((λ p. ground arith), (λ p. ground arith))) (
        Gives.address ipv4 (10 ∷ 0 ∷ 0 ∷ 1 ∷ [])
          (record { internet = refl; kind = refl; data_bytes = refl; whole = refl }) Gives.nothing))
      refl refl
