-- ===== src/Examples/Datagrams.antt =====
-- Datagrams between the client and a remote host.
use sockspp.Base.{ℕ, ◌≡◌, refl, arith, Mem, of_bytes, false, some, List, [], ◌∷◌, inr, slice}
use sockspp.Core.MemoryBuffer.{MemoryBuffer, contents}
use sockspp.Session.Run.{udp, process_event}
use sockspp.Core.SocketInfo.{Sockaddr, Family, ipv4, to}
use sockspp.Core.S5.{get_type, message_address, message_size}
use sockspp.System.{Platform, IoResult, Received, Call}
use sockspp.Session.{World, State, ok, fault, oversized_copy, overlapping_copy}
use sockspp.Session.Calls.{received_buffer}
use sockspp.Core.Event.{only_read}
use sockspp.Examples.{
  zeros, host, steady, secret_params, some_info, session_in, world_of, connected_remote, some_udp,
  buffer_of,
}
use sockspp.Session.Udp.{
  udp_send_to, buffer_size, udp_recv_from, is_client, relayed_version, client_datagram,
  header_sockaddr, strip_header,
}
use sockspp.Session.Udp.Header.{datagram_back, header_length}
use sockspp.Session.Events.{process_remote_event}
use sockspp.Session.Events.Unsolicited.{unsolicited_ends}
use sockspp.Session.Udp.Source.{
  stranger_dropped, short_header_faults, long_payload_faults, after_recv,
}

abbrev sent : List ℕ
sent = client_datagram zeros some_info (buffer_of (1 ∷ 2 ∷ []))

abbrev arrived : Mem
arrived = of_bytes sent zeros

abbrev associated : World
associated = world_of (session_in State.associated (some connected_remote) (some some_udp))

datagram_back_example :
    (relayed_version (get_type arrived (message_address 0)) ≡ some ipv4)
    × (header_sockaddr arrived ipv4 ≡ to some_info)
    × (message_size arrived 0 ≡ header_length ipv4)
    × ((b' : MemoryBuffer) × (strip_header
            (received_buffer zeros sent buffer_size)
            (message_size arrived 0)
            associated
          ≡ ok (b', associated))
        × (contents b' ≡ contents (buffer_of (1 ∷ 2 ∷ []))))
datagram_back_example =
    datagram_back zeros zeros some_info (buffer_of (1 ∷ 2 ∷ [])) associated (omega arith)
      (omega arith)

-- A datagram that announces an IPv6 destination and ends before it.
abbrev short_datagram : List ℕ
short_datagram = 0 ∷ 0 ∷ 0 ∷ 4 ∷ 40 ∷ 0 ∷ 0 ∷ 0 ∷ 0 ∷ 0 ∷ 0 ∷ 0 ∷ []

abbrev stranger : Sockaddr
stranger = record { family = Family.inet; addr = 10 ∷ 0 ∷ 0 ∷ 2 ∷ []; port = 20480 }

abbrev from_stranger : Platform
from_stranger = steady (IoResult.count 2) (λ log. Received.got short_datagram stranger)

abbrev from_client : Platform
from_client = steady (IoResult.count 2) (λ log. Received.got short_datagram host)

stranger_dropped_example :
    udp_recv_from from_stranger associated
    ≡ ok (
      record {
        status = IoResult.count 0;
        buffer = received_buffer zeros short_datagram buffer_size;
        addr = stranger;
      },
      after_recv associated some_udp,
    )
unfolding slice
stranger_dropped_example =
    stranger_dropped from_stranger associated some_udp refl short_datagram ipv4
      (10 ∷ 0 ∷ 0 ∷ 2 ∷ []) 20480 refl (inr (λ p. ground arith)) refl

short_header_faults_example :
    process_event from_client secret_params (udp only_read) associated ≡ fault oversized_copy
unfolding slice
short_header_faults_example =
    short_header_faults from_client associated some_udp refl secret_params 0 0 0
      (40 ∷ 0 ∷ 0 ∷ 0 ∷ 0 ∷ 0 ∷ 0 ∷ 0 ∷ []) 20480 (omega arith) (omega arith) refl

-- A question of 11 bytes for 10.0.0.9, port 53.
abbrev long_datagram : List ℕ
long_datagram =
    0 ∷ 0 ∷ 0 ∷ 1 ∷ 10 ∷ 0 ∷ 0 ∷ 9 ∷ 0 ∷ 53 ∷ 1 ∷ 2 ∷ 3 ∷ 4 ∷ 5 ∷ 6 ∷ 7 ∷ 8 ∷ 9 ∷ 10 ∷ 11 ∷ []

abbrev asks_at_length : Platform
asks_at_length = steady (IoResult.count 2) (λ log. Received.got long_datagram host)

long_payload_faults_example :
    process_event asks_at_length secret_params (udp only_read) associated ≡ fault overlapping_copy
unfolding slice
long_payload_faults_example =
    long_payload_faults asks_at_length associated some_udp refl secret_params 0 0 0
      (10 ∷ 0 ∷ 0 ∷ 9 ∷ 0 ∷ 53 ∷ 1 ∷ 2 ∷ 3 ∷ 4 ∷ 5 ∷ 6 ∷ 7 ∷ 8 ∷ 9 ∷ 10 ∷ 11 ∷ []) 20480
      (omega arith) refl

unsolicited_ends_example :
    process_remote_event from_stranger only_read associated
    ≡ ok (false, record associated { log = Call.recv_from (some 5) ∷ [] })
unfolding sockspp.Session.Udp.find_port
unsolicited_ends_example =
    unsolicited_ends from_stranger associated connected_remote some_udp short_datagram stranger refl
      refl refl refl (omega arith) refl
