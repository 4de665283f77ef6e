-- ===== src/Examples/Streams.antt =====
-- Bytes relayed between the client and the remote host.
use sockspp.Base.{ℕ, ◌≡◌, refl, arith, true, false, none, some, List, [], ◌∷◌, inl}
use sockspp.Core.MemoryBuffer.{MemoryBuffer, contents}
use sockspp.Session.{World, State, ok, fault, null_pointer}
use sockspp.Examples.{two_taken, session_in, world_of, connected_remote, buffer_of}
use sockspp.Session.Relay.{to_client, other_side, scheduled, session_socket_send}
use sockspp.Session.Relay.Steps.{log_sent, watch}
use sockspp.Session.Relay.Stream.{relay-Conserves, Conserves}
use sockspp.Session.Relay.Pending.{flush_whole, flush_partial_faults, pending_loses_input}

abbrev relaying : World
relaying = world_of (session_in State.connected (some connected_remote) none)

abbrev four_bytes : MemoryBuffer
four_bytes = buffer_of (1 ∷ 2 ∷ 3 ∷ 4 ∷ [])

-- Of four bytes, two are taken and two are scheduled.
relay-Conserves_example :
    (w' : World) × (session_socket_send two_taken to_client (some four_bytes) relaying
      ≡ ok (true, w'))
    × Conserves two_taken to_client relaying connected_remote four_bytes w'
relay-Conserves_example =
    relay-Conserves two_taken relaying connected_remote refl four_bytes (omega arith) to_client
      (inl refl) refl (omega arith) refl

-- A session with bytes for the client that wait.
abbrev waiting : List ℕ → World
waiting bytes = world_of (record (session_in State.connected (some connected_remote) none) {
  client_buffer = buffer_of bytes;
})

flush_whole_example :
    (w' : World) × (session_socket_send two_taken to_client none (waiting (8 ∷ 9 ∷ []))
      ≡ ok (true, w'))
    × (contents (scheduled to_client w'.session) ≡ [])
    × (scheduled (other_side to_client) w'.session
        ≡ scheduled (other_side to_client) (waiting (8 ∷ 9 ∷ [])).session)
    × (w'.log
        ≡ watch to_client false
            (waiting (8 ∷ 9 ∷ [])).session
            connected_remote
            (log_sent to_client (waiting (8 ∷ 9 ∷ [])) connected_remote (buffer_of (8 ∷ 9 ∷ []))))
flush_whole_example =
    flush_whole two_taken (waiting (8 ∷ 9 ∷ [])) connected_remote refl to_client (omega arith) refl

flush_partial_faults_example :
    session_socket_send two_taken to_client none (waiting (7 ∷ 8 ∷ 9 ∷ [])) ≡ fault null_pointer
flush_partial_faults_example =
    flush_partial_faults two_taken (waiting (7 ∷ 8 ∷ 9 ∷ [])) connected_remote refl to_client
      (omega arith) refl refl

pending_loses_input_example :
    session_socket_send two_taken to_client (some four_bytes) (waiting (8 ∷ 9 ∷ []))
    ≡ session_socket_send two_taken to_client (some (buffer_of (1 ∷ []))) (waiting (8 ∷ 9 ∷ []))
pending_loses_input_example =
    pending_loses_input two_taken (waiting (8 ∷ 9 ∷ [])) connected_remote refl to_client four_bytes
      (buffer_of (1 ∷ [])) (omega arith) (inl refl)
