-- ===== src/Examples/Invariants.antt =====
-- Sessions that stay valid, from the first event to the last.
use sockspp.Base.{◌⊎◌, refl, arith, false, none, some, [], ◌∷◌}
use sockspp.Core.Event.{only_read, only_error}
use sockspp.System.{Platform, IoResult, Received}
use sockspp.Session.{World, State, ◌>>◌}
use sockspp.Session.Run.{client, remote, udp, process_event, run}
use sockspp.Session.Teardown.{construct, new_session}
use sockspp.Session.Events.{initialize}
use sockspp.Session.Valid.{Keeps, IsValid}
use sockspp.Session.Valid.Events.{process_event-Keeps}
use sockspp.Session.Valid.Lifetime.{lifetime-Keeps}
use sockspp.Session.Phases.{Settles}
use sockspp.Session.Phases.Runs.{Reaches, IsWaiting, run-Reaches}
use sockspp.Session.Phases.Begins.{BeganAndLogsIn, lifetime_logs_in}
use sockspp.Session.Phases.Stable.{Finds, process_event-Finds}
use sockspp.Examples.{
  zeros, host, steady, secret_params, session_in, world_of, address_at, trying_remote,
  connected_remote, some_udp,
}

-- A session that tries the first of two addresses, and an error on its remote socket.
abbrev two_left : World
two_left = world_of (
    session_in State.connecting_remote (some (trying_remote 0 (address_at 1 ∷ address_at 2 ∷ [])))
      none)

two_left-IsValid : IsValid two_left.session
two_left-IsValid = ground arith

abbrev pending : Platform
pending = steady (IoResult.count 2) (λ log. Received.got (1 ∷ []) host)

process_event-Keeps_example :
    Keeps false (process_event pending secret_params (remote only_error) two_left)
process_event-Keeps_example =
    process_event-Keeps pending secret_params (remote only_error) two_left two_left-IsValid
      (trying_remote 0 (address_at 1 ∷ address_at 2 ∷ []), refl)

-- A client that offers the method of user name and password.
abbrev greeting : Platform
greeting = steady (IoResult.count 2) (λ log. Received.got (5 ∷ 1 ∷ 2 ∷ []) host)

lifetime-Keeps_example : Keeps false (
    ((construct >> initialize greeting secret_params)
        >> run greeting secret_params (client only_read ∷ []))
      (record { session = new_session zeros (some 3); log = [] }))
lifetime-Keeps_example =
    lifetime-Keeps greeting secret_params zeros (some 3) [] (client only_read ∷ [])
      (λ w e. (tt, λ w' e'. tt))

run-Reaches_example :
    Settles
      (Reaches State.connecting_remote)
      (run pending secret_params (remote only_error ∷ []) two_left)
run-Reaches_example =
    run-Reaches pending secret_params (remote only_error ∷ []) two_left two_left-IsValid
      ((trying_remote 0 (address_at 1 ∷ address_at 2 ∷ []), refl), λ w' e'. tt)

lifetime_logs_in_example :
    let begun =
      (construct >> initialize greeting secret_params)
        (record { session = new_session zeros (some 3); log = [] }) in
    Settles
      (λ s. IsWaiting s ⊎ BeganAndLogsIn greeting secret_params (client only_read ∷ []) begun)
      (((construct >> initialize greeting secret_params)
          >> run greeting secret_params (client only_read ∷ []))
        (record { session = new_session zeros (some 3); log = [] }))
lifetime_logs_in_example =
    lifetime_logs_in greeting secret_params zeros (some 3) [] (client only_read ∷ [])
      (λ w e. (tt, λ w' e'. tt))

-- A UDP association whose client and UDP socket report bytes in one poll.
abbrev relaying_udp : World
relaying_udp = world_of (session_in State.associated (some connected_remote) (some some_udp))

relaying_udp-IsValid : IsValid relaying_udp.session
relaying_udp-IsValid = ground arith

process_event-Finds_example :
    Finds pending secret_params
      (udp only_read)
      (process_event pending secret_params (client only_read) relaying_udp)
process_event-Finds_example =
    process_event-Finds pending secret_params (client only_read) (udp only_read) relaying_udp
      relaying_udp-IsValid tt (some_udp, refl) tt
