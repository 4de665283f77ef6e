-- ===== src/Examples/Login.antt =====
-- A login, and the check of a login message.
use sockspp.Base.{
  ℕ, ◌≡◌, ◌≢◌, ◌⊎◌, ◌+◌, ◌-◌, ◌*◌, refl, arith, Mem, of_bytes, length, Bool, true, false, Option,
  none, some, List, [], ◌∷◌, ◌++◌, if◌then◌else◌, ◌==◌, ◌<◌, ◌≤◌, inl, inr, take, slice, htons,
  get_elem?, leb,
}
use sockspp.Core.Enums.{
  AddrType, Command, Reply, AuthMethod, same_method, addr_type_byte, auth_method_byte, reply_byte,
}
use sockspp.Core.MemoryBuffer.{MemoryBuffer}
use sockspp.Core.Event.{only_read}
use sockspp.System.{Call, Platform, IoResult, Received}
use sockspp.Server.Params.{ServerParams}
use sockspp.Session.{
  World, Session, State, RemoteSocket, UdpSocket, ok, fault, null_pointer, oversized_copy, ◌>>◌,
}
use sockspp.Session.Calls.{to_bool, received_buffer}
use sockspp.Session.Auth.{size_mod, select_method, handle_auth}
use sockspp.Examples.{zeros, host, steady, two_taken, secret_params, session_in, world_of}
use sockspp.Session.Run.{Event, run}
use sockspp.Session.Run.Login.{PresentedIn, login_needed}
use sockspp.Server.Params.{authenticate}
use sockspp.Server.Auth.{authenticate_iff}
use sockspp.Session.Auth.Select.{select_method_iff, handle_auth_overread, accepts, verdict}
use sockspp.Base.{◌↔◌}

-- A client that offers the method, then gives the credentials.
abbrev login_messages : List Call → Received
login_messages log =
    if length log == 1
    then Received.got (5 ∷ 1 ∷ 2 ∷ []) host
    else Received.got (1 ∷ 1 ∷ 97 ∷ 1 ∷ 98 ∷ []) host

abbrev login_platform : Platform
login_platform = steady (IoResult.count 2) login_messages

abbrev two_reads : List Event
two_reads = Event.client only_read ∷ Event.client only_read ∷ []

abbrev fresh_world : World
fresh_world = world_of (session_in State.accepted none none)

login_needed_example : PresentedIn login_platform secret_params two_reads fresh_world
unfolding run sockspp.Server.Params.get_auth_method sockspp.Session.Run.process_event
    sockspp.Session.Events.process_client_event sockspp.Session.Calls.garbage
    sockspp.Session.Calls.recv sockspp.Session.Auth.check_version sockspp.Session.Auth.request_auth
    sockspp.Session.Client.send_auth sockspp.Session.Calls.send sockspp.Core.Enums.to_auth_method
    handle_auth authenticate sockspp.Base.bytes_eq slice sockspp.Session.Client.send_auth_status
login_needed_example =
    login_needed login_platform secret_params refl two_reads fresh_world
      (record { early = refl; no_remote = refl; no_udp = refl; no_dns = refl }) refl refl

authenticate_iff_example : (authenticate secret_params (97 ∷ []) (98 ∷ []) ≡ true) ↔ (
    ((secret_params.username ≡ []) × (secret_params.password ≡ []))
    ⊎ ((secret_params.username ≡ 97 ∷ []) × (secret_params.password ≡ 98 ∷ [])))
authenticate_iff_example = authenticate_iff secret_params (97 ∷ []) (98 ∷ [])

-- A client that offers the methods 0 and 2.
abbrev greeting : Mem
greeting = of_bytes (5 ∷ 2 ∷ 0 ∷ 2 ∷ []) zeros

select_method_iff_example :
    (same_method (select_method greeting AuthMethod.user_pass 0 2) AuthMethod.user_pass ≡ true)
    ↔ ((j : ℕ) × (j < 2) × (greeting (0 + j + 2) ≡ auth_method_byte AuthMethod.user_pass))
unfolding auth_method_byte
select_method_iff_example = select_method_iff greeting AuthMethod.user_pass 0 2 (omega arith)

abbrev login_message : Mem
login_message = of_bytes (1 ∷ 1 ∷ 97 ∷ 1 ∷ 98 ∷ []) zeros

abbrev asked_world : World
asked_world = world_of (session_in State.auth_requested none none)

-- The message ends after the user name, and the stack still holds a password.
abbrev short_message : MemoryBuffer
short_message = record { ptr = some login_message; size = 3; capacity = 8192 }

handle_auth_overread_example :
    handle_auth two_taken secret_params short_message asked_world
    ≡ ok (
      accepts secret_params login_message,
      verdict asked_world (accepts secret_params login_message),
    )
handle_auth_overread_example =
    handle_auth_overread two_taken secret_params login_message short_message asked_world refl
      (omega arith) (omega arith) (omega arith)
