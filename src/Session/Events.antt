-- ===== src/Session/Events.antt =====
-- The event handlers of src/server/src/sockspp/server/session.cxx: `initialize`, `shutdown`, the four
-- `process_…_event` methods, `_process_client` and `_process_remote`.
pub mod Unsolicited
use sockspp.Base.{
  ℕ, length, get_elem?, Bool, true, false, ◌||◌, ◌==◌, if◌then◌else◌, Option, none, some,
}
use sockspp.Core.MemoryBuffer.{MemoryBuffer, contents}
use sockspp.Core.SocketInfo.{Sockaddr}
use sockspp.Core.Event.{Flags, read_closed}
use sockspp.System.{Fd, Call, Platform, Target, Received, IoResult, Notice}
use sockspp.Server.Params.{ServerParams}
use sockspp.Session.{M, out_of_range, State, get, put, call, expect, pure, ◌>>=◌, ◌>>◌}
use sockspp.Session.Calls.{
  recv, recv_from, send_to, garbage, get_peer_address, add_event, received_buffer, to_bool,
}
use sockspp.Session.Auth.{check_version, request_auth, handle_auth, set_state}
use sockspp.Session.Remote.{get_remote, remote_error, could_connect}
use sockspp.Session.Udp.{buffer_size, udp_recv_from, udp_send_to}
use sockspp.Session.Relay.{to_client, to_remote, session_socket_send}
use sockspp.Session.Request.{check_command, resolve_address}
use sockspp.Session.Execute.{do_command}
use sockspp.Session.Dns.{get_response}

module _ (pf : Platform) (params : ServerParams) where
  unfoldable pub initialize : M (Unit {0})
  unfolding get_peer_address add_event set_state
  initialize = do
    s ← get
    call (Call.set_nodelay s.client_socket params.client_tcp_nodelay)
    call (Call.set_keepalive s.client_socket params.client_tcp_keepalive)
    add_event s.client_socket Target.client read_closed
    info ← get_peer_address pf s.client_socket
    put (record s { peer_info = info; state = State.accepted })

  -- The case `Authenticated` of `_process_client`.
  unfoldable pub handle_request : MemoryBuffer → M Bool
  handle_request buffer = do
    supported ← check_command pf buffer
    let go = (do
      (addresses, is_domain_name) ← resolve_address pf params buffer
      let execute = do_command pf params addresses
      if is_domain_name then pure true else execute)
    if supported then go else pure false

  unfoldable pub handle_greeting : MemoryBuffer → M Bool
  handle_greeting buffer = do
    good ← check_version pf buffer
    let request = request_auth pf params buffer
    if good then request else pure false

  -- `reinterpret_cast<UDPSocket*>(_remote_socket)` is a `RemoteSocket`, whose virtual `send_to` is
  -- `SessionSocket`'s; its `int` is returned as a `bool`.
  unfoldable pub forward_datagram : MemoryBuffer → Option Sockaddr → M Bool
  unfolding get_remote
  forward_datagram buffer addr = do
    r ← get_remote
    res ← send_to pf r.fd (contents buffer) addr
    pure (to_bool res)

  unfoldable pub client_in_state : State → MemoryBuffer → Option Sockaddr → M Bool
  unfolding handle_greeting handle_request forward_datagram
  client_in_state State.accepted buffer addr = handle_greeting buffer
  client_in_state State.auth_requested buffer addr = handle_auth pf params buffer
  client_in_state State.authenticated buffer addr = handle_request buffer
  client_in_state State.connected buffer addr = do
    _ ← get_remote
    session_socket_send pf to_remote (some buffer)
  client_in_state State.associated buffer addr = forward_datagram buffer addr
  client_in_state State.resolving_domain_name buffer addr = pure false
  client_in_state State.connecting_remote buffer addr = pure false
  client_in_state State.invalid buffer addr = pure false

  -- `_process_client`.
  unfoldable pub process_client : MemoryBuffer → Option Sockaddr → M Bool
  unfolding client_in_state
  process_client buffer addr = do s ← get; client_in_state s.state buffer addr

  unfoldable pub process_client_event : Flags → M Bool
  unfolding process_client
  process_client_event flags = do
    s ← get
    let receive = (do
      old ← garbage pf
      answer ← recv pf s.client_socket
      elim answer [
        | Received.failed e ↦ pure false
        | Received.got bytes _ ↦
            let process = process_client (received_buffer old bytes buffer_size) none in
            if length bytes == 0 then pure false else process
      ])
    let flush = session_socket_send pf to_client none
    if flags.closed || flags.error then pure false else if flags.write then flush else receive

  unfoldable pub process_udp_event : Flags → M Bool
  unfolding process_client
  process_udp_event flags = do
    let receive = (do
      d ← udp_recv_from pf
      elim d.status [
        | IoResult.failed e ↦ pure false
        | IoResult.count n ↦
            let process = process_client d.buffer (some d.addr) in
            if n == 0 then pure true else process
      ])
    if flags.closed || flags.error then pure false else receive

  unfoldable pub process_dns_event : Flags → ℕ → M Bool
  process_dns_event flags i = do
    s ← get
    let receive = (do
      d ← expect out_of_range (get_elem? s.dns_sockets i)
      (status, addresses) ← get_response pf d
      call (Call.remove_event d.fd)
      elim status [
        | IoResult.failed e ↦ pure false
        | IoResult.count n ↦
            let execute = do_command pf params (some addresses) in
            if n == 0 then pure false else execute
      ])
    if flags.closed || flags.error then pure false else receive

module _ (pf : Platform) where
  unfoldable pub remote_in_state : State → MemoryBuffer → Sockaddr → M Bool
  remote_in_state State.connected buffer addr = session_socket_send pf to_client (some buffer)
  remote_in_state State.associated buffer addr = do
    res ← udp_send_to pf buffer addr
    pure (to_bool res)
  remote_in_state _ buffer addr = pure false

  -- `hook->on_remote_disconnected`, and the event ends the session.
  unfoldable pub remote_lost : M Bool
  unfolding get_remote
  remote_lost = do _ ← get_remote; call (Call.notify Notice.remote_disconnected); pure false

  -- The receiving part of `process_remote_event`: a status of -1 in other states.
  unfoldable pub receive_in_state : State → Fd → M (Option Received)
  receive_in_state State.connected fd = do answer ← recv pf fd; pure (some answer)
  receive_in_state State.associated fd = do answer ← recv_from pf fd; pure (some answer)
  receive_in_state _ fd = pure none

  unfoldable pub remote_receive : M Bool
  unfolding remote_in_state remote_lost receive_in_state get_remote
  remote_receive = do
    r ← get_remote
    s ← get
    old ← garbage pf
    answer ← receive_in_state s.state r.fd
    elim answer [
      | none ↦ pure false
      | some (Received.failed e) ↦ pure false
      | some (Received.got bytes addr) ↦
          let process = remote_in_state s.state (received_buffer old bytes buffer_size) addr in
          if length bytes == 0 then remote_lost else process
    ]

  unfoldable pub remote_writable : M Bool
  unfolding get_remote
  remote_writable = do
    r ← get_remote
    let flush = session_socket_send pf to_remote none
    let connected = could_connect pf
    if r.is_connected then flush else connected

  unfoldable pub process_remote_event : Flags → M Bool
  unfolding remote_lost remote_receive remote_writable
  process_remote_event flags =
      if flags.closed
      then remote_lost
      else if flags.error
      then remote_error pf
      else if flags.write
      then remote_writable
      else remote_receive
