-- ===== src/Session/Phases/Remotes.antt =====
-- Where the events of the remote socket lead: `process_remote_event` of
-- src/server/src/sockspp/server/session.cxx, with `could_connect` of remote_socket.cxx.
use mathlib.Core.Path.{subst}
use sockspp.Base.{
  Mem, ◌≡◌, refl, sym, arith, inl, inr, length, Bool, true, false, Bool-cases, Option-cases, ◌==◌,
  if◌then◌else◌, Option, none, some,
}
use sockspp.Core.MemoryBuffer.{MemoryBuffer}
use sockspp.Core.SocketInfo.{Sockaddr}
use sockspp.Core.Event.{Flags}
use sockspp.System.{Platform, Received, IoResult, Fd}
use sockspp.Session.{M, pure, World, RemoteSocket, State, Outcome, ok, fault}
use sockspp.Session.Calls.{
  send_to, recv, recv_from, garbage, received_buffer, to_bool, get_peer_address, peer_name,
  modify_event, send,
}
use sockspp.Session.Client.{send_reply}
use sockspp.Session.Auth.{set_state}
use sockspp.Session.Remote.{
  get_remote, put_remote, could_connect, reply_remote_connection, remote_connected,
}
use sockspp.Session.Udp.{buffer_size, udp_send_to, get_udp}
use sockspp.Session.Relay.{to_client, to_remote}
use sockspp.Session.Events.{
  remote_in_state, remote_lost, receive_in_state, remote_receive, remote_writable,
  process_remote_event,
}
use sockspp.Session.Phases.{Settles, Leaves, Settles-bind, Settles-weaken, Moves, establishes}
use sockspp.Session.Valid.{IsValid}
use sockspp.Session.Valid.Remotes.{trying}
use sockspp.Session.Phases.Clients.{same_moves, result_moves}
use sockspp.Session.Phases.Attempts.{remote_error-Leaves}
use sockspp.Session.Phases.Relaying.{session_socket_send-Settles}

module _ (pf : Platform) where
  udp-Leaves :
      (b : MemoryBuffer) (addr : Sockaddr) (w : World)
      → w.session.state ≡ State.associated
      → Leaves (λ (r : IoResult) s. s ≡ State.associated) (udp_send_to pf b addr w)
  unfolding udp_send_to get_udp garbage send_to
  udp-Leaves b addr w e = ground arith

  sent_back_moves :
      (st : State) (b : MemoryBuffer) (addr : Sockaddr) (w : World)
      → w.session.state ≡ st
      → Settles (Moves st) (remote_in_state pf st b addr w)
  unfolding remote_in_state
  sent_back_moves State.connected b addr w e =
      Settles-weaken (λ s. s ≡ State.connected) (Moves State.connected) _
        (session_socket_send-Settles pf State.connected to_client (some b) w e)
        (same_moves State.connected)
  sent_back_moves State.associated b addr w e =
      Settles-bind (λ (r : IoResult) s. s ≡ State.associated) (Moves State.associated) _
        (udp_send_to pf b addr) w (udp-Leaves b addr w e)
        (λ r w' e'. result_moves State.associated (to_bool r) w' e')
  sent_back_moves State.accepted b addr w e = tt
  sent_back_moves State.auth_requested b addr w e = tt
  sent_back_moves State.authenticated b addr w e = tt
  sent_back_moves State.resolving_domain_name b addr w e = tt
  sent_back_moves State.connecting_remote b addr w e = tt
  sent_back_moves State.invalid b addr w e = tt

  received_moves :
      (old : Mem) (answer : Option Received) (st : State) (w : World)
      → w.session.state ≡ st
      → Settles (Moves st) (
          (elim answer as (λ _. M Bool) [
            | none ↦ pure false
            | some (Received.failed e) ↦ pure false
            | some (Received.got bytes addr) ↦
                let process = remote_in_state pf st (received_buffer old bytes buffer_size) addr in
                if length bytes == 0 then remote_lost pf else process
          ])
            w)
  unfolding remote_lost get_remote
  received_moves old none st w e = tt
  received_moves old (some (Received.failed f)) st w e = tt
  received_moves old (some (Received.got bytes a)) st w e = elim (Bool-cases (length bytes == 0)) [
    | inl q ↦ elim (Option-cases w.session.remote_socket) [
      | inl h ↦ rw (q, h, Settles) tt
      | inr (r, h) ↦ rw (q, h, Settles) tt
    ]
    | inr q ↦ rw (q, Settles) (sent_back_moves st (received_buffer old bytes buffer_size) a w e)
  ]

  could_connect-Settles :
      (w : World)
      → w.session.state ≡ State.connecting_remote
      → Settles (λ s. s ≡ State.connected) (could_connect pf w)
  unfolding could_connect get_remote put_remote get_peer_address peer_name garbage
      reply_remote_connection send_reply send remote_connected modify_event set_state
  could_connect-Settles w e = ground arith

  left_moves :
      (st : State) (o : Outcome (Bool × World))
      → Leaves (λ (b : Bool) s. s ≡ st) o
      → Settles (Moves st) o
  left_moves st (fault f) h = tt
  left_moves st (ok (false, w)) h = tt
  left_moves st (ok (true, w)) h = same_moves st w.session.state h

  owned :
      (r : RemoteSocket) (w : World) → w.session.remote_socket ≡ some r → get_remote w ≡ ok (r, w)
  unfolding get_remote
  owned r w has = ground arith

  writable_moves :
      (r : RemoteSocket) (w : World)
      → w.session.remote_socket ≡ some r
      → IsValid w.session
      → Settles (Moves w.session.state) (remote_writable pf w)
  unfolding remote_writable
  writable_moves r w has v = elim (Bool-cases r.is_connected) [
    | inl q ↦
        let k =
          Settles-weaken (λ s. s ≡ w.session.state) (Moves w.session.state) _
            (session_socket_send-Settles pf w.session.state to_remote none w refl)
            (same_moves w.session.state) in
        rw (owned r w has, q, Settles) k
    | inr q ↦
        let (as', hasas, ix, st) = trying r w.session has q v in
        let k =
          Settles-weaken (λ s. s ≡ State.connected) (Moves State.connecting_remote) _
            (could_connect-Settles w st)
            (λ s h. subst (Moves State.connecting_remote) (sym h) establishes) in
        subst (λ (x : State). Settles (Moves x) (remote_writable pf w)) (sym st)
          (rw (owned r w has, q, Settles) k)
  ]

  receive-Leaves :
      (fd : Fd) (st st' : State) (w : World)
      → w.session.state ≡ st
      → Leaves (λ (a : Option Received) s. s ≡ st) (receive_in_state pf st' fd w)
  unfolding receive_in_state recv recv_from
  receive-Leaves fd st st' w e = ground arith

  receiving_moves :
      (r : RemoteSocket) (w : World)
      → w.session.remote_socket ≡ some r
      → Settles (Moves w.session.state) (remote_receive pf w)
  unfolding remote_receive garbage
  receiving_moves r w has =
      let st = w.session.state in
      let k =
        Settles-bind (λ (a : Option Received) s. s ≡ st) (Moves st) _ (receive_in_state pf st r.fd)
          w (receive-Leaves r.fd st st w refl)
          (λ answer w' e. received_moves (pf.os.garbage w.log) answer st w' e) in
      rw (owned r w has, Settles) k

  pub remote_event_moves :
      (flags : Flags) (r : RemoteSocket) (w : World)
      → w.session.remote_socket ≡ some r
      → IsValid w.session
      → Settles (Moves w.session.state) (process_remote_event pf flags w)
  unfolding process_remote_event remote_lost
  remote_event_moves flags r w has v = elim (Bool-cases flags.closed) [
    | inl e ↦ rw (e, owned r w has, Settles) tt
    | inr e ↦ elim (Bool-cases flags.error) [
      | inl e1 ↦ rw (e, e1, Settles) (left_moves w.session.state _ (remote_error-Leaves pf w))
      | inr e1 ↦ elim (Bool-cases flags.write) [
        | inl e2 ↦ rw (e, e1, e2, Settles) (writable_moves r w has v)
        | inr e2 ↦ rw (e, e1, e2, Settles) (receiving_moves r w has)
      ]
    ]
  ]
