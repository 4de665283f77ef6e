-- ===== src/Session/Phases/Clients.antt =====
-- Where the client's messages lead: `_process_client` of
-- src/server/src/sockspp/server/session.cxx, state by state.
use mathlib.Core.Path.{subst}
use sockspp.Base.{
  Mem, ◌≡◌, refl, sym, arith, inl, inr, length, Bool, true, false, Bool-cases, ◌||◌, ◌==◌,
  if◌then◌else◌, Option, none, some, ◌∷◌,
}
use sockspp.Core.MemoryBuffer.{MemoryBuffer, contents}
use sockspp.Core.SocketInfo.{Sockaddr}
use sockspp.Core.Event.{Flags}
use sockspp.System.{Call, Platform, Received}
use sockspp.Server.Params.{ServerParams}
use sockspp.Session.{M, pure, ok, World, RemoteSocket, State}
use sockspp.Session.Calls.{to_bool, send_to, recv, garbage, received_buffer}
use sockspp.Session.Remote.{get_remote}
use sockspp.Session.Udp.{buffer_size}
use sockspp.Session.Relay.{to_client, to_remote}
use sockspp.Session.Events.{forward_datagram, client_in_state, process_client, process_client_event}
use sockspp.Session.Phases.{
  Settles, Leaves, Settles-bind, Settles-weaken, Moves, stays, logs_in, resolves, connects,
  associates, connects_resolved, associates_resolved,
}
use sockspp.Session.Phases.Handshake.{greeting-Settles, auth-Settles}
use sockspp.Session.Phases.Commands.{Executed}
use sockspp.Session.Phases.Requests.{Requested, request-Settles}
use sockspp.Session.Phases.Relaying.{session_socket_send-Settles}

pub same_moves : (st s : State) → s ≡ st → Moves st s
same_moves st s e = subst (Moves st) (sym e) stays

pub result_moves :
    (st : State) (result : Bool) (w : World)
    → w.session.state ≡ st
    → Settles (Moves st) (ok (result, w))
result_moves st false w e = tt
result_moves st true w e = same_moves st w.session.state e

requested_moves : (s : State) → Requested State.authenticated s → Moves State.authenticated s
requested_moves s (inl (inl e)) = subst (Moves State.authenticated) (sym e) connects
requested_moves s (inl (inr (inl e))) = subst (Moves State.authenticated) (sym e) associates
requested_moves s (inl (inr (inr e))) = same_moves State.authenticated s e
requested_moves s (inr e) = subst (Moves State.authenticated) (sym e) resolves

pub resolved_moves :
    (s : State) → Executed State.resolving_domain_name s → Moves State.resolving_domain_name s
resolved_moves s (inl e) = subst (Moves State.resolving_domain_name) (sym e) connects_resolved
resolved_moves s (inr (inl e)) =
    subst (Moves State.resolving_domain_name) (sym e) associates_resolved
resolved_moves s (inr (inr e)) = same_moves State.resolving_domain_name s e

pub own_settles :
    (st : State) (w : World)
    → w.session.state ≡ st
    → Leaves (λ (r : RemoteSocket) s. s ≡ st) (get_remote w)
unfolding get_remote
own_settles st w e = ground arith

module _ (pf : Platform) (params : ServerParams) where
  pub in_state_moves :
      (st : State) (b : MemoryBuffer) (addr : Option Sockaddr) (w : World)
      → w.session.state ≡ st
      → Settles (Moves st) (client_in_state pf params st b addr w)
  unfolding client_in_state forward_datagram send_to
  in_state_moves State.accepted b addr w e = greeting-Settles pf params b w e
  in_state_moves State.auth_requested b addr w e =
      Settles-weaken (λ s. s ≡ State.authenticated) (Moves State.auth_requested) _
        (auth-Settles pf params b w) (λ s h. subst (Moves State.auth_requested) (sym h) logs_in)
  in_state_moves State.authenticated b addr w e =
      Settles-weaken (Requested State.authenticated) (Moves State.authenticated) _
        (subst
          (λ (x : State).
            Settles (Requested x) (client_in_state pf params State.authenticated b addr w))
          e (request-Settles pf params b w))
        requested_moves
  in_state_moves State.connected b addr w e =
      Settles-bind (λ (r : RemoteSocket) s. s ≡ State.connected) (Moves State.connected) _
        get_remote w (own_settles State.connected w e)
        (λ r w' e'.
          Settles-weaken (λ s. s ≡ State.connected) (Moves State.connected) _
            (session_socket_send-Settles pf State.connected to_remote (some b) w' e')
            (same_moves State.connected))
  in_state_moves State.associated b addr w e =
      Settles-bind (λ (r : RemoteSocket) s. s ≡ State.associated) (Moves State.associated) _
        get_remote w (own_settles State.associated w e)
        (λ r w' e'.
          result_moves State.associated
            (to_bool (pf.os.result (Call.send_to r.fd (contents b) addr ∷ w'.log)))
            (record w' { log = Call.send_to r.fd (contents b) addr ∷ w'.log }) e')
  in_state_moves State.resolving_domain_name b addr w e = tt
  in_state_moves State.connecting_remote b addr w e = tt
  in_state_moves State.invalid b addr w e = tt

  received_moves :
      (old : Mem) (answer : Received) (w : World)
      → Settles (Moves w.session.state) (
          (elim answer as (λ _. M Bool) [
            | Received.failed e ↦ pure false
            | Received.got bytes _ ↦
                let process =
                  process_client pf params (received_buffer old bytes buffer_size) none in
                if length bytes == 0 then pure false else process
          ])
            w)
  unfolding process_client
  received_moves old (Received.failed e) w = tt
  received_moves old (Received.got bytes a) w = elim (Bool-cases (length bytes == 0)) [
    | inl e ↦ rw (e, Settles) tt
    | inr e ↦
        rw (e, Settles)
          (in_state_moves w.session.state (received_buffer old bytes buffer_size) none w refl)
  ]

  pub client_event_moves :
      (flags : Flags) (w : World)
      → Settles (Moves w.session.state) (process_client_event pf params flags w)
  unfolding process_client_event garbage recv
  client_event_moves flags w = elim (Bool-cases (flags.closed || flags.error)) [
    | inl e ↦ rw (e, Settles) tt
    | inr e ↦ elim (Bool-cases flags.write) [
      | inl e' ↦
          rw (e, e', Settles)
            (Settles-weaken (λ s. s ≡ w.session.state) (Moves w.session.state) _
              (session_socket_send-Settles pf w.session.state to_client none w refl)
              (same_moves w.session.state))
      | inr e' ↦
          let w1 : World = record w { log = Call.recv w.session.client_socket ∷ w.log } in
          rw (e, e', Settles) (received_moves (pf.os.garbage w.log) (pf.os.received w1.log) w1)
    ]
  ]
