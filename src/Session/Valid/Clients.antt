-- ===== src/Session/Valid/Clients.antt =====
-- What the client sends keeps a session valid: `_process_client` and `process_client_event` of
-- src/server/src/sockspp/server/session.cxx.

use sockspp.Base.{
  Mem, ◌≡◌, refl, arith, length, Bool, true, false, Option, none, some, ◌∷◌, Bool-cases, inl, inr,
  ◌||◌, if◌then◌else◌, ◌==◌,
}
use sockspp.Core.MemoryBuffer.{MemoryBuffer}
use sockspp.Core.SocketInfo.{Sockaddr}
use sockspp.Core.Event.{Flags}
use sockspp.Server.Params.{ServerParams}
use sockspp.System.{Call, Platform, Received}
use sockspp.Session.{pure, ◌>>=◌, World, State, Session, RemoteSocket, M}
use sockspp.Session.Calls.{recv, send_to, garbage, received_buffer}
use sockspp.Session.Udp.{buffer_size}
use sockspp.Session.Relay.{to_client, to_remote, session_socket_send}
use sockspp.Session.Remote.{get_remote}
use sockspp.Session.Events.{forward_datagram, client_in_state, process_client, process_client_event}
use sockspp.Session.Valid.{IsValid, Keeps, RemoteFits}
use sockspp.Session.Valid.Handshake.{auth_Keeps, greeting_Keeps}
use sockspp.Session.Valid.Requests.{request_Keeps}
use sockspp.Session.Valid.Relaying.{send_Keeps, flush_Keeps}

abbrev pub relays : State → Bool
relays State.connected = true
relays State.associated = true
relays _ = false

owns :
    (o : Option RemoteSocket) (st : State)
    → relays st ≡ true
    → RemoteFits st o
    → (r : RemoteSocket) × (o ≡ some r) × (r.is_connected ≡ true)
owns none st h f = ground arith
owns (some r) st h f = (r, refl, ground arith)

-- A valid session that relays owns a connected remote socket.
pub owns_remote :
    (s : Session)
    → relays s.state ≡ true
    → IsValid s
    → (r : RemoteSocket) × (s.remote_socket ≡ some r) × (r.is_connected ≡ true)
owns_remote s h v = owns s.remote_socket s.state h v.remote_fits

module _ (pf : Platform) (params : ServerParams) where
  forward_Keeps :
      (r : RemoteSocket) (b : MemoryBuffer) (addr : Option Sockaddr) (w : World)
      → w.session.remote_socket ≡ some r
      → IsValid w.session
      → Keeps false (forward_datagram pf params b addr w)
  unfolding forward_datagram get_remote send_to
  forward_Keeps r b addr w has v = ground arith

  connected_Keeps :
      (r : RemoteSocket) (b : MemoryBuffer) (w : World)
      → w.session.remote_socket ≡ some r
      → IsValid w.session
      → Keeps false ((get_remote >>= λ _. session_socket_send pf to_remote (some b)) w)
  unfolding get_remote
  connected_Keeps r b w has v = let k = send_Keeps pf to_remote r b w has v in ground arith

  pub in_state_Keeps :
      (st : State) (b : MemoryBuffer) (addr : Option Sockaddr) (w : World)
      → w.session.state ≡ st
      → IsValid w.session
      → Keeps false (client_in_state pf params st b addr w)
  unfolding client_in_state
  in_state_Keeps State.accepted b addr w e v = greeting_Keeps pf params b w (ground arith) v
  in_state_Keeps State.auth_requested b addr w e v = auth_Keeps pf params b w (ground arith) v
  in_state_Keeps State.authenticated b addr w e v = request_Keeps pf params b w (ground arith, v)
  in_state_Keeps State.connected b addr w e v =
      let (r, has, _) = owns_remote w.session (ground arith) v in connected_Keeps r b w has v
  in_state_Keeps State.associated b addr w e v =
      let (r, has, _) = owns_remote w.session (ground arith) v in forward_Keeps r b addr w has v
  in_state_Keeps State.resolving_domain_name b addr w e v = tt
  in_state_Keeps State.connecting_remote b addr w e v = tt
  in_state_Keeps State.invalid b addr w e v = tt

  flush_client_Keeps :
      (w : World) (o : Option RemoteSocket)
      → w.session.remote_socket ≡ o
      → IsValid w.session
      → Keeps true (session_socket_send pf to_client none w)
  unfolding session_socket_send
  flush_client_Keeps w none has v =
      let nothing : w.session.client_buffer.size ≡ 0 = ground arith in rw (nothing, Keeps) refl
  flush_client_Keeps w (some r) has v = flush_Keeps pf to_client r w has v

  received_Keeps :
      (old : Mem) (answer : Received) (w : World)
      → IsValid w.session
      → Keeps false (
          (elim answer as (λ _. M Bool) [
            | Received.failed e ↦ pure false
            | Received.got bytes _ ↦
                let process =
                  process_client pf params (received_buffer old bytes buffer_size) none in
                if length bytes == 0 then pure false else process
          ])
            w)
  unfolding process_client
  received_Keeps old (Received.failed e) w v = tt
  received_Keeps old (Received.got bytes a) w v = elim (Bool-cases (length bytes == 0)) [
    | inl e ↦ rw (e, Keeps) tt
    | inr e ↦
        rw (e, Keeps)
          (in_state_Keeps w.session.state (received_buffer old bytes buffer_size) none w refl v)
  ]

  pub client_event_Keeps :
      (flags : Flags) (writing : Bool) (w : World)
      → flags.write ≡ writing
      → IsValid w.session
      → Keeps writing (process_client_event pf params flags w)
  unfolding process_client_event garbage recv
  client_event_Keeps flags true w e' v = elim (Bool-cases (flags.closed || flags.error)) [
    | inl e ↦ rw (e, Keeps) tt
    | inr e ↦ rw (e, e', Keeps) (flush_client_Keeps w w.session.remote_socket refl v)
  ]
  client_event_Keeps flags false w e' v = elim (Bool-cases (flags.closed || flags.error)) [
    | inl e ↦ rw (e, Keeps) tt
    | inr e ↦
        let w1 : World = record w { log = Call.recv w.session.client_socket ∷ w.log } in
        rw (e, e', Keeps) (received_Keeps (pf.os.garbage w.log) (pf.os.received w1.log) w1 v)
  ]
