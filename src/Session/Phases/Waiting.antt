-- ===== src/Session/Phases/Waiting.antt =====
-- A session that waits for the answer to its DNS query: what the client sends meanwhile to
-- `process_client_event` of src/server/src/sockspp/server/session.cxx.
use mathlib.Core.Path.{subst}
use sockspp.Base.{
  ◌≡◌, sym, Mem, inl, inr, length, Bool, false, Bool-cases, ◌||◌, ◌==◌, if◌then◌else◌, Option, none,
  ◌∷◌,
}
use sockspp.Core.MemoryBuffer.{MemoryBuffer}
use sockspp.Core.SocketInfo.{Sockaddr}
use sockspp.Core.Event.{Flags}
use sockspp.System.{Call, Platform, Received}
use sockspp.Server.Params.{ServerParams}
use sockspp.Session.{M, pure, World, State}
use sockspp.Session.Calls.{recv, garbage, received_buffer}
use sockspp.Session.Udp.{buffer_size}
use sockspp.Session.Relay.{to_client}
use sockspp.Session.Events.{client_in_state, process_client, process_client_event}
use sockspp.Session.Phases.{Settles}
use sockspp.Session.Phases.Relaying.{session_socket_send-Settles}

module _ (pf : Platform) (params : ServerParams) where
  -- While a name is being resolved, the client's bytes end the session.
  refuses :
      (P : State → Type 0) (st : State) (b : MemoryBuffer) (addr : Option Sockaddr) (w : World)
      → st ≡ State.resolving_domain_name
      → Settles P (client_in_state pf params st b addr w)
  unfolding client_in_state
  refuses P st b addr w e =
      subst (λ (x : State). Settles P (client_in_state pf params x b addr w)) (sym e) tt

  received_ends :
      (P : State → Type 0) (old : Mem) (answer : Received) (w : World)
      → w.session.state ≡ State.resolving_domain_name
      → Settles P (
          (elim answer as (λ _. M Bool) [
            | Received.failed e ↦ pure false
            | Received.got bytes _ ↦
                let process =
                  process_client pf params (received_buffer old bytes buffer_size) none in
                if length bytes == 0 then pure false else process
          ])
            w)
  unfolding process_client
  received_ends P old (Received.failed e) w st = tt
  received_ends P old (Received.got bytes a) w st = elim (Bool-cases (length bytes == 0)) [
    | inl e ↦ rw (e, Settles) tt
    | inr e ↦
        rw (e, Settles)
          (refuses P w.session.state (received_buffer old bytes buffer_size) none w st)
  ]

  pub client_waits :
      (flags : Flags) (w : World)
      → w.session.state ≡ State.resolving_domain_name
      → Settles (λ s. s ≡ State.resolving_domain_name) (process_client_event pf params flags w)
  unfolding process_client_event garbage recv
  client_waits flags w st = elim (Bool-cases (flags.closed || flags.error)) [
    | inl e ↦ rw (e, Settles) tt
    | inr e ↦ elim (Bool-cases flags.write) [
      | inl e' ↦
          rw (e, e', Settles)
            (session_socket_send-Settles pf State.resolving_domain_name to_client none w st)
      | inr e' ↦
          let w1 : World = record w { log = Call.recv w.session.client_socket ∷ w.log } in
          rw (e, e', Settles) (received_ends _ (pf.os.garbage w.log) (pf.os.received w1.log) w1 st)
    ]
  ]
