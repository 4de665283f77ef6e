-- ===== src/Session/Valid/Remotes.antt =====
-- The remote socket's events keep a session valid: `process_remote_event` of
-- src/server/src/sockspp/server/session.cxx.
use mathlib.Core.Path.{subst}
use sockspp.Base.{
  Mem, ◌<◌, ◌≡◌, refl, arith, length, Bool, true, false, Option, none, some, List, Bool-cases, inl,
  inr, if◌then◌else◌, ◌==◌, get_elem?_in_range,
}
use sockspp.Core.MemoryBuffer.{MemoryBuffer}
use sockspp.Core.SocketInfo.{Sockaddr}
use sockspp.Core.IpAddress.{IpAddress}
use sockspp.Core.Event.{Flags}
use sockspp.System.{Platform, Received, Fd}
use sockspp.Session.{pure, World, State, Session, RemoteSocket, M}
use sockspp.Session.Calls.{recv, recv_from, send_to, garbage, received_buffer}
use sockspp.Session.Udp.{udp_send_to, get_udp, buffer_size}
use sockspp.Session.Relay.{to_client, to_remote}
use sockspp.Session.Remote.{get_remote, try_connect_next, remote_error}
use sockspp.Session.Events.{
  remote_in_state, remote_lost, receive_in_state, remote_receive, remote_writable,
  process_remote_event,
}
use sockspp.Session.Valid.{IsValid, Keeps, tolerate, weaken, RemoteFits, After, Keeps-bind}
use sockspp.Session.Valid.Remote.{next_Keeps, could_connect-Keeps}
use sockspp.Session.Valid.Relaying.{send_Keeps, flush_Keeps}
use sockspp.Session.Valid.Clients.{owns_remote}

-- A remote socket that is not connected yet is at an address of its list.
trying_fits :
    (st : State) (r : RemoteSocket)
    → RemoteFits st (some r)
    → r.is_connected ≡ false
    → (as' : List IpAddress) × (r.addresses ≡ some as')
      × (r.connecting_idx < length as')
      × (st ≡ State.connecting_remote)
trying_fits st r f nc = go r.addresses refl
  where
    go :
        (o : Option (List IpAddress))
        → r.addresses ≡ o
        → (as' : List IpAddress) × (r.addresses ≡ some as')
          × (r.connecting_idx < length as')
          × (st ≡ State.connecting_remote)
    go none e = ground arith
    go (some as') e = (as', e, ground arith, ground arith)

pub trying :
    (r : RemoteSocket) (s : Session)
    → s.remote_socket ≡ some r
    → r.is_connected ≡ false
    → IsValid s
    → (as' : List IpAddress) × (r.addresses ≡ some as')
      × (r.connecting_idx < length as')
      × (s.state ≡ State.connecting_remote)
trying r s has nc v = trying_fits s.state r (subst (RemoteFits s.state) has v.remote_fits) nc

module _ (pf : Platform) where
  sent_back_Keeps :
      (st : State) (b : MemoryBuffer) (addr : Sockaddr) (w : World)
      → w.session.state ≡ st
      → IsValid w.session
      → Keeps false (remote_in_state pf st b addr w)
  unfolding remote_in_state udp_send_to get_udp garbage send_to
  sent_back_Keeps State.connected b addr w e v =
      let (r, has, _) = owns_remote w.session (ground arith) v in
      send_Keeps pf to_client r b w has v
  sent_back_Keeps State.associated b addr w e v = ground arith
  sent_back_Keeps State.accepted b addr w e v = tt
  sent_back_Keeps State.auth_requested b addr w e v = tt
  sent_back_Keeps State.authenticated b addr w e v = tt
  sent_back_Keeps State.resolving_domain_name b addr w e v = tt
  sent_back_Keeps State.connecting_remote b addr w e v = tt
  sent_back_Keeps State.invalid b addr w e v = tt

  received_remote_Keeps :
      (old : Mem) (answer : Option Received) (r : RemoteSocket) (st : State) (w : World)
      → w.session.remote_socket ≡ some r
      → w.session.state ≡ st
      → IsValid w.session
      → Keeps false (
          (elim answer as (λ _. M Bool) [
            | none ↦ pure false
            | some (Received.failed e) ↦ pure false
            | some (Received.got bytes addr) ↦
                let process = remote_in_state pf st (received_buffer old bytes buffer_size) addr in
                if length bytes == 0 then remote_lost pf else process
          ])
            w)
  unfolding remote_lost get_remote
  received_remote_Keeps old none r st w has e v = tt
  received_remote_Keeps old (some (Received.failed f)) r st w has e v = tt
  received_remote_Keeps old (some (Received.got bytes a)) r st w has e v =
      elim (Bool-cases (length bytes == 0)) [
        | inl q ↦ rw (q, has, Keeps) tt
        | inr q ↦ rw (q, Keeps) (sent_back_Keeps st (received_buffer old bytes buffer_size) a w e v)
      ]

  -- `*_remote_socket` of a session that has one.
  Owned : RemoteSocket → World → Type 0
  Owned r w = (w.session.remote_socket ≡ some r) × IsValid w.session

  owned :
      (risky : Bool) (r : RemoteSocket) (w : World)
      → w.session.remote_socket ≡ some r
      → IsValid w.session
      → After risky Owned (get_remote w)
  unfolding get_remote Owned
  owned risky r w has v = ground arith

  retry_Keeps :
      (r : RemoteSocket) (w : World)
      → Owned r w
      → r.is_connected ≡ false
      → Keeps false (try_connect_next pf w)
  unfolding Owned
  retry_Keeps r w (has, v) nc =
      let (as', hasas, ix, st) = trying r w.session has nc v in
      next_Keeps pf r as' w has hasas st (ground arith) nc (ground arith) (ground arith)
        (ground arith) v.client_waits v.remote_waits

  writable_Keeps :
      (r : RemoteSocket) (w : World)
      → w.session.remote_socket ≡ some r
      → IsValid w.session
      → Keeps true (remote_writable pf w)
  unfolding remote_writable Owned
  writable_Keeps r w has v =
      Keeps-bind true Owned _ get_remote w (owned true r w has v) (λ r' w' (has', v').
        elim (Bool-cases r'.is_connected) [
          | inl e ↦ rw (e, Keeps) (flush_Keeps pf to_remote r' w' has' v')
          | inr e ↦
              let (as', hasas, ix, st) = trying r' w'.session has' e v' in
              let (a, at) = get_elem?_in_range as' r'.connecting_idx ix in
              rw (e, Keeps) (tolerate _ (could_connect-Keeps pf r' as' a w' has' hasas at st v'))
        ])

  remote_error-Keeps :
      (r : RemoteSocket) (w : World)
      → w.session.remote_socket ≡ some r
      → IsValid w.session
      → Keeps false (remote_error pf w)
  unfolding remote_error
  remote_error-Keeps r w has v =
      Keeps-bind false Owned _ get_remote w (owned false r w has v) (λ r' w' o.
        elim (Bool-cases r'.is_connected) [
          | inl e ↦ rw (e, Keeps) tt
          | inr e ↦ rw (e, Keeps) (retry_Keeps r' w' o e)
        ])

  InState : RemoteSocket → State → World → Type 0
  InState r st w = (w.session.remote_socket ≡ some r) × (w.session.state ≡ st) × IsValid w.session

  receive_InState :
      (fd : Fd) (r : RemoteSocket) (st st' : State) (w : World)
      → InState r st w
      → After false (λ _. InState r st) (receive_in_state pf st' fd w)
  unfolding receive_in_state recv recv_from InState
  receive_InState fd r st st' w h = ground arith

  receiving_Keeps :
      (r : RemoteSocket) (w : World)
      → w.session.remote_socket ≡ some r
      → IsValid w.session
      → Keeps false (remote_receive pf w)
  unfolding remote_receive garbage Owned InState
  receiving_Keeps r w has v =
      Keeps-bind false Owned _ get_remote w (owned false r w has v) (λ r' w' (has', v').
        let st = w'.session.state in
        Keeps-bind false (λ _. InState r' st) _ (receive_in_state pf st r'.fd) w'
          (receive_InState r'.fd r' st st w' (has', refl, v'))
          (λ answer w2 (has2, e2, v2).
            received_remote_Keeps (pf.os.garbage w'.log) answer r' st w2 has2 e2 v2))

  remote_other_Keeps :
      (flags : Flags) (writing : Bool) (r : RemoteSocket) (w : World)
      → flags.write ≡ writing
      → w.session.remote_socket ≡ some r
      → IsValid w.session
      → Keeps writing ((if flags.write then remote_writable pf else remote_receive pf) w)
  remote_other_Keeps flags true r w e has v = rw (e, Keeps) (writable_Keeps r w has v)
  remote_other_Keeps flags false r w e has v = rw (e, Keeps) (receiving_Keeps r w has v)

  lost_Keeps :
      (risky : Bool) (r : RemoteSocket) (w : World)
      → w.session.remote_socket ≡ some r
      → Keeps risky (remote_lost pf w)
  unfolding remote_lost get_remote
  lost_Keeps risky r w has = rw (has, Keeps) tt

  pub remote_event_Keeps :
      (flags : Flags) (writing : Bool) (r : RemoteSocket) (w : World)
      → flags.write ≡ writing
      → w.session.remote_socket ≡ some r
      → IsValid w.session
      → Keeps writing (process_remote_event pf flags w)
  unfolding process_remote_event
  remote_event_Keeps flags writing r w e2 has v = elim (Bool-cases flags.closed) [
    | inl e ↦ rw (e, Keeps) (lost_Keeps writing r w has)
    | inr e ↦ elim (Bool-cases flags.error) [
      | inl e1 ↦ rw (e, e1, Keeps) (weaken writing _ (remote_error-Keeps r w has v))
      | inr e1 ↦ rw (e, e1, Keeps) (remote_other_Keeps flags writing r w e2 has v)
    ]
  ]
