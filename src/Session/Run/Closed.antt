-- ===== src/Session/Run/Closed.antt =====
-- Sessions before their client has authenticated: no other socket than the client's exists.
use sockspp.Base.{
  ℕ, ◌+◌, ◌≡◌, refl, ◌⊎◌, inl, inr, arith, Mem, of_bytes, slice, Bool, true, false, Bool-cases,
  ◌||◌, if◌then◌else◌, length, ◌==◌, none, List, [], ◌∷◌,
}
use sockspp.Core.Enums.{AuthMethod}
use sockspp.Core.Event.{Flags, only_read}
use sockspp.Core.MemoryBuffer.{MemoryBuffer, mem_of}
use sockspp.Core.SocketInfo.{Sockaddr}
use sockspp.System.{Call, Platform, Received}
use sockspp.Server.Params.{ServerParams, authenticate, get_auth_method}
use sockspp.Session.{World, State, Session, Outcome, ok, fault, null_pointer}
use sockspp.Session.Calls.{received_buffer, garbage, recv, send}
use sockspp.Session.Client.{send_auth, send_auth_status}
use sockspp.Session.Auth.{check_version, request_auth, handle_auth}
use sockspp.Session.Relay.{to_client, session_socket_send}
use sockspp.Session.Remote.{remote_error}
use sockspp.Session.Udp.{buffer_size, udp_recv_from}
use sockspp.Session.Run.{Event, client, remote, udp, dns, process_event}
use sockspp.Session.Events.{
  handle_greeting, client_in_state, process_client, process_client_event, process_remote_event,
  process_udp_event, process_dns_event,
}

abbrev pub is_before_login : State → Bool
is_before_login State.accepted = true
is_before_login State.auth_requested = true
is_before_login _ = false

pub record IsClosed (s : Session) : Type 0 where
  pub early : is_before_login s.state ≡ true
  pub no_remote : s.remote_socket ≡ none
  pub no_udp : s.udp_socket ≡ none
  pub no_dns : s.dns_sockets ≡ []

-- The user name and the password in a message of the client, as `_handle_auth` reads them, and
-- whether the server accepts them.
abbrev pub credentials_pass : ServerParams → Mem → Bool
credentials_pass params m = authenticate params (slice m 2 (m 1)) (slice m (3 + m 1) (m (2 + m 1)))

-- What the client's socket delivers at this point is a message with such credentials.
abbrev pub Presents : Platform → ServerParams → World → Type 0
Presents pf params w =
    (bytes : List ℕ) × (addr : Sockaddr) × (pf.os.received
        (Call.recv w.session.client_socket ∷ w.log)
      ≡ Received.got bytes addr)
    × (credentials_pass params (of_bytes bytes (pf.os.garbage w.log)) ≡ true)

-- What an event may have done: the session is still closed, or the client has logged in.
abbrev pub StaysOr : Type 0 → Outcome (Bool × World) → Type 0
StaysOr P (fault f) = Unit
StaysOr P (ok (b, w')) = IsClosed w'.session ⊎ P

weaken : {P Q : Type 0} (o : Outcome (Bool × World)) → (P → Q) → StaysOr P o → StaysOr Q o
weaken (fault f) h s = tt
weaken (ok (b, w')) h (inl c) = inl c
weaken (ok (b, w')) h (inr p) = inr (h p)

module _ (pf : Platform) (params : ServerParams) (w : World) (c : IsClosed w.session) where
  remote_faults : (flags : Flags) → process_remote_event pf flags w ≡ fault null_pointer
  unfolding process_remote_event remote_error
  remote_faults flags = ground arith

  udp_Stays : (flags : Flags) → StaysOr ⊥ (process_udp_event pf params flags w)
  unfolding process_udp_event udp_recv_from
  udp_Stays flags = ground arith

  dns_Stays : (flags : Flags) (i : ℕ) → StaysOr ⊥ (process_dns_event pf params flags i w)
  unfolding process_dns_event
  dns_Stays flags i = ground arith

  flush_Stays : StaysOr ⊥ (session_socket_send pf to_client none w)
  unfolding session_socket_send send garbage
  flush_Stays = ground arith

module _ (pf : Platform) (params : ServerParams)
    (secret : get_auth_method params ≡ AuthMethod.user_pass) where
  greeting_Stays :
      (b : MemoryBuffer) (w : World)
      → IsClosed w.session
      → StaysOr ⊥ (handle_greeting pf params b w)
  unfolding handle_greeting check_version request_auth send_auth send
  greeting_Stays b w c = ground arith

  auth_Stays :
      (b : MemoryBuffer) (w : World)
      → IsClosed w.session
      → StaysOr (credentials_pass params (mem_of b.ptr) ≡ true) (handle_auth pf params b w)
  unfolding handle_auth send_auth_status send
  auth_Stays b w c = ground arith

  state_Stays :
      (st : State) (b : MemoryBuffer) (w : World)
      → is_before_login st ≡ true
      → IsClosed w.session
      → StaysOr
          (credentials_pass params (mem_of b.ptr) ≡ true)
          (client_in_state pf params st b none w)
  unfolding client_in_state
  state_Stays State.accepted b w early c =
      weaken (handle_greeting pf params b w) (λ x. absurd x) (greeting_Stays b w c)
  state_Stays State.auth_requested b w early c = auth_Stays b w c
  state_Stays _ b w early c = cc

  receive_Stays :
      (w : World) (answer : Received)
      → pf.os.received (Call.recv w.session.client_socket ∷ w.log) ≡ answer
      → IsClosed w.session
      → StaysOr (Presents pf params w) (process_client_event pf params only_read w)
  unfolding process_client_event process_client garbage recv
  receive_Stays w (Received.failed e) eq c = rw eq (inl c)
  receive_Stays w (Received.got bytes addr) eq c =
      let w1 : World = record w { log = Call.recv w.session.client_socket ∷ w.log } in
      let b = received_buffer (pf.os.garbage w.log) bytes buffer_size in
      rw eq (elim (Bool-cases (length bytes == 0)) [
        | inl e ↦ rw e (inl c)
        | inr e ↦ rw e (
            weaken (client_in_state pf params w.session.state b none w1)
              (λ good. (bytes, addr, refl, good)) (state_Stays w.session.state b w1 c.early c))
      ])

  process_client_event_cases :
      (flags : Flags) (w : World)
      → process_client_event pf params flags w ≡ (
          if flags.closed || flags.error
          then ok (false, w)
          else if flags.write
          then session_socket_send pf to_client none w
          else process_client_event pf params only_read w)
  unfolding process_client_event
  process_client_event_cases flags w = ground arith

  client_Stays :
      (flags : Flags) (w : World)
      → IsClosed w.session
      → StaysOr (Presents pf params w) (process_client_event pf params flags w)
  client_Stays flags w c = elim (Bool-cases (flags.closed || flags.error)) [
    | inl e ↦ rw (process_client_event_cases flags w, e) (inl c)
    | inr e ↦ elim (Bool-cases flags.write) [
      | inl wr ↦
          rw (process_client_event_cases flags w, e, wr)
            (weaken (session_socket_send pf to_client none w) (λ x. absurd x)
              (flush_Stays pf params w c))
      | inr rd ↦
          rw (process_client_event_cases flags w, e, rd)
            (receive_Stays w (pf.os.received (Call.recv w.session.client_socket ∷ w.log)) refl c)
    ]
  ]

  -- One event on a closed session of a server that asks for a password.
  pub event_Stays :
      (e : Event) (w : World)
      → IsClosed w.session
      → StaysOr (Presents pf params w) (process_event pf params e w)
  unfolding process_event
  event_Stays (client flags) w c = client_Stays flags w c
  event_Stays (remote flags) w c = rw (remote_faults pf params w c flags) tt
  event_Stays (udp flags) w c =
      weaken (process_udp_event pf params flags w) (λ x. absurd x) (udp_Stays pf params w c flags)
  event_Stays (dns flags i) w c =
      weaken (process_dns_event pf params flags i w) (λ x. absurd x)
        (dns_Stays pf params w c flags i)
