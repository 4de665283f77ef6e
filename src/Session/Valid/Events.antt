-- ===== src/Session/Valid/Events.antt =====
-- Events keep a session valid: the `process_…_event` methods of
-- src/server/src/sockspp/server/session.cxx, each on a session that has the event's socket.
use mathlib.Core.Path.{subst}
use sockspp.Base.{
  ℕ, ◌<◌, ◌≡◌, refl, sym, ap, ◌∙◌, arith, length, Bool, true, false, not, some, List, Bool-cases,
  inl, inr, ◌||◌, if◌then◌else◌, ◌==◌, get_elem?_in_range, ◌∷◌,
}
use sockspp.Core.Event.{Flags}
use sockspp.Core.IpAddress.{IpAddress}
use sockspp.Server.Params.{ServerParams}
use sockspp.System.{Call, Platform, IoResult, Fd}
use sockspp.Session.{
  pure, ◌>>=◌, ◌>>◌, call, World, State, Session, RemoteSocket, DnsSocket, UdpSocket, M,
}
use sockspp.Session.Udp.{Datagram, udp_recv_from}
use sockspp.Session.Dns.{get_response}
use sockspp.Session.Execute.{do_command}
use sockspp.Session.Events.{process_client, process_udp_event, process_dns_event}
use sockspp.Session.Run.{Event, client, remote, udp, dns, process_event}
use sockspp.Session.Valid.{IsValid, Keeps, Keeps-bind, tolerate}
use sockspp.Session.Valid.Commands.{do_command-Keeps}
use sockspp.Session.Valid.Answers.{udp_recv_After, get_response-After}
use sockspp.Session.Valid.Clients.{in_state_Keeps, client_event_Keeps}
use sockspp.Session.Valid.Remotes.{remote_event_Keeps}

-- An event that the poller can deliver to a session: its socket exists, and a DNS answer is one
-- that the session still waits for.
abbrev pub IsEnabled : Event → Session → Type 0
IsEnabled (client flags) s = Unit
IsEnabled (remote flags) s = (r : RemoteSocket) × (s.remote_socket ≡ some r)
IsEnabled (udp flags) s = (u : UdpSocket) × (s.udp_socket ≡ some u)
IsEnabled (dns flags i) s = (i < length s.dns_sockets) × (s.state ≡ State.resolving_domain_name)

-- Where the handler may meet an undefined access: a WRITE event sends again from a null buffer, an
-- answer of the DNS library may have no data, and the header of a client's datagram is taken off by
-- a memcpy that does not look at the lengths.
abbrev pub is_risky : Event → Bool
is_risky (client flags) = flags.write
is_risky (remote flags) = flags.write
is_risky (udp flags) = not (flags.closed || flags.error)
is_risky (dns flags i) = true

module _ (pf : Platform) (params : ServerParams) where
  datagram_Keeps :
      (d : Datagram) (w : World)
      → IsValid w.session
      → Keeps true (
          (elim d.status as (λ _. M Bool) [
            | IoResult.failed e ↦ pure false
            | IoResult.count n ↦
                let process = process_client pf params d.buffer (some d.addr) in
                if n == 0 then pure true else process
          ])
            w)
  unfolding process_client
  datagram_Keeps d w v = go d.status
    where
      go :
          (r : IoResult)
          → Keeps true (
              (elim r as (λ _. M Bool) [
                | IoResult.failed e ↦ pure false
                | IoResult.count n ↦
                    let process = process_client pf params d.buffer (some d.addr) in
                    if n == 0 then pure true else process
              ])
                w)
      go (IoResult.failed e) = tt
      go (IoResult.count n) = elim (Bool-cases (n == 0)) [
        | inl e ↦ rw (e, Keeps) v
        | inr e ↦
            rw (e, Keeps)
              (tolerate _
                (in_state_Keeps pf params w.session.state d.buffer (some d.addr) w refl v))
      ]

  udp_event_Keeps :
      (flags : Flags) (u : UdpSocket) (w : World)
      → w.session.udp_socket ≡ some u
      → IsValid w.session
      → Keeps (not (flags.closed || flags.error)) (process_udp_event pf params flags w)
  unfolding process_udp_event
  udp_event_Keeps flags u w has v = elim (Bool-cases (flags.closed || flags.error)) [
    | inl e ↦
        subst (λ b. Keeps (not b) (process_udp_event pf params flags w)) (sym e) (rw (e, Keeps) tt)
    | inr e ↦
        let k =
          Keeps-bind true (λ _ w'. IsValid w'.session) _ (udp_recv_from pf) w
            (udp_recv_After pf u w (has, v)) datagram_Keeps in
        subst (λ b. Keeps (not b) (process_udp_event pf params flags w)) (sym e) (rw (e, Keeps) k)
  ]

  -- A session whose name is being resolved.
  Resolving : World → Type 0
  Resolving w = (w.session.state ≡ State.resolving_domain_name) × IsValid w.session

  execute_Keeps :
      (fd : Fd) (status : IoResult) (addresses : List IpAddress) (w : World)
      → w.session.state ≡ State.resolving_domain_name
      → IsValid w.session
      → Keeps true (
          (elim status as (λ _. M Bool) [
            | IoResult.failed e ↦ pure false
            | IoResult.count n ↦
                let execute = do_command pf params (some addresses) in
                if n == 0 then pure false else execute
          ])
            (record w { log = Call.remove_event fd ∷ w.log }))
  execute_Keeps fd (IoResult.failed e) addresses w st v = tt
  execute_Keeps fd (IoResult.count n) addresses w st v = elim (Bool-cases (n == 0)) [
    | inl e ↦ rw (e, Keeps) tt
    | inr e ↦
        let w1 : World = record w { log = Call.remove_event fd ∷ w.log } in
        rw (e, Keeps) (tolerate _ (do_command-Keeps pf params (some addresses) w1 (ground arith) v))
  ]

  answer_Keeps :
      (d : DnsSocket) (w : World)
      → w.session.state ≡ State.resolving_domain_name
      → IsValid w.session
      → Keeps true (
          (do
            (status, addresses) ← get_response pf d
            call (Call.remove_event d.fd)
            elim status as (λ _. M Bool) [
              | IoResult.failed e ↦ pure false
              | IoResult.count n ↦
                  let execute = do_command pf params (some addresses) in
                  if n == 0 then pure false else execute
            ])
            w)
  answer_Keeps d w st v =
      Keeps-bind true (λ _ w'. w'.session ≡ w.session) _ (get_response pf d) w
        (get_response-After pf d w)
        (λ (status, addresses) w' same.
          execute_Keeps d.fd status addresses w' (ap (λ (s : Session). s.state) same ∙ st)
            (subst IsValid (sym same) v))

  dns_event_Keeps :
      (flags : Flags) (i : ℕ) (w : World)
      → i < length w.session.dns_sockets
      → w.session.state ≡ State.resolving_domain_name
      → IsValid w.session
      → Keeps true (process_dns_event pf params flags i w)
  unfolding process_dns_event
  dns_event_Keeps flags i w lt st v = elim (Bool-cases (flags.closed || flags.error)) [
    | inl e ↦ rw (e, Keeps) tt
    | inr e ↦
        let (d, at) = get_elem?_in_range w.session.dns_sockets i lt in
        rw (e, at, Keeps) (answer_Keeps d w st v)
  ]

  -- A handler of an event that finds its socket keeps the session valid. No index of a vector is out of range,
  -- and only a WRITE event, a DNS answer and a datagram that arrives for an association may meet a
  -- null pointer or a memcpy with a negative size or overlapping regions. When the handler returns
  -- true, the remote and the UDP socket still fit the session's state, the index of the address that
  -- is tried is in range, one name is asked for at most, and the bytes that wait for a socket fit
  -- their array.
  pub process_event-Keeps :
      (e : Event) (w : World)
      → IsValid w.session
      → IsEnabled e w.session
      → Keeps (is_risky e) (process_event pf params e w)
  unfolding process_event
  process_event-Keeps (client flags) w v h = client_event_Keeps pf params flags flags.write w refl v
  process_event-Keeps (remote flags) w v (r, has) =
      remote_event_Keeps pf flags flags.write r w refl has v
  process_event-Keeps (udp flags) w v (u, has) = udp_event_Keeps flags u w has v
  process_event-Keeps (dns flags i) w v (lt, st) = dns_event_Keeps flags i w lt st v
