-- ===== src/Session/Phases/Traces.antt =====
-- The protocol of a session as a whole: every event of
-- src/server/src/sockspp/server/session.cxx is one of its steps, so a run is a path of steps.
use mathlib.Core.Path.{subst}
use sockspp.Base.{
  ℕ, ◌<◌, ◌≡◌, refl, sym, ap, ◌∙◌, inl, inr, length, get_elem?_in_range, Bool, true, false,
  Bool-cases, ◌||◌, ◌==◌, if◌then◌else◌, some, List, ◌∷◌,
}
use sockspp.Core.IpAddress.{IpAddress}
use sockspp.Core.Event.{Flags}
use sockspp.System.{Call, Platform, IoResult, Fd}
use sockspp.Server.Params.{ServerParams}
use sockspp.Session.{M, ◌>>◌, pure, call, World, Session, DnsSocket, State, Outcome, ok, fault}
use sockspp.Session.Udp.{Datagram, udp_recv_from}
use sockspp.Session.Dns.{get_response}
use sockspp.Session.Execute.{do_command}
use sockspp.Session.Events.{process_client, client_in_state, process_udp_event, process_dns_event}
use sockspp.Session.Run.{Event, client, remote, udp, dns, process_event}
use sockspp.Session.Valid.{IsValid, After}
use sockspp.Session.Valid.Answers.{get_response-After}
use sockspp.Session.Valid.Events.{IsEnabled}
use sockspp.Session.Phases.Received.{udp_recv-Leaves}
use sockspp.Session.Phases.{Settles, Leaves, Settles-bind, Settles-weaken, Moves}
use sockspp.Session.Phases.Clients.{same_moves, in_state_moves, client_event_moves, resolved_moves}
use sockspp.Session.Phases.Commands.{Executed, do_command-Settles}
use sockspp.Session.Phases.Remotes.{remote_event_moves}

module _ (pf : Platform) (params : ServerParams) where
  datagram_moves :
      (st : State) (d : Datagram) (w : World)
      → w.session.state ≡ st
      → Settles (Moves st) (
          (elim d.status as (λ _. M Bool) [
            | IoResult.failed e ↦ pure false
            | IoResult.count n ↦
                let process = process_client pf params d.buffer (some d.addr) in
                if n == 0 then pure true else process
          ])
            w)
  unfolding process_client
  datagram_moves st d w same = go d.status
    where
      go :
          (r : IoResult)
          → Settles (Moves st) (
              (elim r as (λ _. M Bool) [
                | IoResult.failed e ↦ pure false
                | IoResult.count n ↦
                    let process = process_client pf params d.buffer (some d.addr) in
                    if n == 0 then pure true else process
              ])
                w)
      go (IoResult.failed e) = tt
      go (IoResult.count n) = elim (Bool-cases (n == 0)) [
        | inl e ↦ rw (e, Settles) (same_moves st w.session.state same)
        | inr e ↦
            let now = client_in_state pf params w.session.state d.buffer (some d.addr) w in
            rw (e, Settles)
              (subst (λ (x : State). Settles (Moves x) now) same
                (in_state_moves pf params w.session.state d.buffer (some d.addr) w refl))
      ]

  udp_event_moves :
      (flags : Flags) (w : World)
      → Settles (Moves w.session.state) (process_udp_event pf params flags w)
  unfolding process_udp_event
  udp_event_moves flags w = elim (Bool-cases (flags.closed || flags.error)) [
    | inl e ↦ rw (e, Settles) tt
    | inr e ↦
        let st = w.session.state in
        let k =
          Settles-bind (λ (d : Datagram) s. s ≡ st) (Moves st) _ (udp_recv_from pf) w
            (udp_recv-Leaves pf w) (datagram_moves st) in
        rw (e, Settles) k
  ]

  execute_moves :
      (fd : Fd) (status : IoResult) (addresses : List IpAddress) (w : World)
      → w.session.state ≡ State.resolving_domain_name
      → Settles (Moves State.resolving_domain_name) (
          (elim status as (λ _. M Bool) [
            | IoResult.failed e ↦ pure false
            | IoResult.count n ↦
                let execute = do_command pf params (some addresses) in
                if n == 0 then pure false else execute
          ])
            (record w { log = Call.remove_event fd ∷ w.log }))
  execute_moves fd (IoResult.failed e) addresses w st = tt
  execute_moves fd (IoResult.count n) addresses w st = elim (Bool-cases (n == 0)) [
    | inl e ↦ rw (e, Settles) tt
    | inr e ↦
        let w1 : World = record w { log = Call.remove_event fd ∷ w.log } in
        rw (e, Settles)
          (Settles-weaken (Executed w.session.state) (Moves State.resolving_domain_name) _
            (do_command-Settles pf params (some addresses) w1)
            (λ s h. resolved_moves s (subst (λ (x : State). Executed x s) st h)))
  ]

  answer-Leaves :
      (d : DnsSocket) (w : World)
      → w.session.state ≡ State.resolving_domain_name
      → Leaves
          (λ (a : IoResult × List IpAddress) s. s ≡ State.resolving_domain_name)
          (get_response pf d w)
  answer-Leaves d w st = go (get_response pf d w) (get_response-After pf d w)
    where
      go :
          (o : Outcome ((IoResult × List IpAddress) × World))
          → After true (λ _ w'. w'.session ≡ w.session) o
          → Leaves (λ (a : IoResult × List IpAddress) s. s ≡ State.resolving_domain_name) o
      go (fault f) h = tt
      go (ok (a, w')) h = ap (λ (s : Session). s.state) h ∙ st

  dns_event_moves :
      (flags : Flags) (i : ℕ) (w : World)
      → i < length w.session.dns_sockets
      → w.session.state ≡ State.resolving_domain_name
      → Settles (Moves State.resolving_domain_name) (process_dns_event pf params flags i w)
  unfolding process_dns_event
  dns_event_moves flags i w lt st = elim (Bool-cases (flags.closed || flags.error)) [
    | inl e ↦ rw (e, Settles) tt
    | inr e ↦
        let (d, at) = get_elem?_in_range w.session.dns_sockets i lt in
        let k =
          Settles-bind (λ (a : IoResult × List IpAddress) s. s ≡ State.resolving_domain_name)
            (Moves State.resolving_domain_name)
            (λ (a : IoResult × List IpAddress).
              call (Call.remove_event d.fd) >> (elim (a.0) as (λ _. M Bool) [
                | IoResult.failed e ↦ pure false
                | IoResult.count n ↦
                    let execute = do_command pf params (some (a.1)) in
                    if n == 0 then pure false else execute
              ]))
            (get_response pf d) w (answer-Leaves d w st)
            (λ (status, addresses) w' same. execute_moves d.fd status addresses w' same) in
        rw (e, at, Settles) k
  ]

  -- An event that finds its socket takes a valid session along one step of the protocol, whatever
  -- the system answers: the handler's new state is one that the protocol allows after the old one.
  pub process_event-Moves :
      (e : Event) (w : World)
      → IsValid w.session
      → IsEnabled e w.session
      → Settles (Moves w.session.state) (process_event pf params e w)
  unfolding process_event
  process_event-Moves (client flags) w v h = client_event_moves pf params flags w
  process_event-Moves (remote flags) w v (r, has) = remote_event_moves pf flags r w has v
  process_event-Moves (udp flags) w v (u, has) = udp_event_moves flags w
  process_event-Moves (dns flags i) w v (lt, st) =
      subst (λ (x : State). Settles (Moves x) (process_dns_event pf params flags i w)) (sym st)
        (dns_event_moves flags i w lt st)
