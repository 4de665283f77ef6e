-- ===== src/Session/Phases/Requests.antt =====
-- Where a request leads: `_check_command` and `_resolve_address` of
-- src/server/src/sockspp/server/session.cxx, then the command.
use mathlib.Core.Path.{subst}
use sockspp.Base.{
  Mem, slice, ◌+◌, ◌≡◌, refl, arith, ◌⊎◌, inl, inr, Bool, true, false, Bool-cases, Option-cases,
  if◌then◌else◌, leb, length, Option, none, some, List, ◌∷◌,
}
use sockspp.Core.Enums.{AddrType, Reply}
use sockspp.Core.MemoryBuffer.{MemoryBuffer, mem_of}
use sockspp.Core.IpAddress.{IpAddress, of_text}
use sockspp.Core.S5.{get_command, message_address, get_address}
use sockspp.System.{Call, Platform}
use sockspp.Server.Params.{ServerParams, empty}
use sockspp.Session.{◌>>=◌, ◌>>◌, pure, World, State}
use sockspp.Session.Calls.{send, garbage, open_socket, add_event, send_to}
use sockspp.Session.Client.{send_reply}
use sockspp.Session.Auth.{set_state}
use sockspp.Session.Request.{
  max_dns_sockets, reply_to_request, check_command, query, start_query, resolve_domain_name,
  raw_address, resolve_by_type, resolve_address, is_supported, udp_kind,
}
use sockspp.Session.Execute.{do_command}
use sockspp.Session.Events.{handle_request}
use sockspp.Session.Phases.{Settles, Leaves, Leaves-bind, Settles-bind, Settles-weaken}
use sockspp.Session.Phases.Commands.{Executed, do_command-Settles}

-- The state stays, or a query was made and there are no addresses yet.
abbrev Resolved : State → Option (List IpAddress) × Bool → State → Type 0
Resolved st r s = (s ≡ st) ⊎ ((s ≡ State.resolving_domain_name) × (r.0 ≡ none))

abbrev pub Requested : State → State → Type 0
Requested st s = Executed st s ⊎ (s ≡ State.resolving_domain_name)

module _ (pf : Platform) (params : ServerParams) where
  check_command-Leaves :
      (b : MemoryBuffer) (w : World) → Leaves (λ x s. s ≡ w.session.state) (check_command pf b w)
  unfolding check_command reply_to_request send_reply send garbage
  check_command-Leaves b w = elim (Bool-cases (is_supported (get_command (mem_of b.ptr) 0))) [
    | inl e ↦ rw (e, Leaves) refl
    | inr e ↦ rw (e, Leaves) refl
  ]

  start_query-Leaves :
      (m : Mem) (w : World)
      → Leaves
          (λ (x : Bool) s. (s ≡ w.session.state) ⊎ (s ≡ State.resolving_domain_name))
          (start_query pf params m w)
  unfolding start_query message_address get_address garbage open_socket add_event set_state query
      send_to
  start_query-Leaves m w =
      let name =
        slice m (get_address (message_address 0) + 1) (m (get_address (message_address 0))) in
      elim (Option-cases
        (of_text pf.inet_pton (pf.os.garbage w.log) params.dns_ip params.dns_port false)) [
          | inl e ↦ rw (e, Leaves) tt
          | inr (a, e) ↦
              elim (Option-cases (pf.os.opened (Call.open_socket (udp_kind a.version) ∷ w.log))) [
                | inl e' ↦ rw (e, e', Leaves) tt
                | inr (fd, e') ↦ elim (Option-cases (pf.dns_lib.encode_query name)) [
                  | inl e2 ↦ rw (e, e', Leaves, e2) tt
                  | inr (bytes, e2) ↦ rw (e, e', Leaves, e2) (inr refl)
                ]
              ]
        ]

  resolve_domain_name-Leaves :
      (b : MemoryBuffer) (w : World)
      → Leaves
          (λ (x : Bool) s. (s ≡ w.session.state) ⊎ (s ≡ State.resolving_domain_name))
          (resolve_domain_name pf params b w)
  unfolding resolve_domain_name
  resolve_domain_name-Leaves b w =
      elim (Bool-cases (leb max_dns_sockets (length w.session.dns_sockets))) [
        | inl e ↦ rw (e, Leaves) (inl refl)
        | inr e ↦ elim (Bool-cases (empty params.dns_ip)) [
          | inl e' ↦ rw (e, e', Leaves) (inl refl)
          | inr e' ↦ let k = start_query-Leaves (mem_of b.ptr) w in rw (e, e', Leaves) k
        ]
      ]

  refused-Leaves :
      (m : Mem) (started : Bool) (st : State) (w : World)
      → (w.session.state ≡ st) ⊎ (w.session.state ≡ State.resolving_domain_name)
      → Leaves (Resolved st) (
          ((if started then pure tt else reply_to_request pf m Reply.addr_type_not_supported)
              >> pure {A = Option (List IpAddress) × Bool} (none, started))
            w)
  unfolding reply_to_request send_reply send garbage
  refused-Leaves m started st w h = ground arith

  resolve_by_type-Leaves :
      (t : AddrType) (b : MemoryBuffer) (w : World)
      → Leaves (Resolved w.session.state) (resolve_by_type pf params b t w)
  unfolding resolve_by_type raw_address garbage
  resolve_by_type-Leaves AddrType.ipv4 b w = inl refl
  resolve_by_type-Leaves AddrType.ipv6 b w = inl refl
  resolve_by_type-Leaves AddrType.domain_name b w =
      Leaves-bind (λ (x : Bool) s. (s ≡ w.session.state) ⊎ (s ≡ State.resolving_domain_name))
        (Resolved w.session.state) _ (resolve_domain_name pf params b) w
        (resolve_domain_name-Leaves b w)
        (λ started w'. refused-Leaves (mem_of b.ptr) started w.session.state w')
  resolve_by_type-Leaves AddrType.invalid b w =
      refused-Leaves (mem_of b.ptr) false w.session.state w (inl refl)
  resolve_by_type-Leaves (AddrType.other n) b w =
      refused-Leaves (mem_of b.ptr) false w.session.state w (inl refl)

  run-Resolved-Settles :
      (st : State) (r : Option (List IpAddress) × Bool) (w : World)
      → Resolved st r w.session.state
      → Settles (Requested st) ((if r.1 then pure true else do_command pf params (r.0)) w)
  unfolding do_command
  run-Resolved-Settles st (addresses, true) w (inl e) = inl (inr (inr e))
  run-Resolved-Settles st (addresses, true) w (inr (e, h)) = inr e
  run-Resolved-Settles st (addresses, false) w (inl e) =
      Settles-weaken (Executed w.session.state) (Requested st) _
        (do_command-Settles pf params addresses w)
        (λ s h. inl (subst (λ (x : State). Executed x s) e h))
  run-Resolved-Settles st (none, false) w (inr (e, h)) = tt
  run-Resolved-Settles st (some as', false) w (inr (e, h)) = ground arith

  supported-Settles :
      (st : State) (b : MemoryBuffer) (supported : Bool) (w : World)
      → w.session.state ≡ st
      → Settles (Requested st) (
          (if supported
              then (do
                resolved ← resolve_address pf params b
                if resolved.1 then pure true else do_command pf params (resolved.0))
              else pure false)
            w)
  unfolding resolve_address
  supported-Settles st b false w e = tt
  supported-Settles st b true w e =
      Settles-bind (Resolved st) (Requested st) _ (resolve_address pf params b) w
        (subst (λ (x : State). Leaves (Resolved x) (resolve_address pf params b w)) e
          (resolve_by_type-Leaves _ b w))
        (run-Resolved-Settles st)

  pub request-Settles :
      (b : MemoryBuffer) (w : World)
      → Settles (Requested w.session.state) (handle_request pf params b w)
  unfolding handle_request
  request-Settles b w =
      Settles-bind (λ (x : Bool) s. s ≡ w.session.state) (Requested w.session.state) _
        (check_command pf b) w (check_command-Leaves b w) (supported-Settles w.session.state b)
