-- ===== src/Session/Valid/Requests.antt =====
-- Requests keep a session valid: `_check_command`, `_resolve_address` and `_resolve_domain_name` of
-- src/server/src/sockspp/server/session.cxx.
use sockspp.Base.{
  slice, Mem, ◌≡◌, refl, arith, length, length-append, Bool, true, false, Option, none, some, List,
  [], ◌∷◌, ◌++◌, Bool-cases, inl, inr, leb, if◌then◌else◌, ◌+◌,
}
use sockspp.Core.Enums.{Reply, AddrType}
use sockspp.Core.S5.{get_port, get_command, message_address, get_address}
use sockspp.Core.MemoryBuffer.{MemoryBuffer, mem_of}
use sockspp.Core.IpAddress.{IpAddress, of_text}
use sockspp.Server.Params.{ServerParams, empty}
use sockspp.System.{Call, Platform}
use sockspp.Session.{pure, ◌>>=◌, ◌>>◌, World, State, DnsSocket}
use sockspp.Session.Calls.{send, send_to, garbage, open_socket, add_event}
use sockspp.Session.Auth.{set_state}
use sockspp.Session.Client.{send_reply}
use sockspp.Session.Request.{
  max_dns_sockets, reply_to_request, check_command, query, start_query, resolve_domain_name,
  raw_address, resolve_by_type, resolve_address, udp_kind, is_supported,
}
use sockspp.Session.Execute.{do_command}
use sockspp.Session.Events.{handle_request}
use sockspp.Session.Valid.{IsValid, Keeps, After, After-bind, Keeps-bind}
use sockspp.Session.Valid.Handshake.{is_lone, is_early}
use sockspp.Session.Valid.Commands.{do_command-Keeps}

-- A valid session that has not asked for anything yet.
abbrev pub Begins : World → Type 0
Begins w = (is_early w.session.state ≡ true) × IsValid w.session

-- A valid session that owns no remote socket.
abbrev pub IsIdle : World → Type 0
IsIdle w = (is_lone w.session.state ≡ true) × IsValid w.session

idle : (w : World) → Begins w → IsIdle w
idle w v = ground arith

module _ (pf : Platform) (params : ServerParams) where
  reply_Begins :
      (m : Mem) (reply : Reply) (w : World)
      → Begins w
      → After false (λ _. Begins) (reply_to_request pf m reply w)
  unfolding reply_to_request send_reply send garbage
  reply_Begins m reply w v = ground arith

  check_command-Begins :
      (b : MemoryBuffer) (w : World) → Begins w → After false (λ _. Begins) (check_command pf b w)
  unfolding check_command reply_to_request send_reply send garbage
  check_command-Begins b w v = elim (Bool-cases (is_supported (get_command (mem_of b.ptr) 0))) [
    | inl e ↦ rw (e, After) (ground arith)
    | inr e ↦ rw (e, After) (ground arith)
  ]

  started_Idle :
      (d : DnsSocket) (log : List Call) (w : World)
      → Begins w
      → IsIdle (record {
        session = record (w.session) {
          domain_name = d.domain_name;
          dns_sockets = w.session.dns_sockets ++ d ∷ [];
          state = State.resolving_domain_name;
        };
        log = log;
      })
  started_Idle d log w v = let count = length-append w.session.dns_sockets (d ∷ []) in ground arith

  start_query_Idle :
      (m : Mem) (w : World) → Begins w → After false (λ _. IsIdle) (start_query pf params m w)
  unfolding start_query message_address get_address garbage open_socket add_event set_state query
      send_to
  start_query_Idle m w v =
      let name =
        slice m (get_address (message_address 0) + 1) (m (get_address (message_address 0))) in
      let next = λ (d : DnsSocket) (log : List Call). started_Idle d log w v in
      let wanted = of_text pf.inet_pton (pf.os.garbage w.log) params.dns_ip params.dns_port false in
      elim wanted as (λ o. wanted ≡ o → After false (λ _. IsIdle) (start_query pf params m w)) [
        | none ↦ λ e. rw (e, After) refl
        | some a ↦ λ e.
            let opened = pf.os.opened (Call.open_socket (udp_kind a.version) ∷ w.log) in
            elim opened
                as (λ o. opened ≡ o → After false (λ _. IsIdle) (start_query pf params m w)) [
                  | none ↦ λ e'. rw (e, e', After) refl
                  | some fd ↦ λ e'.
                      let asked = pf.dns_lib.encode_query name in
                      elim asked
                          as (λ o.
                            asked ≡ o → After false (λ _. IsIdle) (start_query pf params m w)) [
                              | none ↦ λ e2. rw (e, e', After, e2) refl
                              | some bytes ↦ λ e2.
                                  rw (e, e', After, e2)
                                    (next
                                      (record {
                                        fd = some fd;
                                        domain_name = name;
                                        port = get_port m (message_address 0);
                                      })
                                      [])
                            ]
                        refl
                ]
              refl
      ]
        refl

  resolve_domain_name_Idle :
      (b : MemoryBuffer) (w : World)
      → Begins w
      → After false (λ _. IsIdle) (resolve_domain_name pf params b w)
  unfolding resolve_domain_name
  resolve_domain_name_Idle b w v =
      elim (Bool-cases (leb max_dns_sockets (length w.session.dns_sockets))) [
        | inl e ↦ rw (e, After) (idle w v)
        | inr e ↦ elim (Bool-cases (empty params.dns_ip)) [
          | inl e' ↦ rw (e, e', After) (idle w v)
          | inr e' ↦ rw (e, e', After) (start_query_Idle (mem_of b.ptr) w v)
        ]
      ]

  refused_Idle :
      (m : Mem) (started : Bool) (w : World)
      → IsIdle w
      → After false
          (λ _. IsIdle)
          (((if started then pure tt else reply_to_request pf m Reply.addr_type_not_supported)
              >> pure {A = Option (List IpAddress) × Bool} (none, started))
            w)
  unfolding reply_to_request send_reply send garbage
  refused_Idle m false w v = ground arith
  refused_Idle m true w v = v

  resolve_by_type_Idle :
      (t : AddrType) (b : MemoryBuffer) (w : World)
      → Begins w
      → After false (λ _. IsIdle) (resolve_by_type pf params b t w)
  unfolding resolve_by_type raw_address garbage
  resolve_by_type_Idle AddrType.ipv4 b w v = idle w v
  resolve_by_type_Idle AddrType.ipv6 b w v = idle w v
  resolve_by_type_Idle AddrType.domain_name b w v =
      After-bind false (λ _. IsIdle) (λ _. IsIdle) _ (resolve_domain_name pf params b) w
        (resolve_domain_name_Idle b w v) (refused_Idle (mem_of b.ptr))
  resolve_by_type_Idle AddrType.invalid b w v = refused_Idle (mem_of b.ptr) false w (idle w v)
  resolve_by_type_Idle (AddrType.other n) b w v = refused_Idle (mem_of b.ptr) false w (idle w v)

  run_resolved_Keeps :
      (resolved : Option (List IpAddress) × Bool) (w : World)
      → IsIdle w
      → Keeps false ((if resolved.1 then pure true else do_command pf params (resolved.0)) w)
  run_resolved_Keeps (addresses, true) w v = v.1
  run_resolved_Keeps (addresses, false) w v = do_command-Keeps pf params addresses w v.0 v.1

  supported_Keeps :
      (b : MemoryBuffer) (supported : Bool) (w : World)
      → Begins w
      → Keeps false (
          (if supported
              then (do
                resolved ← resolve_address pf params b
                if resolved.1 then pure true else do_command pf params (resolved.0))
              else pure false)
            w)
  unfolding resolve_address
  supported_Keeps b false w v = tt
  supported_Keeps b true w v =
      Keeps-bind false (λ _. IsIdle) _ (resolve_address pf params b) w
        (resolve_by_type_Idle _ b w v) run_resolved_Keeps

  pub request_Keeps :
      (b : MemoryBuffer) (w : World) → Begins w → Keeps false (handle_request pf params b w)
  unfolding handle_request
  request_Keeps b w v =
      Keeps-bind false (λ _. Begins) _ (check_command pf b) w (check_command-Begins b w v)
        (supported_Keeps b)
