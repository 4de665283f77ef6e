-- ===== src/Server/Setup/Disabled.antt =====
-- Where src/server/src/sockspp/server/server.cxx leaves the address of the DNS server, and what that
-- does to the requests of src/server/src/sockspp/server/session.cxx.
use sockspp.Base.{
  ℕ, ◌≡◌, refl, ◌⊎◌, inl, inr, arith, ◌<◌, length, bytes_eq, eq_of_bytes_eq, true, false,
  Bool-cases, Option, none, List, [], ◌∷◌, leb,
}
use sockspp.Core.Enums.{AddrType, Reply}
use sockspp.Core.MemoryBuffer.{MemoryBuffer, mem_of}
use sockspp.Core.S5.{get_command, get_type, get_port, message_address, get_address}
use sockspp.Core.S5.Layout.{IsRoutable}
use sockspp.Core.IpAddress.{of_text}
use sockspp.Session.Calls.{garbage}
use sockspp.System.{Call, Platform}
use sockspp.Session.{fault, invalid_ip_address, ◌>>=◌, ◌>>◌, World, ok}
use sockspp.Session.Client.Wire.{wire_reply, send_reply_lem}
use sockspp.Session.Request.{
  start_query, max_dns_sockets, is_supported, check_command, reply_to_request, resolve_domain_name,
  resolve_by_type, resolve_address,
}
use sockspp.Session.Execute.{do_command}
use sockspp.Session.Events.{handle_request}
use sockspp.Core.Utils.{is_ip_address}
use sockspp.Server.Params.{ServerParams, empty}
use sockspp.Server.Setup.{
  none_text, auto_text, get_dns_nameservers, first_nameserver, dns_choice, server_params,
}

-- The server resolves names nowhere, with the system's first nameserver, which is not looked at
-- further, or at the address that the option names, in lower case.
pub server_params_lem :
    (resolv_conf : Option (List ℕ)) (p : ServerParams)
    → let dns_ip = (server_params resolv_conf p).dns_ip in
      (dns_ip ≡ [])
      ⊎ ((dns_choice p.dns_ip ≡ auto_text)
          × ((rest : List (List ℕ)) × (get_dns_nameservers resolv_conf ≡ dns_ip ∷ rest)))
      ⊎ ((dns_ip ≡ dns_choice p.dns_ip) × (is_ip_address dns_ip ≡ true))
unfolding server_params
server_params_lem resolv_conf p = elim (Bool-cases (bytes_eq (dns_choice p.dns_ip) none_text)) [
  | inl e ↦ rw e (inl refl)
  | inr e ↦ elim (Bool-cases (bytes_eq (dns_choice p.dns_ip) auto_text)) [
    | inl e' ↦
        rw (e, e')
          (from_system (get_dns_nameservers resolv_conf)
            (eq_of_bytes_eq (dns_choice p.dns_ip) auto_text e'))
    | inr e' ↦ elim (Bool-cases (is_ip_address (dns_choice p.dns_ip))) [
      | inl e2 ↦ rw (e, e', e2) (inr (inr (refl, e2)))
      | inr e2 ↦ rw (e, e', e2) (inl refl)
    ]
  ]
]
  where
    from_system :
        (ns : List (List ℕ))
        → dns_choice p.dns_ip ≡ auto_text
        → (first_nameserver ns ≡ [])
          ⊎ ((dns_choice p.dns_ip ≡ auto_text)
              × ((rest : List (List ℕ)) × (ns ≡ first_nameserver ns ∷ rest)))
          ⊎ ((first_nameserver ns ≡ dns_choice p.dns_ip)
              × (is_ip_address (first_nameserver ns) ≡ true))
    from_system [] h = inl refl
    from_system (address ∷ rest) h = inr (inl (h, (rest, refl)))

module _ (pf : Platform) (p : ServerParams) (b : MemoryBuffer) (w : World)
    (supported : is_supported (get_command (mem_of b.ptr) 0) ≡ true)
    (a_name : get_type (mem_of b.ptr) 3 ≡ AddrType.domain_name) where
  -- The world after `_check_command`.
  abbrev pub checked : World
  checked = record w { session = record (w.session) { command = get_command (mem_of b.ptr) 0 } }

  not_resolved : p.dns_ip ≡ [] → resolve_domain_name pf p b checked ≡ ok (false, checked)
  unfolding resolve_domain_name
  not_resolved h = elim (Bool-cases (leb max_dns_sockets (length w.session.dns_sockets))) [
    | inl e ↦ rw (e, resolve_domain_name) refl
    | inr e ↦ rw (e, h, resolve_domain_name) refl
  ]

  -- A server without a DNS server answers a request for a domain name with "address type not
  -- supported", which repeats the name and its 16-bit port, and ends the session; nothing else is
  -- sent, and no socket is opened.
  pub name_refused :
      p.dns_ip ≡ []
      → get_port (mem_of b.ptr) 3 < 65536
      → let m = mem_of b.ptr in
        (w' : World) × (handle_request pf p b w ≡ ok (false, w'))
        × (w'.log
            ≡ Call.send w.session.client_socket (
                wire_reply
                  (pf.os.garbage w.log 2)
                  Reply.addr_type_not_supported
                  AddrType.domain_name
                  m
                  4
                  (get_port m 3))
              ∷ w.log)
  unfolding handle_request check_command resolve_address resolve_by_type message_address get_address
      reply_to_request do_command
  name_refused h small =
      let sent =
        send_reply_lem pf checked Reply.addr_type_not_supported (mem_of b.ptr) 4
          (get_port (mem_of b.ptr) 3) IsRoutable.domain_name small in
      let log =
        Call.send w.session.client_socket (
          wire_reply (pf.os.garbage w.log 2) Reply.addr_type_not_supported AddrType.domain_name
            (mem_of b.ptr) 4 (get_port (mem_of b.ptr) 3))
        ∷ w.log in
      let unresolved = not_resolved h in
      (
        record checked { log = log },
        rw
            (
              supported, a_name, ◌>>=◌, resolve_by_type, unresolved, ◌>>◌, reply_to_request, a_name,
              sent,
            )
            refl,
        refl,
      )

  -- The address of the DNS server is read as an address only now: one that `inet_pton` does not
  -- read, as the system's first nameserver may be, makes the first request for a domain name end
  -- the process with the exception for an invalid address, whatever the client sent.
  pub name_fatal :
      empty p.dns_ip ≡ false
      → pf.inet_pton.v4 p.dns_ip ≡ none
      → pf.inet_pton.v6 p.dns_ip ≡ none
      → length w.session.dns_sockets < max_dns_sockets
      → handle_request pf p b w ≡ fault invalid_ip_address
  unfolding handle_request check_command resolve_address message_address resolve_domain_name garbage
      of_text
  name_fatal named no4 no6 few =
      let room : leb max_dns_sockets (length w.session.dns_sockets) ≡ false = ground arith in
      rw
        (
          supported, a_name, ◌>>=◌, resolve_by_type, resolve_domain_name, room, named, start_query,
          garbage, of_text, no4, no6,
        )
        refl
