-- ===== src/Session/Request.antt =====
-- The request: `_check_command`, `_resolve_address` and `_resolve_domain_name` of
-- src/server/src/sockspp/server/session.cxx, with `query` of dns_socket.cxx. The request is a message
-- at the start of the buffer.
use sockspp.Base.{
  ℕ, ◌+◌, Mem, slice, length, Bool, true, false, leb, if◌then◌else◌, ◌++◌, Option, none, some, List,
  [], ◌∷◌,
}
use sockspp.Core.Enums.{AddrType, Command, Reply}
use sockspp.Core.S5.{get_command, get_type, get_port, get_address, message_address}
use sockspp.Core.MemoryBuffer.{MemoryBuffer, mem_of}
use sockspp.Core.SocketInfo.{IpVersion, ipv4, ipv6}
use sockspp.Core.IpAddress.{IpAddress, of_raw, of_text}
use sockspp.Core.Event.{read_closed}
use sockspp.System.{Platform, Target, SocketKind, IoResult}
use sockspp.Server.Params.{ServerParams, empty}
use sockspp.Session.{
  M, invalid_ip_address, dns_message, State, DnsSocket, get, put, expect, pure, ◌>>=◌, ◌>>◌,
}
use sockspp.Session.Calls.{open_socket, send_to, garbage, add_event}
use sockspp.Session.Client.{send_reply}
use sockspp.Session.Auth.{set_state}
use sockspp.Session.Remote.{address_sockaddr}

-- `SOCKSPP_SESSION_MAX_DNS_SOCKETS` (src/server/src/sockspp/server/defs.hpp).
abbrev pub max_dns_sockets : ℕ
max_dns_sockets = 5

abbrev pub is_supported : Command → Bool
is_supported Command.connect = true
is_supported Command.udp_associate = true
is_supported _ = false

abbrev pub udp_kind : IpVersion → SocketKind
udp_kind ipv4 = SocketKind.udp
udp_kind ipv6 = SocketKind.udp6

-- A positive `int`.
abbrev pub is_positive : IoResult → Bool
is_positive (IoResult.count n) = leb 1 n
is_positive (IoResult.failed e) = false

module _ (pf : Platform) where
  unfoldable pub reply_to_request : Mem → Reply → M (Unit {0})
  unfolding message_address get_address
  reply_to_request m reply = do
    let p = message_address 0
    _ ← send_reply pf reply (get_type m p) m (get_address p) (get_port m p)
    pure tt

  unfoldable pub check_command : MemoryBuffer → M Bool
  unfolding reply_to_request
  check_command buffer = do
    s ← get
    let command = get_command (mem_of buffer.ptr) 0
    put (record s { command = command })
    let refuse = (do reply_to_request (mem_of buffer.ptr) Reply.command_not_supported; pure false)
    if is_supported command then pure true else refuse

  -- `DnsSocket::query`.
  unfoldable pub query : DnsSocket → IpAddress → M IoResult
  query d dns_address = do
    bytes ← expect dns_message (pf.dns_lib.encode_query d.domain_name)
    send_to pf d.fd bytes (some (address_sockaddr dns_address))

  unfoldable pub start_query : ServerParams → Mem → M Bool
  unfolding message_address get_address set_state query add_event
  start_query params m = do
    old ← garbage pf
    dns_address ←
        expect invalid_ip_address (of_text pf.inet_pton old params.dns_ip params.dns_port false)
    fd ← open_socket pf (udp_kind dns_address.version)
    s ← get
    let a = get_address (message_address 0)
    let name = slice m (a + 1) (m a)
    let d : DnsSocket = record {
      fd = fd;
      domain_name = name;
      port = get_port m (message_address 0);
    }
    put (record s { domain_name = name; dns_sockets = s.dns_sockets ++ d ∷ [] })
    add_event fd (Target.dns (length s.dns_sockets)) read_closed
    set_state State.resolving_domain_name
    status ← query d dns_address
    pure (is_positive status)

  unfoldable pub resolve_domain_name : ServerParams → MemoryBuffer → M Bool
  unfolding start_query
  resolve_domain_name params buffer = do
    s ← get
    let start = start_query params (mem_of buffer.ptr)
    if leb max_dns_sockets (length s.dns_sockets)
        then pure false
        else if empty params.dns_ip
        then pure false
        else start

  -- The address that the request names, or `none`; the flag is `is_domain_name`.
  unfoldable pub raw_address : Mem → IpVersion → M (Option (List IpAddress) × Bool)
  unfolding message_address get_address
  raw_address m v = do
    old ← garbage pf
    let p = message_address 0
    pure (some (of_raw old v m (get_address p) (get_port m p) false ∷ []), false)

  unfoldable pub resolve_by_type :
      ServerParams → MemoryBuffer → AddrType → M (Option (List IpAddress) × Bool)
  unfolding raw_address reply_to_request
  resolve_by_type params buffer AddrType.ipv4 = raw_address (mem_of buffer.ptr) ipv4
  resolve_by_type params buffer AddrType.ipv6 = raw_address (mem_of buffer.ptr) ipv6
  resolve_by_type params buffer AddrType.domain_name = do
    started ← resolve_domain_name params buffer
    let refuse = reply_to_request (mem_of buffer.ptr) Reply.addr_type_not_supported
    if started then pure tt else refuse
    pure (none, started)
  resolve_by_type params buffer AddrType.invalid = do
    reply_to_request (mem_of buffer.ptr) Reply.addr_type_not_supported
    pure (none, false)
  resolve_by_type params buffer (AddrType.other b) = do
    reply_to_request (mem_of buffer.ptr) Reply.addr_type_not_supported
    pure (none, false)

  unfoldable pub resolve_address : ServerParams → MemoryBuffer → M (Option (List IpAddress) × Bool)
  unfolding resolve_by_type message_address
  resolve_address params buffer =
      resolve_by_type params buffer (get_type (mem_of buffer.ptr) (message_address 0))
