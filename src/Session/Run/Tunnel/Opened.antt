-- ===== src/Session/Run/Tunnel/Opened.antt =====
-- A CONNECT session from the client's first bytes to the relayed ones: the handlers of
-- src/server/src/sockspp/server/session.cxx and remote_socket.cxx, one after the other.
use sockspp.Base.{
  ℕ, ◌+◌, ◌*◌, ◌/◌, ◌%◌, ◌<◌, ◌≡◌, refl, ap, ◌∙◌, arith, Mem, of_bytes, slice, length, Bool, true,
  false, none, some, List, [], ◌∷◌, ◌++◌,
}
use sockspp.Core.Enums.{
  AuthMethod, Reply, reply_byte, to_auth_method, auth_method_byte, same_method, addr_type_byte,
  to_addr_type,
}
use sockspp.Core.MemoryBuffer.{MemoryBuffer}
use sockspp.Core.SocketInfo.{Sockaddr, ipv4, from}
use sockspp.Core.Event.{only_read, Flags}
use sockspp.System.{Call, Platform, IoResult, Notice}
use sockspp.Server.Params.{ServerParams, get_auth_method}
use sockspp.Session.{World, RemoteSocket, State, ok}
use sockspp.Session.Calls.{recv, send, garbage, received_buffer, to_bool, unknown_info}
use sockspp.Session.Remote.{get_remote}
use sockspp.Session.Udp.{buffer_size}
use sockspp.Session.Client.{send_auth}
use sockspp.Session.Auth.{check_version, request_auth, select_method}
use sockspp.Session.Remote.{is_pending, new_remote, version_type}
use sockspp.Session.Remote.Replies.{could_connect_world, connected_world, named_world}
use sockspp.Session.Client.Wire.{wire_address}
use sockspp.Core.IpAddress.{IpAddress, of_raw}
use sockspp.Core.S5.{get_port, get_size}
use sockspp.Session.Execute.{tcp_kind}
use sockspp.Session.Execute.Connects.{requested, opening, request_starts, under_way, target}
use sockspp.Session.Events.{
  process_client, client_in_state, process_client_event, handle_greeting, process_remote_event,
  remote_writable,
}
use sockspp.Session.Run.{client, remote, process_event}
use sockspp.Session.Run.Tunnel.{receipts, IsCooperative, IsTunnel}

abbrev pub only_write : Flags
only_write = record { read = false; write = true; closed = false; error = false }

-- The client offers to go without authentication.
abbrev pub greeting : List ℕ
greeting = 5 ∷ 1 ∷ 0 ∷ []

module _ (pf : Platform) (params : ServerParams) (script : ℕ → List ℕ) (k : ℕ) (peer : Sockaddr)
    (good : IsCooperative pf script k peer) (w : World)
    (open_to_all : get_auth_method params ≡ AuthMethod.no_auth) where
  -- After the greeting and its answer.
  abbrev pub greeted : World
  greeted = record {
    session = record (w.session) { state = State.authenticated };
    log =
        Call.send w.session.client_socket (5 ∷ 0 ∷ []) ∷ Call.recv w.session.client_socket ∷ w.log;
  }

  pub greets :
      w.session.state ≡ State.accepted
      → script (receipts w.log) ≡ greeting
      → process_event pf params (client only_read) w ≡ ok (true, greeted)
  unfolding process_event process_client_event process_client client_in_state recv garbage
      handle_greeting check_version request_auth select_method send_auth send to_auth_method
      auth_method_byte same_method
  greets st first =
      let fd = w.session.client_socket in
      let came = good.delivers fd w.log in
      let answered = good.sends fd (5 ∷ 0 ∷ []) (Call.recv fd ∷ w.log) in
      rw (came, first, st, open_to_all) (rw answered refl)

-- A send of some bytes counts as done.
taken_some : (b : ℕ) (bs : List ℕ) → to_bool (IoResult.count (length (b ∷ bs))) ≡ true
taken_some b bs = ground arith

-- A CONNECT request for an IPv4 address and a port; the third byte is reserved.
abbrev pub connect_request : ℕ → List ℕ → ℕ → ℕ → List ℕ
connect_request reserved ip high low = 5 ∷ 1 ∷ reserved ∷ 1 ∷ (ip ++ high ∷ low ∷ [])

module _ (pf : Platform) (params : ServerParams) (script : ℕ → List ℕ) (k : ℕ) (peer : Sockaddr)
    (good : IsCooperative pf script k peer) (w : World) (reserved a b c d high low : ℕ)
    (high_fits : high < 256) (low_fits : low < 256) (st : w.session.state ≡ State.authenticated)
    (second : script (receipts w.log)
      ≡ connect_request reserved (a ∷ b ∷ c ∷ d ∷ []) high low) where
  abbrev pub heard : World
  heard = record w { log = Call.recv w.session.client_socket ∷ w.log }

  abbrev pub message : Mem
  message = of_bytes (connect_request reserved (a ∷ b ∷ c ∷ d ∷ []) high low) (pf.os.garbage w.log)

  abbrev pub received : MemoryBuffer
  received =
      received_buffer (pf.os.garbage w.log) (connect_request reserved (a ∷ b ∷ c ∷ d ∷ []) high low)
        buffer_size

  abbrev pub asked : World
  asked = under_way pf params heard message received refl ipv4 k

  pub asks : process_event pf params (client only_read) w ≡ ok (true, asked)
  unfolding process_event process_client_event process_client client_in_state recv garbage
      addr_type_byte slice
  asks =
      let fd = w.session.client_socket in
      let came = good.delivers fd w.log in
      let pending = ap is_pending (
        good.connects (some k) (requested message ipv4) (
          Call.set_keepalive (some k) params.remote_tcp_keepalive
          ∷ Call.set_nodelay (some k) params.remote_tcp_nodelay
          ∷ Call.set_blocking (some k) false
          ∷ Call.notify Notice.remote_socket_created
          ∷ opening heard ipv4)) in
      let starts =
        request_starts pf params heard message received refl ipv4 k refl refl high_fits low_fits
          (good.opens (tcp_kind ipv4) heard.log) pending in
      let dispatch = ap (λ (x : State). client_in_state pf params x received none heard) st in
      rw (came, second) (dispatch ∙ starts)

  -- The one address of the request, and the remote socket that tries it.
  abbrev pub address : IpAddress
  address = target pf params heard message received refl ipv4

  abbrev pub trying : RemoteSocket
  trying =
      let old = pf.os.garbage (Call.notify Notice.remote_socket_created ∷ opening heard ipv4) in
      record (new_remote old (some k) (some (address ∷ []))) { connecting_idx = 0 }

  port : address.port ≡ low + 256 * high
  unfolding of_raw get_port get_size to_addr_type
  port = omega arith

  pub small : address.port < 65536
  small = omega (arith, port)

  abbrev pub joined : World
  joined = connected_world pf asked trying address refl refl small peer

  abbrev pub named : World
  named = named_world pf asked trying address refl refl small peer

  -- The reply after its first byte.
  abbrev pub answer : List ℕ
  answer =
      reply_byte Reply.success
      ∷ pf.os.garbage named.log 2
      ∷ wire_address (version_type ipv4) address.storage 0 address.port

  pub connects : process_event pf params (remote only_write) asked ≡ ok (true, joined)
  unfolding process_event process_remote_event remote_writable get_remote new_remote of_raw
  connects =
      let step =
        could_connect_world pf asked trying address refl refl small (address ∷ []) peer refl refl
          (good.names (some k) asked.log) in
      let taken = ap to_bool (good.sends w.session.client_socket (5 ∷ answer) named.log) in
      step ∙ ap (λ (sent : Bool). ok (sent, joined)) (taken ∙ taken_some 5 answer)

  pub answer_bytes : answer ≡ 0 ∷ pf.os.garbage named.log 2 ∷ 1 ∷ a ∷ b ∷ c ∷ d ∷ high ∷ low ∷ []
  unfolding of_raw slice addr_type_byte reply_byte
  answer_bytes =
      let q1 : address.port / 256 ≡ high = omega (arith, port) in
      let q2 : address.port % 256 ≡ low = omega (arith, port) in rw (q1, q2) refl

  pub joined-IsTunnel :
      w.session.client_buffer.size ≡ 0
      → w.session.remote_buffer.size ≡ 0
      → (r : RemoteSocket) × (r.fd ≡ some k) × IsTunnel joined r
  unfolding new_remote
  joined-IsTunnel quiet quiet' = (
    record trying {
      is_connected = true;
      addresses = none;
      remote_info =
          from (unknown_info (pf.os.garbage (Call.get_peer_name (some k) ∷ asked.log))) peer;
    },
    refl,
    record { relays = refl; owns = refl; none_for_client = quiet; none_for_remote = quiet' },
  )
