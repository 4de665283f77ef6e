-- ===== src/Session/Execute/Connects.antt =====
-- A CONNECT request, from the bytes of the client to the call of `connect`: `_check_command`,
-- `_resolve_address`, `_do_command` and `_connect_remote` of
-- src/server/src/sockspp/server/session.cxx, with `try_connect_next` of remote_socket.cxx.
use sockspp.Base.{
  ℕ, ◌+◌, ◌*◌, ◌<◌, ◌≡◌, refl, ap, ◌∙◌, arith, Mem, slice, true, false, some, List, [], ◌∷◌,
}
use sockspp.Core.Enums.{Command, addr_type_byte, to_command}
use sockspp.Core.S5.{get_size, get_port, get_address, get_command, message_address}
use sockspp.Core.S5.Layout.{IsRoutable}
use sockspp.Core.S5.Fields.{size_by_type, type_by_byte, port_by_size}
use sockspp.Core.MemoryBuffer.{MemoryBuffer, slice-copy}
use sockspp.Core.SocketInfo.{Sockaddr, IpVersion, ipv4, ipv6, address_size, family_of}
use sockspp.Core.IpAddress.{IpAddress, of_raw, get_netport}
use sockspp.Core.Event.{write_closed}
use sockspp.System.{Call, CtlOp, Target, Notice, Platform}
use sockspp.Server.Params.{ServerParams}
use sockspp.Session.{M, World, RemoteSocket, State, ok, ◌>>=◌}
use sockspp.Session.Calls.{open_socket, connect, garbage}
use sockspp.Session.Remote.{
  address_sockaddr, is_pending, new_remote, remote_error, try_connect_next, version_type,
}
use sockspp.Session.Remote.Replies.{version_routable}
use sockspp.Session.Udp.Header.{version_length}
use sockspp.Session.Request.{check_command, raw_address, resolve_address}
use sockspp.Session.Execute.{do_connect, do_command, run_command, tcp_kind}
use sockspp.Session.Events.{handle_request}

-- The destination that the request names: the bytes as they stand in the message.
abbrev pub requested : Mem → IpVersion → Sockaddr
requested m v = record {
  family = family_of v;
  addr = slice m 4 (address_size v);
  port = m (4 + address_size v) + 256 * m (5 + address_size v);
}

-- The socket is opened, set up, and asked to connect to it.
abbrev pub opening : World → IpVersion → List Call
opening w v = Call.open_socket (tcp_kind v) ∷ w.log

abbrev pub connecting : ServerParams → World → IpVersion → ℕ → Sockaddr → List Call
connecting params w v fd addr =
    Call.connect (some fd) addr
    ∷ Call.set_keepalive (some fd) params.remote_tcp_keepalive
    ∷ Call.set_nodelay (some fd) params.remote_tcp_nodelay
    ∷ Call.set_blocking (some fd) false
    ∷ Call.notify Notice.remote_socket_created
    ∷ opening w v

-- A step that returned, before what follows.
pub after :
    {A B : Type 0} (m : M A) (f : A → M B) (w : World) {a : A} {w1 : World}
    → m w ≡ ok (a, w1)
    → (m >>= f) w ≡ f a w1
after m f w e = rw (e, ◌>>=◌) refl

-- The address that `_resolve_address` makes, back as a socket address.
pub resolved_sockaddr :
    (old m : Mem) (v : IpVersion)
    → m 3 ≡ addr_type_byte (version_type v)
    → m (4 + address_size v) < 256
    → m (5 + address_size v) < 256
    → address_sockaddr (of_raw old v m 4 (get_port m 3) false) ≡ requested m v
unfolding address_sockaddr of_raw get_netport
resolved_sockaddr old m v t lo hi =
    let n = address_size v in
    let size : get_size m 3 ≡ n + 3 =
      size_by_type m 3 (version_routable v) t ∙ ap (λ k. k + 3) (version_length v (m 4)) in
    ground (arith, slice-copy old m 4 n, port_by_size m 3 n size)

module _ (pf : Platform) (params : ServerParams) (w : World) where
  -- The session with a remote socket that tries this one address.
  abbrev pub started : Mem → IpVersion → IpAddress → ℕ → World
  started old v a fd =
      let r : RemoteSocket = new_remote old (some fd) (some (a ∷ [])) in
      record {
        session = record (w.session) {
          remote_socket = some (record r { connecting_idx = 0 });
          state = State.connecting_remote;
        };
        log =
            Call.set_event CtlOp.add (some fd) Target.remote write_closed
            ∷ connecting params w v fd (address_sockaddr a);
      }

  connect_one :
      (v : IpVersion) (a : IpAddress) (fd : ℕ)
      → pf.os.opened (opening w v) ≡ some fd
      → is_pending (pf.os.result (connecting params w v fd (address_sockaddr a))) ≡ true
      → do_connect pf params v (a ∷ []) w
        ≡ ok (
          true,
          started (pf.os.garbage (Call.notify Notice.remote_socket_created ∷ opening w v)) v a fd,
        )
  unfolding do_connect open_socket garbage try_connect_next connect new_remote remote_error
  connect_one v a fd opened pending = ground arith

module _ (pf : Platform) (params : ServerParams) (w : World) (m : Mem) (b : MemoryBuffer)
    (filled : b.ptr ≡ some m) where
  abbrev pub commanded : World
  commanded = record w { session = record (w.session) { command = Command.connect } }

  abbrev pub target : IpVersion → IpAddress
  target v = of_raw (pf.os.garbage w.log) v m 4 (get_port m 3) false

  resolves :
      (v : IpVersion)
      → m 3 ≡ addr_type_byte (version_type v)
      → resolve_address pf params b commanded ≡ ok ((some (target v ∷ []), false), commanded)
  unfolding resolve_address message_address get_address raw_address garbage
  resolves ipv4 t = rw (filled, type_by_byte m 3 IsRoutable.ipv4 t) refl
  resolves ipv6 t = rw (filled, type_by_byte m 3 IsRoutable.ipv6 t) refl

  checks : m 1 ≡ 1 → check_command pf b w ≡ ok (true, commanded)
  unfolding check_command get_command to_command
  checks c = ground arith

  -- The session once `connect` was called.
  abbrev pub under_way : IpVersion → ℕ → World
  under_way v fd =
      let old = pf.os.garbage (Call.notify Notice.remote_socket_created ∷ opening w v) in
      started pf params commanded old v (target v) fd

  pub request_starts :
      (v : IpVersion) (fd : ℕ)
      → m 1 ≡ 1
      → m 3 ≡ addr_type_byte (version_type v)
      → m (4 + address_size v) < 256
      → m (5 + address_size v) < 256
      → pf.os.opened (opening w v) ≡ some fd
      → is_pending (pf.os.result (connecting params w v fd (requested m v))) ≡ true
      → handle_request pf params b w ≡ ok (true, under_way v fd)
  unfolding handle_request do_command run_command of_raw
  request_starts v fd c t lo hi opened pending =
      let addr = resolved_sockaddr (pf.os.garbage w.log) m v t lo hi in
      let step = connect_one pf params commanded v (target v) fd opened (rw addr pending) in
      after (check_command pf b) _ w (checks c)
      ∙ after (resolve_address pf params b) _ commanded (resolves v t)
      ∙ step

  -- A CONNECT request for an IPv4 or IPv6 address, when a socket can be opened and the `connect`
  -- does not fail at once: the session opens a socket of that kind and connects it to the address
  -- and the port that stand in the request, asks for its WRITE event, and waits for it.
  pub request_connects :
      (v : IpVersion) (fd : ℕ)
      → m 1 ≡ 1
      → m 3 ≡ addr_type_byte (version_type v)
      → m (4 + address_size v) < 256
      → m (5 + address_size v) < 256
      → pf.os.opened (opening w v) ≡ some fd
      → is_pending (pf.os.result (connecting params w v fd (requested m v))) ≡ true
      → (w' : World) × (handle_request pf params b w ≡ ok (true, w'))
        × (w'.session.state ≡ State.connecting_remote)
        × (w'.log
            ≡ Call.set_event CtlOp.add (some fd) Target.remote write_closed
              ∷ connecting params w v fd (requested m v))
  request_connects v fd c t lo hi opened pending =
      let addr = resolved_sockaddr (pf.os.garbage w.log) m v t lo hi in
      (under_way v fd, request_starts v fd c t lo hi opened pending, refl, rw addr refl)
