-- ===== src/Session/Run/Tunnel/Whole.antt =====
-- A CONNECT session as a whole: what src/server/src/sockspp/server/session.cxx does for a client
-- that greets, asks for a connection and then exchanges messages with the remote host.
use sockspp.Base.{
  ℕ, suc, ◌+◌, ◌*◌, ◌<◌, ◌≡◌, refl, ap, ◌∙◌, length, slice, true, false, some, List, [], ◌∷◌, ◌++◌,
}
use sockspp.Core.Enums.{AuthMethod}
use sockspp.Core.IpAddress.{of_raw}
use sockspp.Core.SocketInfo.{Sockaddr, Family, ipv4}
use sockspp.Core.Event.{only_read, read_closed, write_closed}
use sockspp.System.{Call, Platform, Fd, Notice, CtlOp, Target, SocketKind}
use sockspp.Server.Params.{ServerParams, get_auth_method}
use sockspp.Session.{World, State, ok}
use sockspp.Session.Relay.{Side}
use sockspp.Session.Execute.Connects.{requested, resolved_sockaddr}
use sockspp.Session.Remote.{new_remote}
use sockspp.Core.Enums.{addr_type_byte}
use sockspp.Session.Run.{client, remote, run}
use sockspp.Session.Run.Tunnel.{
  receipts, IsCooperative, arrivals, all_passed, step_run, tunnel_passes,
}
use sockspp.Session.Run.Tunnel.Opened.{
  only_write, greeting, connect_request, greeted, greets, asked, asks, joined, connects, named,
  answer, answer_bytes, joined-IsTunnel, message,
}

-- The host and the port of a request, as they stand in memory.
abbrev pub destination : List ℕ → ℕ → ℕ → Sockaddr
destination ip high low = record { family = Family.inet; addr = ip; port = high + 256 * low }

-- The reply "success", with the byte that the reserved place held.
abbrev pub success_reply : ℕ → List ℕ → ℕ → ℕ → List ℕ
success_reply spare ip high low = 5 ∷ 0 ∷ spare ∷ 1 ∷ (ip ++ high ∷ low ∷ [])

-- The calls from the request to the reply, newest first, for the client's socket and the remote one.
abbrev pub answered : ServerParams → Fd → Fd → Sockaddr → List ℕ → List Call → List Call
answered params client_fd remote_fd addr reply log =
    Call.send client_fd reply
    ∷ Call.notify Notice.remote_connected
    ∷ Call.set_event CtlOp.modify remote_fd Target.remote read_closed
    ∷ Call.get_peer_name remote_fd
    ∷ Call.set_event CtlOp.add remote_fd Target.remote write_closed
    ∷ Call.connect remote_fd addr
    ∷ Call.set_keepalive remote_fd params.remote_tcp_keepalive
    ∷ Call.set_nodelay remote_fd params.remote_tcp_nodelay
    ∷ Call.set_blocking remote_fd false
    ∷ Call.notify Notice.remote_socket_created
    ∷ Call.open_socket SocketKind.tcp
    ∷ log

-- Before them, the greeting and its answer.
abbrev pub set_up : ServerParams → Fd → Fd → Sockaddr → List ℕ → List Call → List Call
set_up params client_fd remote_fd addr reply log =
    answered params client_fd remote_fd addr reply
      (Call.recv client_fd ∷ Call.send client_fd (5 ∷ 0 ∷ []) ∷ Call.recv client_fd ∷ log)

module _ (pf : Platform) (params : ServerParams) (script : ℕ → List ℕ) (k : ℕ) (peer : Sockaddr)
    (good : IsCooperative pf script k peer) (full : (n : ℕ) → 0 < length (script n)) where
  joined_log :
      (w : World) (reserved a b c d high low : ℕ) (hi : high < 256) (lo : low < 256)
      (st : w.session.state ≡ State.authenticated)
      (second : script (receipts w.log) ≡ connect_request reserved (a ∷ b ∷ c ∷ d ∷ []) high low)
      → let ip = a ∷ b ∷ c ∷ d ∷ [] in
        let fd = w.session.client_socket in
        let w1 = named pf params script k peer good w reserved a b c d high low hi lo st second in
        (joined pf params script k peer good w reserved a b c d high low hi lo st second).log
        ≡ answered params fd
            (some k)
            (destination ip high low)
            (success_reply (pf.os.garbage w1.log 2) ip high low)
            (Call.recv fd ∷ w.log)
  unfolding new_remote slice addr_type_byte of_raw
  joined_log w reserved a b c d high low hi lo st second =
      let m = message pf params script k peer good w reserved a b c d high low hi lo st second in
      let log1 : List Call = Call.recv w.session.client_socket ∷ w.log in
      let addr = resolved_sockaddr (pf.os.garbage log1) m ipv4 refl hi lo in
      let bytes =
        answer_bytes pf params script k peer good w reserved a b c d high low hi lo st second in
      let reply = answer pf params script k peer good w reserved a b c d high low hi lo st second in
      let fd = w.session.client_socket in
      ap (λ (x : Sockaddr). answered params fd (some k) x (5 ∷ reply) log1) addr
      ∙ ap (λ (bs : List ℕ). answered params fd (some k) (requested m ipv4) (5 ∷ bs) log1) bytes

  -- What a session that waits for requests does with one and what follows.
  pub serves_request :
      (w : World) (reserved a b c d high low : ℕ) (sides : List Side)
      → w.session.state ≡ State.authenticated
      → w.session.client_buffer.size ≡ 0
      → w.session.remote_buffer.size ≡ 0
      → high < 256
      → low < 256
      → script (receipts w.log) ≡ connect_request reserved (a ∷ b ∷ c ∷ d ∷ []) high low
      → let ip = a ∷ b ∷ c ∷ d ∷ [] in
        let fd = w.session.client_socket in
        (w' : World) × (spare : ℕ) × (run pf params
            (client only_read ∷ remote only_write ∷ arrivals sides)
            w
          ≡ ok (true, w'))
        × (w'.session.state ≡ State.connected)
        × (w'.log
            ≡ all_passed script fd (some k) sides (
                answered params fd
                  (some k)
                  (destination ip high low)
                  (success_reply spare ip high low)
                  (Call.recv fd ∷ w.log)))
  serves_request w reserved a b c d high low sides st quiet quiet' hi lo second =
      let w2 = asked pf params script k peer good w reserved a b c d high low hi lo st second in
      let w3 = joined pf params script k peer good w reserved a b c d high low hi lo st second in
      let asked_w = asks pf params script k peer good w reserved a b c d high low hi lo st second in
      let joined_w =
        connects pf params script k peer good w reserved a b c d high low hi lo st second in
      let (r, on_k, tunnel) =
        joined-IsTunnel pf params script k peer good w reserved a b c d high low hi lo st second
          quiet quiet' in
      (
        record w3 { log = all_passed script w.session.client_socket r.fd sides w3.log },
        pf.os.garbage
            (named pf params script k peer good w reserved a b c d high low hi lo st second).log 2,
        step_run pf params script k peer good full (client only_read)
              (remote only_write ∷ arrivals sides) w w2 asked_w
            ∙ step_run pf params script k peer good full (remote only_write) (arrivals sides) w2 w3
                joined_w
            ∙ tunnel_passes pf params script k peer good full sides w3 r tunnel,
        refl,
        ap (λ (fd : Fd). all_passed script w.session.client_socket fd sides w3.log) on_k
            ∙ ap (all_passed script w.session.client_socket (some k) sides)
                (joined_log w reserved a b c d high low hi lo st second),
      )

  -- A server without a user name and a password, and a client that greets, then asks for a
  -- connection to an IPv4 address and port, on a system where sockets can be opened, the connection
  -- comes about and every send takes all its bytes: the client is let in, the socket is connected to
  -- that address, the reply "success" names it, and from then on each message is sent on to the
  -- other side, whole and in order, in whatever order the two sides send. The calls are these and no
  -- others.
  pub connect_session :
      (w : World) (reserved a b c d high low : ℕ) (sides : List Side)
      → get_auth_method params ≡ AuthMethod.no_auth
      → w.session.state ≡ State.accepted
      → w.session.client_buffer.size ≡ 0
      → w.session.remote_buffer.size ≡ 0
      → high < 256
      → low < 256
      → script (receipts w.log) ≡ greeting
      → script (suc (receipts w.log)) ≡ connect_request reserved (a ∷ b ∷ c ∷ d ∷ []) high low
      → let ip = a ∷ b ∷ c ∷ d ∷ [] in
        let fd = w.session.client_socket in
        (w' : World) × (spare : ℕ) × (run pf params
            (client only_read ∷ client only_read ∷ remote only_write ∷ arrivals sides)
            w
          ≡ ok (true, w'))
        × (w'.session.state ≡ State.connected)
        × (w'.log
            ≡ all_passed script fd (some k) sides (
                set_up params fd
                  (some k)
                  (destination ip high low)
                  (success_reply spare ip high low)
                  w.log))
  connect_session w reserved a b c d high low sides all st quiet quiet' hi lo first second =
      let w1 = greeted pf params script k peer good w all in
      let (w', spare, runs, relays, logged) =
        serves_request w1 reserved a b c d high low sides refl quiet quiet' hi lo second in
      let rest = client only_read ∷ remote only_write ∷ arrivals sides in
      (
        w',
        spare,
        step_run pf params script k peer good full (client only_read) rest w w1
              (greets pf params script k peer good w all st first)
            ∙ runs,
        relays,
        logged,
      )
