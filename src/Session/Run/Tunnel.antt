-- ===== src/Session/Run/Tunnel.antt =====
-- A TCP session as the two ends see it, on a system where nothing goes wrong: the handlers of
-- src/server/src/sockspp/server/session.cxx from the greeting to the relayed bytes.
pub mod Opened
pub mod Credentials
pub mod LogIn
pub mod Whole
use sockspp.Base.{
  ℕ, suc, ◌<◌, ◌≡◌, refl, ap, ◌∙◌, arith, Mem, slice-of_bytes, length, true, false, ◌==◌, some,
  List, [], ◌∷◌,
}
use sockspp.Core.MemoryBuffer.{contents}
use sockspp.Core.SocketInfo.{Sockaddr}
use sockspp.Core.Event.{only_read}
use sockspp.System.{Call, Platform, SocketKind, IoResult, Received, Errno, Fd}
use sockspp.Server.Params.{ServerParams}
use sockspp.Session.{World, RemoteSocket, State, ok, ◌>>=◌}
use sockspp.Session.Calls.{recv, send, garbage, received_buffer}
use sockspp.Session.Udp.{buffer_size}
use sockspp.Session.Remote.{get_remote}
use sockspp.Session.Relay.{Side, to_client, to_remote, scheduled, session_socket_send, is_whole}
use sockspp.Session.Relay.Steps.{socket_of, send_new, sent_result}
use sockspp.Session.Events.{
  process_client, client_in_state, process_client_event, process_remote_event, remote_receive,
  receive_in_state, remote_in_state,
}
use sockspp.Session.Run.{Event, client, remote, process_event, run}

-- How often the log receives.
abbrev pub receipts : List Call → ℕ
receipts [] = 0
receipts (Call.recv fd ∷ log) = suc (receipts log)
receipts (_ ∷ log) = receipts log

-- A system on which each send takes all its bytes, each TCP connection comes about after a while,
-- and each receive delivers the next message of a script.
pub record IsCooperative (pf : Platform) (script : ℕ → List ℕ) (k : ℕ) (peer : Sockaddr)
    : Type 0 where
  pub sends :
      (fd : Fd) (bytes : List ℕ) (log : List Call)
      → pf.os.result (Call.send fd bytes ∷ log) ≡ IoResult.count (length bytes)
  pub connects :
      (fd : Fd) (addr : Sockaddr) (log : List Call)
      → pf.os.result (Call.connect fd addr ∷ log) ≡ IoResult.failed Errno.in_progress
  pub opens :
      (kind : SocketKind) (log : List Call) → pf.os.opened (Call.open_socket kind ∷ log) ≡ some k
  pub names : (fd : Fd) (log : List Call) → pf.os.name (Call.get_peer_name fd ∷ log) ≡ some peer
  pub delivers :
      (fd : Fd) (log : List Call)
      → pf.os.received (Call.recv fd ∷ log) ≡ Received.got (script (receipts log)) peer

-- A session that relays, with nothing that waits.
pub record IsTunnel (w : World) (r : RemoteSocket) : Type 0 where
  pub relays : w.session.state ≡ State.connected
  pub owns : w.session.remote_socket ≡ some r
  pub none_for_client : w.session.client_buffer.size ≡ 0
  pub none_for_remote : w.session.remote_buffer.size ≡ 0

-- The sender's event: the bytes for the client come from the remote host, and the reverse.
abbrev pub arrival : Side → Event
arrival to_client = remote only_read
arrival to_remote = client only_read

abbrev pub arrivals : List Side → List Event
arrivals [] = []
arrivals (side ∷ sides) = arrival side ∷ arrivals sides

module _ (script : ℕ → List ℕ) (client_fd remote_fd : Fd) where
  -- The next message is received on one side and sent to the other.
  abbrev pub passed : Side → List Call → List Call
  passed to_client log = Call.send client_fd (script (receipts log)) ∷ Call.recv remote_fd ∷ log
  passed to_remote log = Call.send remote_fd (script (receipts log)) ∷ Call.recv client_fd ∷ log

  abbrev pub all_passed : List Side → List Call → List Call
  all_passed [] log = log
  all_passed (side ∷ sides) log = all_passed sides (passed side log)

module _ (pf : Platform) (params : ServerParams) (script : ℕ → List ℕ) (k : ℕ) (peer : Sockaddr)
    (good : IsCooperative pf script k peer) (full : (n : ℕ) → 0 < length (script n)) where
  contents_received :
      (old : Mem) (bytes : List ℕ) → contents (received_buffer old bytes buffer_size) ≡ bytes
  unfolding contents
  contents_received old bytes = slice-of_bytes bytes old

  send_whole :
      (side : Side) (r : RemoteSocket) (old : Mem) (bytes : List ℕ) (w : World)
      → w.session.remote_socket ≡ some r
      → (scheduled side w.session).size ≡ 0
      → session_socket_send pf side (some (received_buffer old bytes buffer_size)) w
        ≡ ok (true, record w { log = Call.send (socket_of side w.session r) bytes ∷ w.log })
  send_whole side r old bytes w has quiet =
      let b = received_buffer old bytes buffer_size in
      let fd = socket_of side w.session r in
      let held = contents_received old bytes in
      let taken = good.sends fd bytes w.log in
      let all : (length bytes == length bytes) ≡ true = ground arith in
      let result : sent_result pf side w r b ≡ IoResult.count (length bytes) =
        ap (λ (bs : List ℕ). pf.os.result (Call.send fd bs ∷ w.log)) held ∙ taken in
      let whole : is_whole (sent_result pf side w r b) b.size ≡ true =
        ap (λ (res : IoResult). is_whole res (length bytes)) result ∙ all in
      send_new pf w r has b side quiet ∙ rw whole (rw held refl)

  client_arrives :
      (w : World) (r : RemoteSocket)
      → IsTunnel w r
      → process_event pf params (arrival to_remote) w
        ≡ ok (true, record w { log = passed script w.session.client_socket r.fd to_remote w.log })
  unfolding process_event process_client_event process_client client_in_state recv garbage
      get_remote
  client_arrives w r t =
      let log1 : List Call = Call.recv w.session.client_socket ∷ w.log in
      let bytes = script (receipts w.log) in
      let old = pf.os.garbage w.log in
      let came = good.delivers w.session.client_socket w.log in
      let some_bytes : (length bytes == 0) ≡ false = ground (arith, full (receipts w.log)) in
      let sent =
        send_whole to_remote r old bytes (record w { log = log1 }) t.owns t.none_for_remote in
      ground arith

  remote_arrives :
      (w : World) (r : RemoteSocket)
      → IsTunnel w r
      → process_event pf params (arrival to_client) w
        ≡ ok (true, record w { log = passed script w.session.client_socket r.fd to_client w.log })
  unfolding process_event process_remote_event remote_receive remote_in_state recv garbage
      get_remote receive_in_state
  remote_arrives w r t =
      let log1 : List Call = Call.recv r.fd ∷ w.log in
      let bytes = script (receipts w.log) in
      let old = pf.os.garbage w.log in
      let came = good.delivers r.fd w.log in
      let some_bytes : (length bytes == 0) ≡ false = ground (arith, full (receipts w.log)) in
      let sent =
        send_whole to_client r old bytes (record w { log = log1 }) t.owns t.none_for_client in
      ground arith

  arrives :
      (side : Side) (w : World) (r : RemoteSocket)
      → IsTunnel w r
      → process_event pf params (arrival side) w
        ≡ ok (true, record w { log = passed script w.session.client_socket r.fd side w.log })
  arrives to_client w r t = remote_arrives w r t
  arrives to_remote w r t = client_arrives w r t

  pub step_run :
      (e : Event) (es : List Event) (w w1 : World)
      → process_event pf params e w ≡ ok (true, w1)
      → run pf params (e ∷ es) w ≡ run pf params es w1
  unfolding run
  step_run e es w w1 same = rw (same, ◌>>=◌) refl

  pub last_run :
      (e : Event) (es : List Event) (w w1 : World)
      → process_event pf params e w ≡ ok (false, w1)
      → run pf params (e ∷ es) w ≡ ok (false, w1)
  unfolding run
  last_run e es w w1 same = rw (same, ◌>>=◌) refl

  -- A connected session with nothing that waits, on a system that takes every send whole: whatever
  -- the order in which messages arrive on its two sides, each is sent on to the other side, whole
  -- and at once, and nothing else happens.
  pub tunnel_passes :
      (sides : List Side) (w : World) (r : RemoteSocket)
      → IsTunnel w r
      → run pf params (arrivals sides) w
        ≡ ok (true, record w { log = all_passed script w.session.client_socket r.fd sides w.log })
  unfolding run
  tunnel_passes [] w r t = refl
  tunnel_passes (side ∷ sides) w r t =
      let fd = w.session.client_socket in
      let w1 : World = record w { log = passed script fd r.fd side w.log } in
      let t1 : IsTunnel w1 r = record {
        relays = t.relays;
        owns = t.owns;
        none_for_client = t.none_for_client;
        none_for_remote = t.none_for_remote;
      } in
      step_run (arrival side) (arrivals sides) w w1 (arrives side w r t)
      ∙ tunnel_passes sides w1 r t1
