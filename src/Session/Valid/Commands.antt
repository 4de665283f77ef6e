-- ===== src/Session/Valid/Commands.antt =====
-- Commands keep a session valid: `_do_command`, `_connect_remote` and `_associate` of
-- src/server/src/sockspp/server/session.cxx.
use sockspp.Base.{
  ℕ, ◌<◌, ◌≤◌, ◌≡◌, refl, arith, length, true, false, Option, none, some, List, [], ◌∷◌, ◌-◌,
}
use sockspp.Core.Enums.{Command}
use sockspp.Core.SocketInfo.{SocketInfo, IpVersion}
use sockspp.Core.IpAddress.{IpAddress}
use sockspp.Server.Params.{ServerParams}
use sockspp.System.{Call, Notice, Platform, Fd}
use sockspp.Session.{World, State, RemoteSocket}
use sockspp.Session.Calls.{
  send, garbage, open_socket, bind, bound_name, unknown_info, close, add_event, set_blocking,
}
use sockspp.Session.Auth.{set_state, size_mod}
use sockspp.Session.Client.{send_reply}
use sockspp.Session.Remote.{get_remote, put_remote, new_remote, remote_error}
use sockspp.Session.Udp.{put_udp}
use sockspp.Session.Execute.{
  connect_remote, open_relay, associate_bound, associate, do_connect, do_associate, run_command,
  do_command, tcp_kind,
}
use sockspp.Session.Request.{udp_kind}
use sockspp.Session.Valid.{IsValid, Keeps, Stays, Waits, UdpFits}
use sockspp.Session.Valid.Handshake.{is_lone}
use sockspp.Session.Valid.Remote.{attempt_next_Stays}

module _ (pf : Platform) (params : ServerParams) where
  first_attempt_Stays :
      (fd : Fd) (info : SocketInfo) (as' : List IpAddress) (w : World)
      → 0 < length as'
      → w.session.state ≡ State.connecting_remote
      → w.session.remote_socket
        ≡ some (record {
          fd = fd;
          remote_info = info;
          addresses = some as';
          connecting_idx = size_mod - 1;
          is_connected = false;
        })
      → UdpFits State.connecting_remote w.session.udp_socket
      → length w.session.dns_sockets ≤ 1
      → Waits w.session.client_buffer
      → Waits w.session.remote_buffer
      → Stays (remote_error pf w)
  unfolding remote_error get_remote
  first_attempt_Stays fd info as' w ne st has u q cw rw' =
      let r : RemoteSocket = record {
        fd = fd;
        remote_info = info;
        addresses = some as';
        connecting_idx = size_mod - 1;
        is_connected = false;
      } in
      let k = attempt_next_Stays pf r as' w has refl st ne refl u q cw rw' in ground arith

  connect_remote-Stays :
      (fd : Fd) (a : IpAddress) (rest : List IpAddress) (w : World)
      → is_lone w.session.state ≡ true
      → IsValid w.session
      → Stays (connect_remote pf params fd (a ∷ rest) w)
  unfolding connect_remote garbage put_remote new_remote set_blocking set_state add_event
  connect_remote-Stays fd a rest w h v =
      let as' : List IpAddress = a ∷ rest in
      let info = unknown_info (pf.os.garbage w.log) in
      let r = new_remote (pf.os.garbage w.log) fd (some as') in
      let w1 : World = record {
        session = record (w.session) { remote_socket = some r; state = State.connecting_remote };
        log =
            Call.set_keepalive fd params.remote_tcp_keepalive
            ∷ Call.set_nodelay fd params.remote_tcp_nodelay
            ∷ Call.set_blocking fd false
            ∷ w.log;
      } in
      let k =
        first_attempt_Stays fd info as' w1 (omega arith) refl refl (ground arith) (ground arith)
          v.client_waits v.remote_waits in
      ground arith

  associate-Keeps :
      (cl rm : Fd) (w : World)
      → is_lone w.session.state ≡ true
      → IsValid w.session
      → Keeps false (associate pf cl rm w)
  unfolding associate associate_bound garbage put_remote new_remote set_blocking set_state
      get_remote add_event bind bound_name put_udp open_relay send_reply send
  associate-Keeps cl rm w h v = ground arith

  do_connect-Keeps :
      (v : IpVersion) (a : IpAddress) (rest : List IpAddress) (w : World)
      → is_lone w.session.state ≡ true
      → IsValid w.session
      → Keeps false (do_connect pf params v (a ∷ rest) w)
  unfolding do_connect open_socket
  do_connect-Keeps v a rest w h ok_s =
      let log1 : List Call = Call.open_socket (tcp_kind v) ∷ w.log in
      let w1 : World = record w { log = Call.notify Notice.remote_socket_created ∷ log1 } in
      let k = λ (fd : ℕ). connect_remote-Stays (some fd) a rest w1 h ok_s in
      elim (pf.os.opened log1)
          as (λ o. pf.os.opened log1 ≡ o → Keeps false (do_connect pf params v (a ∷ rest) w)) [
            | none ↦ λ e. ground arith
            | some fd ↦ λ e. let k1 = k fd in ground arith
          ]
        refl

  do_associate-Keeps :
      (v : IpVersion) (w : World)
      → is_lone w.session.state ≡ true
      → IsValid w.session
      → Keeps false (do_associate pf v w)
  unfolding do_associate open_socket close
  do_associate-Keeps v w h ok_s =
      let log1 : List Call = Call.open_socket (udp_kind v) ∷ w.log in
      let log2 : List Call = Call.open_socket (udp_kind v) ∷ log1 in
      let w1 : World = record w { log = Call.notify Notice.remote_socket_created ∷ log2 } in
      let k = λ (cl rm : ℕ). associate-Keeps (some cl) (some rm) w1 h ok_s in
      elim (pf.os.opened log1) as (λ o. pf.os.opened log1 ≡ o → Keeps false (do_associate pf v w)) [
        | none ↦ λ e. ground arith
        | some cl ↦ λ e.
            elim (pf.os.opened log2)
                as (λ o. pf.os.opened log2 ≡ o → Keeps false (do_associate pf v w)) [
                  | none ↦ λ e'. ground arith
                  | some rm ↦ λ e'. let k1 = k cl rm in ground arith
                ]
              refl
      ]
        refl

  run_command-Keeps :
      (c : Command) (v : IpVersion) (a : IpAddress) (rest : List IpAddress) (w : World)
      → is_lone w.session.state ≡ true
      → IsValid w.session
      → Keeps false (run_command pf params c v (a ∷ rest) w)
  unfolding run_command
  run_command-Keeps Command.connect v a rest w h ok_s = do_connect-Keeps v a rest w h ok_s
  run_command-Keeps Command.udp_associate v a rest w h ok_s = do_associate-Keeps v w h ok_s
  run_command-Keeps Command.bind v a rest w h ok_s = ok_s
  run_command-Keeps Command.invalid v a rest w h ok_s = ok_s
  run_command-Keeps (Command.other b) v a rest w h ok_s = ok_s

  pub do_command-Keeps :
      (addresses : Option (List IpAddress)) (w : World)
      → is_lone w.session.state ≡ true
      → IsValid w.session
      → Keeps false (do_command pf params addresses w)
  unfolding do_command
  do_command-Keeps none w h v = tt
  do_command-Keeps (some []) w h v = tt
  do_command-Keeps (some (a ∷ rest)) w h v = run_command-Keeps _ _ a rest w h v
