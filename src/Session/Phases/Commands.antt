-- ===== src/Session/Phases/Commands.antt =====
-- Where requests and the answers to DNS queries lead: `_do_command`, `_resolve_address` and
-- `_process_client` of src/server/src/sockspp/server/session.cxx.

use sockspp.Base.{
  ◌≡◌, refl, arith, ◌⊎◌, inl, inr, Bool, true, false, Option-cases, if◌then◌else◌, Option, none,
  some, List, [], ◌∷◌,
}
use sockspp.Core.Enums.{Command}
use sockspp.Core.SocketInfo.{IpVersion}
use sockspp.Core.IpAddress.{IpAddress}
use sockspp.Core.Event.{write_closed}
use sockspp.System.{Target, Call, Platform, Fd, Notice}
use sockspp.Server.Params.{ServerParams}
use sockspp.Session.{◌>>◌, pure, World, State}
use sockspp.Session.Calls.{
  send, garbage, open_socket, bind, bound_name, close, add_event, set_blocking,
}
use sockspp.Session.Client.{send_reply}
use sockspp.Session.Auth.{set_state}
use sockspp.Session.Remote.{put_remote, new_remote, remote_error}
use sockspp.Session.Udp.{put_udp}
use sockspp.Session.Request.{udp_kind}
use sockspp.Session.Execute.{
  connect_remote, open_relay, associate_bound, associate, do_connect, do_associate, run_command,
  do_command, tcp_kind,
}
use sockspp.Session.Phases.{Settles, Leaves, Leaves-bind, Settles-weaken}
use sockspp.Session.Phases.Attempts.{remote_error-Leaves}

-- The states that a command leads to from `s`.
abbrev pub Executed : State → State → Type 0
Executed s s' = (s' ≡ State.connecting_remote) ⊎ (s' ≡ State.associated) ⊎ (s' ≡ s)

module _ (pf : Platform) (params : ServerParams) where
  listening :
      (fd : Fd) (started : Bool) (w : World)
      → w.session.state ≡ State.connecting_remote
      → Leaves
          (λ (b : Bool) s. s ≡ State.connecting_remote)
          ((if started then (do add_event fd Target.remote write_closed; pure true) else pure false)
            w)
  unfolding add_event
  listening fd false w e = e
  listening fd true w e = e

  connect_remote-Leaves :
      (fd : Fd) (as' : List IpAddress) (w : World)
      → Leaves (λ b s. s ≡ State.connecting_remote) (connect_remote pf params fd as' w)
  unfolding connect_remote garbage put_remote new_remote set_blocking set_state add_event
  connect_remote-Leaves fd as' w =
      Leaves-bind (λ b s. s ≡ State.connecting_remote) (λ b s. s ≡ State.connecting_remote) _
        (remote_error pf)
        (record {
          session = record (w.session) {
            remote_socket = some (new_remote (pf.os.garbage w.log) fd (some as'));
            state = State.connecting_remote;
          };
          log =
              Call.set_keepalive fd params.remote_tcp_keepalive
              ∷ Call.set_nodelay fd params.remote_tcp_nodelay
              ∷ Call.set_blocking fd false
              ∷ w.log;
        })
        (remote_error-Leaves pf _) (listening fd)

  associate_leaves :
      (cl rm : Fd) (w : World) → Settles (λ s. s ≡ State.associated) (associate pf cl rm w)
  unfolding associate associate_bound garbage put_remote new_remote set_blocking set_state add_event
      bind bound_name put_udp open_relay send_reply send
  associate_leaves cl rm w = ground arith

  do_connect-Settles :
      (v : IpVersion) (as' : List IpAddress) (w : World)
      → Settles (λ s. s ≡ State.connecting_remote) (do_connect pf params v as' w)
  unfolding do_connect open_socket
  do_connect-Settles v as' w =
      let log1 : List Call = Call.open_socket (tcp_kind v) ∷ w.log in
      let w1 : World = record w { log = Call.notify Notice.remote_socket_created ∷ log1 } in
      elim (Option-cases (pf.os.opened log1)) [
        | inl e ↦ rw (e, Settles) tt
        | inr (fd, e) ↦ let k = connect_remote-Leaves (some fd) as' w1 in ground arith
      ]

  do_associate-Settles :
      (v : IpVersion) (w : World) → Settles (λ s. s ≡ State.associated) (do_associate pf v w)
  unfolding do_associate open_socket close
  do_associate-Settles v w =
      let log1 : List Call = Call.open_socket (udp_kind v) ∷ w.log in
      let log2 : List Call = Call.open_socket (udp_kind v) ∷ log1 in
      let w1 : World = record w { log = Call.notify Notice.remote_socket_created ∷ log2 } in
      elim (Option-cases (pf.os.opened log1)) [
        | inl e ↦ rw (e, Settles) tt
        | inr (cl, e) ↦ elim (Option-cases (pf.os.opened log2)) [
          | inl e' ↦ ground arith
          | inr (rm, e') ↦ let k = associate_leaves (some cl) (some rm) w1 in ground arith
        ]
      ]

  run_command-Settles :
      (c : Command) (v : IpVersion) (as' : List IpAddress) (w : World)
      → Settles (Executed w.session.state) (run_command pf params c v as' w)
  unfolding run_command
  run_command-Settles Command.connect v as' w =
      Settles-weaken (λ s. s ≡ State.connecting_remote) (Executed w.session.state) _
        (do_connect-Settles v as' w) (λ s h. inl h)
  run_command-Settles Command.udp_associate v as' w =
      Settles-weaken (λ s. s ≡ State.associated) (Executed w.session.state) _
        (do_associate-Settles v w) (λ s h. inr (inl h))
  run_command-Settles Command.bind v as' w = inr (inr refl)
  run_command-Settles Command.invalid v as' w = inr (inr refl)
  run_command-Settles (Command.other b) v as' w = inr (inr refl)

  pub do_command-Settles :
      (addresses : Option (List IpAddress)) (w : World)
      → Settles (Executed w.session.state) (do_command pf params addresses w)
  unfolding do_command
  do_command-Settles none w = tt
  do_command-Settles (some []) w = tt
  do_command-Settles (some (a ∷ rest)) w = run_command-Settles _ _ (a ∷ rest) w
