-- ===== src/Session/Relay/Steps.antt =====
-- The parts of `_session_socket_send` (src/server/src/sockspp/server/session.cxx) on a session that
-- has a remote socket: what each leaves behind, as an equation.
use sockspp.Base.{
  ◌<◌, ◌⊎◌, ◌≡◌, refl, arith, Bool, true, false, if◌then◌else◌, none, some, List, ◌∷◌,
}
use sockspp.Core.MemoryBuffer.{MemoryBuffer, contents, copy_from, mem_of, set_size}
use sockspp.Core.Event.{read_closed, write_closed, only_closed}
use sockspp.System.{Fd, Call, CtlOp, Platform, IoResult}
use sockspp.Session.{World, Session, RemoteSocket, ok, fault, null_pointer}
use sockspp.Session.Calls.{send, garbage}
use sockspp.Session.Auth.{sub_size}
use sockspp.Session.Relay.{
  Side, to_client, to_remote, other_side, side_target, scheduled, with_scheduled, side_fd, is_whole,
  is_broken, is_count, sent_count, allocated, listen_events, send_incomplete, session_socket_send,
}

-- The descriptor of a side's socket when the remote one is `r`.
abbrev pub socket_of : Side → Session → RemoteSocket → Fd
socket_of to_client s r = s.client_socket
socket_of to_remote s r = r.fd

abbrev pub watch : Side → Bool → Session → RemoteSocket → List Call → List Call
watch side writing s r log =
    Call.set_event CtlOp.modify (socket_of (other_side side) s r) (side_target (other_side side))
      (if writing then only_closed else read_closed)
    ∷ Call.set_event CtlOp.modify (socket_of side s r) (side_target side)
        (if writing then write_closed else read_closed)
    ∷ log

module _ (w : World) (r : RemoteSocket) (has : w.session.remote_socket ≡ some r) where
  pub side_fd_lem : (side : Side) → side_fd side w ≡ ok (socket_of side w.session r, w)
  unfolding side_fd
  side_fd_lem to_client = refl
  side_fd_lem to_remote = ground arith

  pub listen_events_lem :
      (side : Side) (writing : Bool)
      → listen_events side writing w
        ≡ ok (tt, record w { log = watch side writing w.session r w.log })
  unfolding listen_events
  listen_events_lem to_client writing = ground arith
  listen_events_lem to_remote writing = ground arith

-- The log after the one `send` of the call, and its result.
abbrev pub log_sent : Side → World → RemoteSocket → MemoryBuffer → List Call
log_sent side w r b = Call.send (socket_of side w.session r) (contents b) ∷ w.log

abbrev pub sent_result : Platform → Side → World → RemoteSocket → MemoryBuffer → IoResult
sent_result pf side w r b = pf.os.result (log_sent side w r b)

abbrev pub sent_world : Side → World → RemoteSocket → MemoryBuffer → World
sent_world side w r b = record w { log = log_sent side w r b }

-- The session after what was not sent of `b` was scheduled.
abbrev pub leftover : Platform → Side → World → RemoteSocket → MemoryBuffer → MemoryBuffer
leftover pf side w r b =
    let n = sent_count (sent_result pf side w r b) in
    copy_from (allocated (scheduled side w.session) (pf.os.garbage (log_sent side w r b)))
      (mem_of b.ptr) n (sub_size b.size n)

abbrev pub scheduled_world : Platform → Side → World → RemoteSocket → MemoryBuffer → World
scheduled_world pf side w r b = record {
  session = with_scheduled side (leftover pf side w r b) w.session;
  log = watch side true w.session r (log_sent side w r b);
}

module _ (pf : Platform) (w : World) (r : RemoteSocket) (has : w.session.remote_socket ≡ some r)
    (b : MemoryBuffer) where
  send_incomplete_lem :
      (side : Side)
      → send_incomplete pf side
          (some b)
          false
          (sent_result pf side w r b)
          b.size
          (sent_world side w r b)
        ≡ ok (true, scheduled_world pf side w r b)
  unfolding send_incomplete garbage
  send_incomplete_lem to_client = ground arith
  send_incomplete_lem to_remote = ground arith

  -- New data with nothing scheduled.
  pub send_new :
      (side : Side)
      → (scheduled side w.session).size ≡ 0
      → session_socket_send pf side (some b) w ≡ (
          if is_whole (sent_result pf side w r b) b.size
          then ok (true, sent_world side w r b)
          else if is_broken (sent_result pf side w r b)
          then ok (false, sent_world side w r b)
          else ok (true, scheduled_world pf side w r b))
  unfolding session_socket_send garbage send
  send_new to_client e = ground arith
  send_new to_remote e = ground arith

-- The session and the log after scheduled bytes went out whole.
abbrev pub flushed_world : Side → World → RemoteSocket → World
flushed_world side w r =
    let b = scheduled side w.session in
    record {
      session = with_scheduled side (set_size b 0) w.session;
      log = watch side false w.session r (log_sent side w r b);
    }

module _ (pf : Platform) (w : World) (r : RemoteSocket)
    (has : w.session.remote_socket ≡ some r) where
  -- A WRITE event while bytes are scheduled.
  pub send_pending :
      (side : Side)
      → 0 < (scheduled side w.session).size
      → let b = scheduled side w.session in
        let res = sent_result pf side w r b in
        session_socket_send pf side none w ≡ (
          if is_whole res b.size
          then ok (true, flushed_world side w r)
          else if is_broken res
          then ok (false, sent_world side w r b)
          else if is_count res
          then fault null_pointer
          else ok (true, sent_world side w r b))
  unfolding session_socket_send garbage send
  send_pending to_client h = ground arith
  send_pending to_remote h = ground arith

  -- New data while bytes are scheduled: the scheduled bytes are sent, the new ones are not.
  pub send_behind_pending :
      (side : Side) (new : MemoryBuffer)
      → 0 < (scheduled side w.session).size
      → let b = scheduled side w.session in
        let res = sent_result pf side w r b in
        (is_whole res b.size ≡ true) ⊎ (is_count res ≡ false)
        → session_socket_send pf side (some new) w ≡ (
            if is_whole res b.size
            then ok (true, flushed_world side w r)
            else if is_broken res
            then ok (false, sent_world side w r b)
            else ok (true, sent_world side w r b))
  unfolding session_socket_send garbage send
  send_behind_pending to_client new h c = ground arith
  send_behind_pending to_remote new h c = ground arith
