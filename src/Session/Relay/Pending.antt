-- ===== src/Session/Relay/Pending.antt =====
-- `_session_socket_send` of src/server/src/sockspp/server/session.cxx while bytes are scheduled.
use sockspp.Base.{ℕ, ◌<◌, ◌≡◌, refl, sym, ◌∙◌, ◌⊎◌, arith, true, false, none, some, []}
use sockspp.Core.MemoryBuffer.{MemoryBuffer, contents}
use sockspp.System.{Platform, IoResult}
use sockspp.Session.{World, RemoteSocket, ok, fault, null_pointer}
use sockspp.Session.Relay.{
  Side, to_client, to_remote, other_side, scheduled, is_whole, is_broken, is_count,
  session_socket_send,
}
use sockspp.Session.Relay.Steps.{
  sent_result, sent_world, flushed_world, log_sent, watch, send_pending, send_behind_pending,
}
use sockspp.Session.Relay.Stream.{contents_quiet}

not_whole : (res : IoResult) (n : ℕ) → is_count res ≡ false → is_whole res n ≡ false
not_whole (IoResult.count k) n h = cc
not_whole (IoResult.failed e) n h = refl

count_not_broken : (res : IoResult) → is_count res ≡ true → is_broken res ≡ false
count_not_broken (IoResult.count k) h = refl
count_not_broken (IoResult.failed e) h = cc

-- After a flush nothing is scheduled on its side; the other side keeps what it had.
flushed_contents :
    (side : Side) (w : World) (r : RemoteSocket)
    → (contents (scheduled side (flushed_world side w r).session) ≡ [])
      × (scheduled (other_side side) (flushed_world side w r).session
          ≡ scheduled (other_side side) w.session)
flushed_contents to_client w r = (contents_quiet _ refl, refl)
flushed_contents to_remote w r = (contents_quiet _ refl, refl)

module _ (pf : Platform) (w : World) (r : RemoteSocket)
    (has : w.session.remote_socket ≡ some r) where
  -- A WRITE event on a socket for which bytes wait, when the send takes all of them: none are
  -- left, the other direction's are untouched, and the last calls watch both sockets for READ
  -- again, whatever the other direction still has to send.
  pub flush_whole :
      (side : Side)
      → 0 < (scheduled side w.session).size
      → let b = scheduled side w.session in
        is_whole (sent_result pf side w r b) b.size ≡ true
        → (w' : World) × (session_socket_send pf side none w ≡ ok (true, w'))
          × (contents (scheduled side w'.session) ≡ [])
          × (scheduled (other_side side) w'.session ≡ scheduled (other_side side) w.session)
          × (w'.log ≡ watch side false w.session r (log_sent side w r b))
  flush_whole side h whole =
      let eq = send_pending pf w r has side h in
      let (none_left, other_kept) = flushed_contents side w r in
      (flushed_world side w r, ground (arith, eq), none_left, other_kept, refl)

  -- If the send would block instead, the session stays as it is.
  pub flush_blocked :
      (side : Side)
      → 0 < (scheduled side w.session).size
      → let b = scheduled side w.session in
        let res = sent_result pf side w r b in
        is_count res ≡ false
        → is_broken res ≡ false
        → session_socket_send pf side none w ≡ ok (true, sent_world side w r b)
  flush_blocked side h refused alive =
      let b = scheduled side w.session in
      let res = sent_result pf side w r b in
      ground (arith, send_pending pf w r has side h, not_whole res b.size refused)

  -- If only some of the waiting bytes are taken on a WRITE event, the handler reads through the
  -- null buffer that it was called with.
  pub flush_partial_faults :
      (side : Side)
      → 0 < (scheduled side w.session).size
      → let b = scheduled side w.session in
        let res = sent_result pf side w r b in
        is_count res ≡ true
        → is_whole res b.size ≡ false
        → session_socket_send pf side none w ≡ fault null_pointer
  flush_partial_faults side h took part =
      let b = scheduled side w.session in
      let res = sent_result pf side w r b in
      ground (arith, send_pending pf w r has side h, count_not_broken res took)

  -- Bytes that are received while others still wait for the same socket are lost: when the send
  -- takes all of the waiting bytes or none, the whole result of the handler, with what is sent and
  -- what is scheduled afterwards, does not depend on the received bytes.
  pub pending_loses_input :
      (side : Side) (new1 new2 : MemoryBuffer)
      → 0 < (scheduled side w.session).size
      → let b = scheduled side w.session in
        let res = sent_result pf side w r b in
        (is_whole res b.size ≡ true) ⊎ (is_count res ≡ false)
        → session_socket_send pf side (some new1) w ≡ session_socket_send pf side (some new2) w
  pending_loses_input side new1 new2 h c =
      send_behind_pending pf w r has side new1 h c
      ∙ sym (send_behind_pending pf w r has side new2 h c)
