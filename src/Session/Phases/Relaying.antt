-- ===== src/Session/Phases/Relaying.antt =====
-- Relaying leaves the state alone: `_session_socket_send` of
-- src/server/src/sockspp/server/session.cxx.
use sockspp.Base.{
  ℕ, ◌≡◌, arith, inl, inr, Bool, true, false, Bool-cases, Option-cases, not, ◌||◌, ◌∷◌, ltb,
  if◌then◌else◌, Option, none, some,
}
use sockspp.Core.MemoryBuffer.{MemoryBuffer, contents, set_size}
use sockspp.Session.Auth.{sub_size}
use sockspp.System.{Call, Platform, IoResult, Fd}
use sockspp.Session.{◌>>=◌, ◌>>◌, pure, World, State}
use sockspp.Session.Calls.{send, garbage, modify_event}
use sockspp.Session.Remote.{get_remote}
use sockspp.Session.Relay.{
  is_count, sent_count, with_scheduled, Side, to_client, to_remote, session_socket_send,
  send_incomplete, send_complete, listen_events, schedule_rest, put_scheduled, side_fd, is_whole,
  is_broken, scheduled,
}
use sockspp.Session.Phases.{Settles, Leaves, Settles-bind}

listen-Leaves :
    (side : Side) (writing : Bool) (w : World) (st : State)
    → w.session.state ≡ st
    → Leaves (λ x s. s ≡ st) (listen_events side writing w)
unfolding listen_events side_fd get_remote modify_event
listen-Leaves to_client writing w st e = ground arith
listen-Leaves to_remote writing w st e = ground arith

module _ (pf : Platform) (st : State) where
  complete-Settles :
      (side : Side) (is_scheduled : Bool) (w : World)
      → w.session.state ≡ st
      → Settles (λ s. s ≡ st) (send_complete pf side is_scheduled w)
  unfolding send_complete put_scheduled
  complete-Settles side false w e = e
  complete-Settles to_client true w e =
      let b = set_size w.session.client_buffer 0 in
      let k =
        listen-Leaves to_client false (record w { session = with_scheduled to_client b w.session })
          st e in
      ground arith
  complete-Settles to_remote true w e =
      let b = set_size w.session.remote_buffer 0 in
      let k =
        listen-Leaves to_remote false (record w { session = with_scheduled to_remote b w.session })
          st e in
      ground arith

  scheduled-Leaves :
      (side : Side) (buffer : Option MemoryBuffer) (n k : ℕ) (w : World)
      → w.session.state ≡ st
      → Leaves (λ x s. s ≡ st) (schedule_rest pf side buffer n k w)
  unfolding schedule_rest put_scheduled garbage
  scheduled-Leaves side none n k w e = tt
  scheduled-Leaves to_client (some b) n k w e = e
  scheduled-Leaves to_remote (some b) n k w e = e

  -- The last line of the call, which listens if nothing was scheduled.
  listened :
      (side : Side) (is_scheduled : Bool) (w : World)
      → w.session.state ≡ st
      → Settles
          (λ s. s ≡ st)
          (((if not is_scheduled then listen_events side true else pure tt) >> pure true) w)
  listened side false w e =
      Settles-bind (λ x s. s ≡ st) (λ s. s ≡ st) _ (listen_events side true) w
        (listen-Leaves side true w st e) (λ x w' e'. e')
  listened side true w e = e

  incomplete-Settles :
      (side : Side) (buffer : Option MemoryBuffer) (is_scheduled : Bool) (res : IoResult) (size : ℕ)
      (w : World)
      → w.session.state ≡ st
      → Settles (λ s. s ≡ st) (send_incomplete pf side buffer is_scheduled res size w)
  unfolding send_incomplete
  incomplete-Settles side buffer is_scheduled res size w e =
      elim (Bool-cases (not is_scheduled || is_count res)) [
        | inl q ↦
            let k =
              Settles-bind (λ x s. s ≡ st) (λ s. s ≡ st) _
                (schedule_rest pf side buffer (sent_count res) (sub_size size (sent_count res))) w
                (scheduled-Leaves side buffer (sent_count res) (sub_size size (sent_count res)) w e)
                (λ x w' e'. listened side is_scheduled w' e') in
            rw (q, Settles) k
        | inr q ↦ rw (q, Settles) (listened side is_scheduled w e)
      ]

  sent-Settles :
      (side : Side) (buffer : Option MemoryBuffer) (is_scheduled : Bool) (res : IoResult) (size : ℕ)
      (w : World)
      → w.session.state ≡ st
      → Settles
          (λ s. s ≡ st)
          ((if is_whole res size
              then send_complete pf side is_scheduled
              else if is_broken res
              then pure false
              else send_incomplete pf side buffer is_scheduled res size)
            w)
  sent-Settles side b sc res size w e = elim (Bool-cases (is_whole res size)) [
    | inl q ↦ rw (q, Settles) (complete-Settles side sc w e)
    | inr q ↦ elim (Bool-cases (is_broken res)) [
      | inl q' ↦ rw (q, q', Settles) tt
      | inr q' ↦ rw (q, q', Settles) (incomplete-Settles side b sc res size w e)
    ]
  ]

  side_fd-Leaves :
      (side : Side) (w : World)
      → w.session.state ≡ st
      → Leaves (λ (fd : Fd) s. s ≡ st) (side_fd side w)
  unfolding side_fd get_remote
  side_fd-Leaves to_client w e = e
  side_fd-Leaves to_remote w e = ground arith

  send_from :
      (side : Side) (buffer : Option MemoryBuffer) (sb : MemoryBuffer) (is_scheduled : Bool)
      (w : World)
      → w.session.state ≡ st
      → Settles
          (λ s. s ≡ st)
          ((do
            fd ← side_fd side
            res ← send pf fd (contents sb)
            if is_whole res sb.size
                then send_complete pf side is_scheduled
                else if is_broken res
                then pure false
                else send_incomplete pf side buffer is_scheduled res sb.size)
            w)
  unfolding send
  send_from side buffer sb is_scheduled w e =
      Settles-bind (λ (fd : Fd) s. s ≡ st) (λ s. s ≡ st) _ (side_fd side) w
        (side_fd-Leaves side w e)
        (λ fd w' e'.
          let w2 : World = record w' { log = Call.send fd (contents sb) ∷ w'.log } in
          sent-Settles side buffer is_scheduled (pf.os.result w2.log) sb.size w2 e')

  pub session_socket_send-Settles :
      (side : Side) (buffer : Option MemoryBuffer) (w : World)
      → w.session.state ≡ st
      → Settles (λ s. s ≡ st) (session_socket_send pf side buffer w)
  unfolding session_socket_send
  session_socket_send-Settles side buffer w e =
      elim (Bool-cases (ltb 0 (scheduled side w.session).size)) [
        | inl q ↦
            rw (q, Settles)
              (send_from side buffer (scheduled side w.session)
                (ltb 0 (scheduled side w.session).size) w e)
        | inr q ↦ elim (Option-cases buffer) [
          | inl none_given ↦ rw (q, none_given, Settles) tt
          | inr (b, given) ↦
              rw (q, given, Settles)
                (send_from side buffer b (ltb 0 (scheduled side w.session).size) w e)
        ]
      ]
