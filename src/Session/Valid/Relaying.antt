-- ===== src/Session/Valid/Relaying.antt =====
-- Relaying keeps a session valid: `_session_socket_send` of
-- src/server/src/sockspp/server/session.cxx.
use sockspp.Base.{
  Mem, ℕ, ◌≡◌, refl, arith, Bool, true, false, none, some, Bool-cases, inl, inr, ◌∙◌, ltb,
  if◌then◌else◌,
}
use sockspp.Core.MemoryBuffer.{MemoryBuffer, copy_from, copy_size, mem_of, set_size}
use sockspp.System.{Platform, IoResult}
use sockspp.Session.{pure, World, Session, RemoteSocket}
use sockspp.Session.Calls.{send, garbage}
use sockspp.Session.Relay.{
  is_whole, is_broken, sent_count, with_scheduled, Side, to_client, to_remote, scheduled, allocated,
  session_socket_send, send_incomplete, send_complete, schedule_rest,
}
use sockspp.Session.Auth.{sub_size}
use sockspp.Session.Relay.Steps.{side_fd_lem, listen_events_lem, sent_result, sent_world}
use sockspp.Session.Valid.{tolerate, IsValid, Keeps, Waits}

Waits-copy :
    (sb : MemoryBuffer) (old m : Mem) (q n : ℕ)
    → Waits sb
    → Waits (copy_from (allocated sb old) m q n)
unfolding copy_from copy_size allocated
Waits-copy sb old m q n h = ground arith

Waits-empty : (b : MemoryBuffer) → Waits b → Waits (set_size b 0)
Waits-empty b h = ground arith

with_scheduled-IsValid :
    (side : Side) (b : MemoryBuffer) (s : Session) (r : RemoteSocket)
    → s.remote_socket ≡ some r
    → IsValid s
    → Waits b
    → IsValid (with_scheduled side b s)
with_scheduled-IsValid to_client b s r has v h = ground arith
with_scheduled-IsValid to_remote b s r has v h = ground arith

with_scheduled-remote_socket :
    (side : Side) (b : MemoryBuffer) (s : Session)
    → (with_scheduled side b s).remote_socket ≡ s.remote_socket
with_scheduled-remote_socket to_client b s = refl
with_scheduled-remote_socket to_remote b s = refl

scheduled-Waits : (side : Side) (s : Session) → IsValid s → Waits (scheduled side s)
scheduled-Waits to_client s v = v.client_waits
scheduled-Waits to_remote s v = v.remote_waits

module _ (pf : Platform) (side : Side) (r : RemoteSocket) where
  abbrev with_rest : MemoryBuffer → ℕ → ℕ → World → World
  with_rest b n k w = record w {
    session =
        with_scheduled side
          (copy_from (allocated (scheduled side w.session) (pf.os.garbage w.log)) (mem_of b.ptr) n
            k)
          w.session;
  }

  with_rest-IsValid :
      (b : MemoryBuffer) (n k : ℕ) (w : World)
      → w.session.remote_socket ≡ some r
      → IsValid w.session
      → IsValid (with_rest b n k w).session
  with_rest-IsValid b n k w has v = with_scheduled-IsValid side _ w.session r has v (
      Waits-copy (scheduled side w.session) (pf.os.garbage w.log) (mem_of b.ptr) n k
        (scheduled-Waits side w.session v))

  incomplete_Keeps :
      (b : MemoryBuffer) (is_scheduled : Bool) (res : IoResult) (size : ℕ) (w : World)
      → w.session.remote_socket ≡ some r
      → IsValid w.session
      → Keeps false (send_incomplete pf side (some b) is_scheduled res size w)
  unfolding send_incomplete garbage
  incomplete_Keeps b false res size w has v =
      let n = sent_count res in
      let k = sub_size size n in
      let w1 = with_rest b n k w in
      rw
        (
          listen_events_lem w1 r (with_scheduled-remote_socket side _ w.session ∙ has) side true,
          Keeps,
        )
        (with_rest-IsValid b n k w has v)
  incomplete_Keeps b true (IoResult.count n) size w has v =
      with_rest-IsValid b n (sub_size size n) w has v
  incomplete_Keeps b true (IoResult.failed e) size w has v = v

  complete_Keeps :
      (is_scheduled : Bool) (w : World)
      → w.session.remote_socket ≡ some r
      → IsValid w.session
      → Keeps false (send_complete pf side is_scheduled w)
  unfolding send_complete
  complete_Keeps false w has v = v
  complete_Keeps true w has v =
      let b = set_size (scheduled side w.session) 0 in
      let w1 : World = record w { session = with_scheduled side b w.session } in
      rw
        (
          listen_events_lem w1 r (with_scheduled-remote_socket side b w.session ∙ has) side false,
          Keeps,
        )
        (with_scheduled-IsValid side b w.session r has v
          (Waits-empty (scheduled side w.session) (scheduled-Waits side w.session v)))

  -- What follows the one `send`.
  sent_Keeps :
      (b : MemoryBuffer) (is_scheduled : Bool) (res : IoResult) (size : ℕ) (w : World)
      → w.session.remote_socket ≡ some r
      → IsValid w.session
      → Keeps false (
          (if is_whole res size
              then send_complete pf side is_scheduled
              else if is_broken res
              then pure false
              else send_incomplete pf side (some b) is_scheduled res size)
            w)
  sent_Keeps b sc res size w has v = elim (Bool-cases (is_whole res size)) [
    | inl e ↦ rw (e, Keeps) (complete_Keeps sc w has v)
    | inr e ↦ elim (Bool-cases (is_broken res)) [
      | inl e' ↦ rw (e, e', Keeps) tt
      | inr e' ↦ rw (e, e', Keeps) (incomplete_Keeps b sc res size w has v)
    ]
  ]

  pub send_Keeps :
      (b : MemoryBuffer) (w : World)
      → w.session.remote_socket ≡ some r
      → IsValid w.session
      → Keeps false (session_socket_send pf side (some b) w)
  unfolding session_socket_send send
  send_Keeps b w has v = elim (Bool-cases (ltb 0 (scheduled side w.session).size)) [
    | inl e ↦
        rw (e, side_fd_lem w r has side, Keeps)
          (let sb = scheduled side w.session in
            sent_Keeps b (ltb 0 sb.size) (sent_result pf side w r sb) sb.size
              (sent_world side w r sb) has v)
    | inr e ↦
        rw (e, side_fd_lem w r has side, Keeps)
          (sent_Keeps b (ltb 0 (scheduled side w.session).size) (sent_result pf side w r b) b.size
            (sent_world side w r b) has v)
  ]

  partial_Keeps :
      (res : IoResult) (size : ℕ) (w : World)
      → IsValid w.session
      → Keeps true (send_incomplete pf side none true res size w)
  unfolding send_incomplete schedule_rest garbage
  partial_Keeps (IoResult.count n) size w v = refl
  partial_Keeps (IoResult.failed e) size w v = v

  -- On a WRITE event there is no buffer: a second partial `send` reads a null pointer.
  flushed_Keeps :
      (res : IoResult) (size : ℕ) (w : World)
      → w.session.remote_socket ≡ some r
      → IsValid w.session
      → Keeps true (
          (if is_whole res size
              then send_complete pf side true
              else if is_broken res
              then pure false
              else send_incomplete pf side none true res size)
            w)
  flushed_Keeps res size w has v = elim (Bool-cases (is_whole res size)) [
    | inl e ↦ rw (e, Keeps) (tolerate _ (complete_Keeps true w has v))
    | inr e ↦ elim (Bool-cases (is_broken res)) [
      | inl e' ↦ rw (e, e', Keeps) tt
      | inr e' ↦ rw (e, e', Keeps) (partial_Keeps res size w v)
    ]
  ]

  pub flush_Keeps :
      (w : World)
      → w.session.remote_socket ≡ some r
      → IsValid w.session
      → Keeps true (session_socket_send pf side none w)
  unfolding session_socket_send send
  flush_Keeps w has v = elim (Bool-cases (ltb 0 (scheduled side w.session).size)) [
    | inl e ↦
        rw (e, side_fd_lem w r has side, Keeps, e)
          (let sb = scheduled side w.session in
            flushed_Keeps (sent_result pf side w r sb) sb.size (sent_world side w r sb) has v)
    | inr e ↦ rw (e, Keeps) refl
  ]
