-- ===== src/Session/Relay.antt =====
-- `_session_socket_send` of src/server/src/sockspp/server/session.cxx: the two directions of a TCP
-- session. A `Side` says which socket `session_socket` is; the other one is `session_socket2`.
pub mod Steps
pub mod Stream
pub mod Pending
use sockspp.Base.{
  ℕ, ◌+◌, ◌-◌, ◌%◌, Mem, length, Bool, true, false, not, ◌&&◌, ◌||◌, ltb, ◌==◌, if◌then◌else◌,
  Option, none, some, List,
}
use sockspp.Core.MemoryBuffer.{MemoryBuffer, contents, copy_from, mem_of, set_size}
use sockspp.Core.Event.{read_closed, write_closed, only_closed}
use sockspp.System.{Fd, Platform, Target, IoResult, Errno}
use sockspp.Session.{M, null_pointer, Session, get, put, expect, pure, ◌>>=◌, ◌>>◌}
use sockspp.Session.Calls.{send, garbage, modify_event}
use sockspp.Session.Auth.{sub_size}
use sockspp.Session.Remote.{get_remote}
use sockspp.Session.Udp.{buffer_size}

pub data Side : Type 0 where
  to_client to_remote : Side

abbrev pub other_side : Side → Side
other_side to_client = to_remote
other_side to_remote = to_client

abbrev pub side_target : Side → Target
side_target to_client = Target.client
side_target to_remote = Target.remote

-- The bytes that wait for a socket to become writable: `_client_buffer` and `_remote_buffer`.
abbrev pub scheduled : Side → Session → MemoryBuffer
scheduled to_client s = s.client_buffer
scheduled to_remote s = s.remote_buffer

abbrev pub with_scheduled : Side → MemoryBuffer → Session → Session
with_scheduled to_client b s = record s { client_buffer = b }
with_scheduled to_remote b s = record s { remote_buffer = b }

unfoldable pub put_scheduled : Side → MemoryBuffer → M (Unit {0})
put_scheduled side b = do s ← get; put (with_scheduled side b s)

unfoldable pub side_fd : Side → M Fd
unfolding get_remote
side_fd to_client = do s ← get; pure s.client_socket
side_fd to_remote = do r ← get_remote; pure r.fd

-- `res == -1` with an error number that is not "would block".
abbrev pub is_broken : IoResult → Bool
is_broken (IoResult.count n) = false
is_broken (IoResult.failed Errno.would_block) = false
is_broken (IoResult.failed _) = true

abbrev pub sent_count : IoResult → ℕ
sent_count (IoResult.count n) = n
sent_count (IoResult.failed e) = 0

abbrev pub is_count : IoResult → Bool
is_count (IoResult.count n) = true
is_count (IoResult.failed e) = false

abbrev pub is_whole : IoResult → ℕ → Bool
is_whole (IoResult.count n) size = n == size
is_whole (IoResult.failed e) size = false

-- `scheduled`, with 8192 fresh bytes behind it if it had none.
unfoldable pub allocated : MemoryBuffer → Mem → MemoryBuffer
allocated b old = elim b.ptr [
  | some m ↦ b
  | none ↦ record { ptr = some old; size = 0; capacity = buffer_size }
]

-- Listen for `mine` on the socket that was written to and for `theirs` on the other.
unfoldable pub listen_events : Side → Bool → M (Unit {0})
unfolding side_fd modify_event
listen_events side writing = do
  fd ← side_fd side
  modify_event fd (side_target side) (if writing then write_closed else read_closed)
  fd2 ← side_fd (other_side side)
  modify_event fd2 (side_target (other_side side)) (if writing then only_closed else read_closed)

module _ (pf : Platform) where
  -- What was not sent is copied from `buffer`, which is null on a WRITE event.
  unfoldable pub schedule_rest : Side → Option MemoryBuffer → ℕ → ℕ → M (Unit {0})
  unfolding allocated put_scheduled
  schedule_rest side buffer sent copy_size = do
    s ← get
    old ← garbage pf
    b ← expect null_pointer buffer
    put_scheduled side (copy_from (allocated (scheduled side s) old) (mem_of b.ptr) sent copy_size)

  -- After a partial or refused send: schedule, and listen for WRITE if nothing was scheduled.
  unfoldable pub send_incomplete : Side → Option MemoryBuffer → Bool → IoResult → ℕ → M Bool
  unfolding schedule_rest listen_events
  send_incomplete side buffer is_scheduled res size = do
    let schedule = schedule_rest side buffer (sent_count res) (sub_size size (sent_count res))
    if not is_scheduled || is_count res then schedule else pure tt
    if not is_scheduled then listen_events side true else pure tt
    pure true

  unfoldable pub send_complete : Side → Bool → M Bool
  unfolding put_scheduled listen_events
  send_complete side is_scheduled = do
    s ← get
    let flushed = (do put_scheduled side (set_size (scheduled side s) 0); listen_events side false)
    if is_scheduled then flushed else pure tt
    pure true

  unfoldable pub session_socket_send : Side → Option MemoryBuffer → M Bool
  unfolding side_fd send_incomplete send_complete
  session_socket_send side buffer = do
    s ← get
    let is_scheduled = ltb 0 (scheduled side s).size
    send_buffer ← (if is_scheduled then pure (scheduled side s) else expect null_pointer buffer)
    fd ← side_fd side
    res ← send pf fd (contents send_buffer)
    let incomplete = send_incomplete side buffer is_scheduled res send_buffer.size
    let finish = send_complete side is_scheduled
    if is_whole res send_buffer.size
        then finish
        else if is_broken res
        then pure false
        else incomplete
