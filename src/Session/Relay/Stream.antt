-- ===== src/Session/Relay/Stream.antt =====
-- The byte streams of a TCP session: what `_session_socket_send` of
-- src/server/src/sockspp/server/session.cxx does to the bytes that it is given.
use sockspp.Base.{
  ℕ, ◌+◌, ◌-◌, ◌≤◌, ◌≡◌, refl, sym, ap, ◌∙◌, ◌⊎◌, inl, inr, arith, Mem, copy, slice, slice-append,
  take-slice, take, true, false, Bool-cases, none, some, [], ◌++◌,
}
use mathlib.Core.List.{append-nil}
use native.Mathlib.Nat.{zero-add}
use sockspp.Core.MemoryBuffer.{
  MemoryBuffer, contents, contents-copy_from, copy_from, copy_size, mem_of,
}
use sockspp.System.{Platform, IoResult}
use sockspp.Session.{World, RemoteSocket, ok}
use sockspp.Session.Auth.{sub_size}
use sockspp.Session.Udp.{buffer_size}
use sockspp.Session.Relay.{
  Side, to_client, to_remote, other_side, scheduled, is_whole, is_broken, sent_count, allocated,
  session_socket_send,
}
use sockspp.Session.Relay.Steps.{sent_result, sent_world, scheduled_world, send_new}

-- A scheduled buffer is not there yet, or has room for one receive.
abbrev pub HasRoom : MemoryBuffer → Type 0
HasRoom b = (b.ptr ≡ none) ⊎ ((m : Mem) × (b.ptr ≡ some m) × (b.capacity ≡ buffer_size))

allocated_room :
    (b : MemoryBuffer) (old : Mem)
    → HasRoom b
    → (m : Mem) × ((allocated b old).ptr ≡ some m) × ((allocated b old).capacity ≡ buffer_size)
unfolding allocated
allocated_room b old (inl e) = (old, ground arith, ground arith)
allocated_room b old (inr (m, e, c)) = (m, ground arith, ground arith)

-- The bytes that are scheduled after `n` of `b`'s were sent.
contents_rest :
    (sb b : MemoryBuffer) (old : Mem) (n : ℕ)
    → HasRoom sb
    → b.size ≤ buffer_size
    → n ≤ b.size
    → contents (copy_from (allocated sb old) (mem_of b.ptr) n (sub_size b.size n))
      ≡ slice (mem_of b.ptr) n (b.size - n)
contents_rest sb b old n room fits le =
    let (m, e, c) = allocated_room sb old room in
    let d : sub_size b.size n ≡ b.size - n = omega arith in
    rw d (contents-copy_from m (allocated sb old) (mem_of b.ptr) n (b.size - n) e (ground arith))

-- The sent bytes and the rest are the buffer.
sent_and_rest :
    (b : MemoryBuffer) (n : ℕ)
    → n ≤ b.size
    → take n (contents b) ++ slice (mem_of b.ptr) n (b.size - n) ≡ contents b
unfolding contents
sent_and_rest b n le =
    let m = mem_of b.ptr in
    let whole : n + (b.size - n) ≡ b.size = omega arith in
    let split : slice m 0 (n + (b.size - n)) ≡ slice m 0 n ++ slice m n (b.size - n) =
      rw zero-add at (slice-append m 0 n (b.size - n)) in
    rw (take-slice m 0 n b.size le) (sym split ∙ ap (slice m 0) whole)

stream_rest :
    (sb b : MemoryBuffer) (old : Mem) (n : ℕ)
    → HasRoom sb
    → b.size ≤ buffer_size
    → n ≤ b.size
    → take n (contents b)
        ++ contents (copy_from (allocated sb old) (mem_of b.ptr) n (sub_size b.size n))
      ≡ contents b
stream_rest sb b old n room fits le =
    rw (contents_rest sb b old n room fits le) (sent_and_rest b n le)

pub contents_quiet : (b : MemoryBuffer) → b.size ≡ 0 → contents b ≡ []
unfolding contents slice
contents_quiet b e = rw (e, slice)

take_whole : (b : MemoryBuffer) → take b.size (contents b) ≡ contents b
unfolding contents
take_whole b = take-slice (mem_of b.ptr) 0 b.size b.size (omega arith)

whole_count : (res : IoResult) (n : ℕ) → is_whole res n ≡ true → sent_count res ≡ n
whole_count (IoResult.count k) n h = ground arith
whole_count (IoResult.failed e) n h = cc

copy_from_room :
    (sb : MemoryBuffer) (old s : Mem) (q n : ℕ)
    → HasRoom sb
    → HasRoom (copy_from (allocated sb old) s q n)
unfolding copy_from
copy_from_room sb old s q n room =
    let (m, e, c) = allocated_room sb old room in
    inr (copy m 0 s q (copy_size (allocated sb old) n), ground arith, c)

-- What the send took of `b` and what is scheduled afterwards are the bytes of `b`, in order; the
-- other direction and the state are as they were.
abbrev pub Conserves : Platform → Side → World → RemoteSocket → MemoryBuffer → World → Type 0
Conserves pf side w r b w' =
    (take (sent_count (sent_result pf side w r b)) (contents b)
        ++ contents (scheduled side w'.session)
      ≡ contents b)
    × HasRoom (scheduled side w'.session)
    × (scheduled (other_side side) w'.session ≡ scheduled (other_side side) w.session)
    × (w'.session.state ≡ w.session.state)

module _ (pf : Platform) (w : World) (r : RemoteSocket) (has : w.session.remote_socket ≡ some r)
    (b : MemoryBuffer) (fits : b.size ≤ buffer_size) where
  Conserves-whole :
      (side : Side)
      → HasRoom (scheduled side w.session)
      → (scheduled side w.session).size ≡ 0
      → is_whole (sent_result pf side w r b) b.size ≡ true
      → Conserves pf side w r b (sent_world side w r b)
  Conserves-whole side room quiet whole = (
    rw
        (
          whole_count (sent_result pf side w r b) b.size whole,
          contents_quiet (scheduled side w.session) quiet,
          append-nil,
        )
        (take_whole b),
    room,
    refl,
    refl,
  )

  Conserves-scheduled :
      (side : Side)
      → HasRoom (scheduled side w.session)
      → sent_count (sent_result pf side w r b) ≤ b.size
      → Conserves pf side w r b (scheduled_world pf side w r b)
  Conserves-scheduled to_client room le = (
    stream_rest w.session.client_buffer b _ _ room fits le,
    copy_from_room w.session.client_buffer _ _ _ _ room,
    refl,
    refl,
  )
  Conserves-scheduled to_remote room le = (
    stream_rest w.session.remote_buffer b _ _ room fits le,
    copy_from_room w.session.remote_buffer _ _ _ _ room,
    refl,
    refl,
  )

  -- New bytes for a socket for which none wait, when the connection is not broken: the handler goes
  -- on, the bytes that the send took and those that are scheduled afterwards are the given bytes, in
  -- order, none twice and none left out, the scheduled buffer still has room for a receive, and the
  -- other direction and the session's state are as they were. The buffer has at most 8192 bytes and
  -- the send takes no more than it is given.
  pub relay-Conserves :
      (side : Side)
      → HasRoom (scheduled side w.session)
      → (scheduled side w.session).size ≡ 0
      → sent_count (sent_result pf side w r b) ≤ b.size
      → is_broken (sent_result pf side w r b) ≡ false
      → (w' : World) × (session_socket_send pf side (some b) w ≡ ok (true, w'))
        × Conserves pf side w r b w'
  relay-Conserves side room quiet le alive =
      let sent = sent_result pf side w r b in
      elim (Bool-cases (is_whole sent b.size)) [
        | inl whole ↦ (
          sent_world side w r b,
          ground (arith, send_new pf w r has b side quiet),
          Conserves-whole side room quiet whole,
        )
        | inr part ↦ (
          scheduled_world pf side w r b,
          ground (arith, send_new pf w r has b side quiet),
          Conserves-scheduled side room le,
        )
      ]
