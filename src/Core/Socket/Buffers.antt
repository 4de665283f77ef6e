-- ===== src/Core/Socket/Buffers.antt =====
-- What passes through the buffers of src/core/src/sockspp/core/socket.cxx: a buffer that receives
-- and then sends passes on what it got.
use sockspp.Base.{
  ℕ, sym, take-slice, ◌≤◌, ◌<◌, ◌≡◌, refl, arith, inl, inr, Bool-cases, write, Mem, of_bytes, slice,
  slice-of_bytes, length, take, ◌==◌, Option, none, some, List, [],
}
use sockspp.Core.MemoryBuffer.{mem_of, MemoryBuffer, contents}
use sockspp.Core.SocketInfo.{Sockaddr, SocketInfo, to}
use sockspp.System.{IoResult, Received}
use sockspp.Core.Socket.{
  buffer_made, received_into, from_sender, new_buffer, recv_buffer, recv_buffer_from, send_buffer,
  send_buffer_to,
}

-- A buffer of any size but 0 is empty and has the room that was asked for.
new_buffer_lem :
    (m : Mem) (capacity : ℕ)
    → 0 < capacity
    → (b : MemoryBuffer) × ((new_buffer (some m) capacity ≡ buffer_made b)
        × ((contents b ≡ []) × (b.capacity ≡ capacity)))
unfolding new_buffer contents slice
new_buffer_lem m capacity lt = elim (Bool-cases (capacity == 0)) [
  | inl e ↦ ground arith
  | inr e ↦ (
    record { ptr = some (write m 0 0); size = 0; capacity = capacity },
    (rw e refl, (refl, refl)),
  )
]

-- What the buffer holds after it has received is what came.
recv_buffer_lem :
    (recv : ℕ → Received) (b : MemoryBuffer) (m : Mem) (bytes : List ℕ) (a : Sockaddr)
    → b.ptr ≡ some m
    → recv b.capacity ≡ Received.got bytes a
    → (b' : MemoryBuffer) × ((recv_buffer recv b ≡ some (length bytes, b')) × (contents b' ≡ bytes))
unfolding recv_buffer contents
recv_buffer_lem recv b m bytes a at came = (
  record { ptr = some (of_bytes bytes m); size = length bytes; capacity = b.capacity },
  (rw (recv_buffer, came, at) refl, slice-of_bytes bytes m),
)

-- A buffer without bytes receives nothing by recv_from, which leaves it no room, from a system that
-- never delivers more than there is room for.
empty_receives_nothing :
    (recvfrom : ℕ → Received) (info : Option SocketInfo) (b : MemoryBuffer)
    → b.size ≡ 0
    → ((room : ℕ) (bytes : List ℕ) (a : Sockaddr)
        → recvfrom room ≡ Received.got bytes a
        → length bytes ≤ room)
    → (n : ℕ) (b' : MemoryBuffer) (info' : Option SocketInfo)
    → recv_buffer_from recvfrom b info ≡ some (n, (b', info'))
    → n ≡ 0
unfolding recv_buffer_from
empty_receives_nothing recvfrom info b empty h n b' info' got = go (recvfrom b.size) refl got
  where
    go :
        (r : Received)
        → recvfrom b.size ≡ r
        → (elim r as (λ _. Option (ℕ × (MemoryBuffer × Option SocketInfo))) [
          | Received.failed e ↦ none
          | Received.got bytes a ↦ some (length bytes, (received_into b bytes, from_sender info a))
        ])
          ≡ some (n, (b', info'))
        → n ≡ 0
    go (Received.failed e) came g = ground (arith, g)
    go (Received.got bytes a) came g = ground (arith, g, h b.size bytes a came, empty)

-- A new buffer receives nothing so.
fresh_receives_nothing :
    (m : Mem) (capacity : ℕ) (recvfrom : ℕ → Received) (info : Option SocketInfo)
    → 0 < capacity
    → ((room : ℕ) (bytes : List ℕ) (a : Sockaddr)
        → recvfrom room ≡ Received.got bytes a
        → length bytes ≤ room)
    → (b : MemoryBuffer) → new_buffer (some m) capacity ≡ buffer_made b
    → (n : ℕ) (b' : MemoryBuffer) (info' : Option SocketInfo)
    → recv_buffer_from recvfrom b info ≡ some (n, (b', info'))
    → n ≡ 0
unfolding new_buffer
fresh_receives_nothing m capacity recvfrom info lt h b e n b' info' got =
    empty_receives_nothing recvfrom info b (empty b e) h n b' info' got
  where
    empty : (b : MemoryBuffer) → new_buffer (some m) capacity ≡ buffer_made b → b.size ≡ 0
    empty b e = ground (arith, lt, e)

-- What came into a buffer is what a send from it hands to the system.
forwards :
    (recv : ℕ → Received) (send : List ℕ → IoResult) (b : MemoryBuffer) (m : Mem) (bytes : List ℕ)
    (a : Sockaddr) (n : ℕ)
    → b.ptr ≡ some m
    → recv b.capacity ≡ Received.got bytes a
    → send bytes ≡ IoResult.count n
    → (b' : MemoryBuffer) × ((recv_buffer recv b ≡ some (length bytes, b'))
        × (send_buffer send b' ≡ some n))
unfolding send_buffer
forwards recv send b m bytes a n at came sent =
    let (b', (same, held)) = recv_buffer_lem recv b m bytes a at came in
    (b', (same, rw (send_buffer, held, sent) refl))

-- A send to an address leaves in the buffer the bytes that were sent: the rest is gone.
send_buffer_to_lem :
    (sendto : List ℕ → Sockaddr → IoResult) (b : MemoryBuffer) (info : SocketInfo) (n : ℕ)
    → sendto (contents b) (to info) ≡ IoResult.count n
    → n ≤ b.size
    → (b' : MemoryBuffer) × ((send_buffer_to sendto b info ≡ some (n, b'))
        × (contents b' ≡ take n (contents b)))
unfolding send_buffer_to contents
send_buffer_to_lem sendto b info n sent le = (
  record b { size = n },
  (rw (send_buffer_to, sent) refl, sym (take-slice (mem_of b.ptr) 0 n b.size le)),
)
