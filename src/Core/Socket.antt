-- ===== src/Core/Socket.antt =====
-- `Buffer` of src/core/src/sockspp/core/buffer.cxx, and the operations of `Socket` of socket.cxx
-- that take a `MemoryBuffer`. What the system answers is an argument: to a receiving call a function
-- of the room that it is given, to a sending call a function of the bytes.
pub mod Buffers
pub mod Ownership
use sockspp.Base.{ℕ, Mem, of_bytes, write, length, ◌==◌, if◌then◌else◌, Option, none, some, List}
use sockspp.Core.MemoryBuffer.{MemoryBuffer, set_size, contents}
use sockspp.Core.SocketInfo.{Sockaddr, SocketInfo, from, to}
use sockspp.System.{IoResult, Received}

-- `Buffer::Buffer(size_t)` makes a buffer, throws `MemoryAllocationException`, or stores its zero
-- byte behind an array that has no room.
pub data Allocation : Type 0 where
  buffer_made : MemoryBuffer → Allocation
  allocation_failed : ℕ → Allocation
  out_of_bounds : Allocation

abbrev pub made : ℕ → Mem → Allocation
made capacity m =
    if capacity == 0
    then out_of_bounds
    else buffer_made (record { ptr = some (write m 0 0); size = 0; capacity = capacity })

-- The first argument is what `malloc` returns.
unfoldable pub new_buffer : Option Mem → ℕ → Allocation
new_buffer none capacity = allocation_failed capacity
new_buffer (some m) capacity = made capacity m

abbrev pub put_received : Option Mem → List ℕ → Option Mem
put_received none bytes = none
put_received (some m) bytes = some (of_bytes bytes m)

abbrev pub received_into : MemoryBuffer → List ℕ → MemoryBuffer
received_into b bytes = set_size (record b { ptr = put_received b.ptr bytes }) (length bytes)

-- `Socket::recv(MemoryBuffer&)`: the size and the buffer, `none` for an `IOException`.
unfoldable pub recv_buffer : (ℕ → Received) → MemoryBuffer → Option (ℕ × MemoryBuffer)
recv_buffer recv b = elim (recv b.capacity) [
  | Received.failed e ↦ none
  | Received.got bytes addr ↦ some (length bytes, received_into b bytes)
]

abbrev pub from_sender : Option SocketInfo → Sockaddr → Option SocketInfo
from_sender none addr = none
from_sender (some info) addr = some (from info addr)

-- `Socket::recv_from(MemoryBuffer&, SocketInfo*)`: the room is the size of the buffer.
unfoldable pub recv_buffer_from :
    (ℕ → Received)
    → MemoryBuffer
    → Option SocketInfo
    → Option (ℕ × (MemoryBuffer × Option SocketInfo))
recv_buffer_from recvfrom b info = elim (recvfrom b.size) [
  | Received.failed e ↦ none
  | Received.got bytes addr ↦ some (length bytes, (received_into b bytes, from_sender info addr))
]

-- `Socket::send(MemoryBuffer&)`.
unfoldable pub send_buffer : (List ℕ → IoResult) → MemoryBuffer → Option ℕ
send_buffer send b = elim (send (contents b)) [
  | IoResult.failed e ↦ none
  | IoResult.count n ↦ some n
]

-- `Socket::send_to(MemoryBuffer&, SocketInfo&)`: what was sent becomes the size of the buffer.
unfoldable pub send_buffer_to :
    (List ℕ → Sockaddr → IoResult) → MemoryBuffer → SocketInfo → Option (ℕ × MemoryBuffer)
unfolding to
send_buffer_to sendto b info = elim (sendto (contents b) (to info)) [
  | IoResult.failed e ↦ none
  | IoResult.count n ↦ some (n, set_size b n)
]
