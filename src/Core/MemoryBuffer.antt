-- ===== src/Core/MemoryBuffer.antt =====
-- src/core/src/sockspp/core/memory_buffer.hpp. `none` is the null pointer.
use sockspp.Base.{
  ℕ, ◌≤◌, ◌≡◌, arith, Mem, copy, slice, slice_ext, Option, none, some, List, ltb, if◌then◌else◌,
}

pub record MemoryBuffer : Type 0 where
  pub ptr : Option Mem
  pub size : ℕ
  pub capacity : ℕ

abbrev pub null_buffer : MemoryBuffer
null_buffer = record { ptr = none; size = 0; capacity = 0 }

-- The array behind the pointer; there is nothing behind the null pointer, whose size is 0.
abbrev pub mem_of : Option Mem → Mem
mem_of none i = 0
mem_of (some m) i = m i

-- The bytes of a buffer.
unfoldable pub contents : MemoryBuffer → List ℕ
contents b = slice (mem_of b.ptr) 0 b.size

abbrev pub set_size : MemoryBuffer → ℕ → MemoryBuffer
set_size b n = record b { size = n }

abbrev pub write_ptr : Option Mem → Mem → ℕ → ℕ → Option Mem
write_ptr none s q n = none
write_ptr (some m) s q n = some (copy m 0 s q n)

unfoldable pub copy_size : MemoryBuffer → ℕ → ℕ
copy_size b size = if ltb size b.capacity then size else b.capacity

-- `copy_from(ptr, size)` with `ptr = s + q`: at most `capacity` bytes are taken.
unfoldable pub copy_from : MemoryBuffer → Mem → ℕ → ℕ → MemoryBuffer
copy_from b s q size =
    let n = copy_size b size in record b { ptr = write_ptr b.ptr s q n; size = n }

-- `n` bytes copied to the front of an array are the bytes at its front.
pub slice-copy : (m s : Mem) (q n : ℕ) → slice (copy m 0 s q n) 0 n ≡ slice s q n
slice-copy m s q n = slice_ext (copy m 0 s q n) s 0 q n (λ i lt. ground arith)

copy_size_fits : (b : MemoryBuffer) (size : ℕ) → size ≤ b.capacity → copy_size b size ≡ size
unfolding copy_size
copy_size_fits b size h = ground arith

-- What fits is copied whole.
pub contents-copy_from :
    (m : Mem) (b : MemoryBuffer) (s : Mem) (q size : ℕ)
    → b.ptr ≡ some m
    → size ≤ b.capacity
    → contents (copy_from b s q size) ≡ slice s q size
unfolding contents copy_from
contents-copy_from m b s q size e h = rw (copy_size_fits b size h, e) (slice-copy m s q size)
