-- ===== src/Core/S5.antt =====
-- src/core/src/sockspp/core/s5.cxx and s5.hpp: SOCKS5 addresses and messages as views of memory.
-- An `S5Address` or an `S5R_Base` is a pointer; here it is the array and the index that it points
-- to, and a setter returns the array after the write.
pub mod Layout
pub mod Fields
use sockspp.Base.{
  ℕ, ◌+◌, ◌-◌, ◌%◌, ◌≡◌, Mem, write, copy, load16, store16, htons, Bool, true, false, if◌then◌else◌,
  ◌==◌,
}
use sockspp.Core.Enums.{
  AddrType, Command, Reply, to_addr_type, addr_type_byte, to_command, command_byte, to_reply,
  reply_byte,
}

-- The wire byte of the address type, and the two views that are given by arithmetic alone.
unfoldable pub get_type : Mem → ℕ → AddrType
get_type m p = to_addr_type (m p)

unfoldable pub set_type : Mem → ℕ → AddrType → Mem
set_type m p t = write m p (addr_type_byte t)

unfoldable pub get_address : ℕ → ℕ
get_address p = p + 1

-- The `switch` of `S5Address::get_size`; `len` is `address[0]`.
unfoldable pub size_of : AddrType → ℕ → ℕ
size_of AddrType.ipv4 len = 7
size_of AddrType.ipv6 len = 19
size_of AddrType.domain_name len = len + 4
size_of AddrType.invalid len = 0
size_of (AddrType.other b) len = 0

unfoldable pub get_size : Mem → ℕ → ℕ
unfolding get_type get_address size_of
get_size m p = size_of (get_type m p) (m (get_address p))

unfoldable pub get_port : Mem → ℕ → ℕ
unfolding get_size
get_port m p = let size = get_size m p in if size == 0 then 0 else htons (load16 m (p + size - 2))

-- `netport` says that `port` is in network order already.
unfoldable pub set_port : Mem → ℕ → ℕ → Bool → Mem
unfolding get_size
set_port m p port netport =
    let size = get_size m p in
    if size == 0 then m else store16 m (p + size - 2) (if netport then port else htons port)

-- The `switch` of `S5Address::set_address`, from `address = s + q`.
unfoldable pub set_address_of : AddrType → Mem → ℕ → Mem → ℕ → Mem
unfolding get_address
set_address_of AddrType.ipv4 m p s q = copy m (get_address p) s q 4
set_address_of AddrType.ipv6 m p s q = copy m (get_address p) s q 16
set_address_of AddrType.domain_name m p s q =
    let port = get_port m p in set_port (copy m (get_address p) s q (s q + 1)) p port false
set_address_of AddrType.invalid m p s q = m
set_address_of (AddrType.other b) m p s q = m

unfoldable pub set_address : Mem → ℕ → Mem → ℕ → Mem
unfolding set_address_of get_type
set_address m p s q = set_address_of (get_type m p) m p s q

-- `S5R_Base`: three bytes, then an address.
unfoldable pub message_address : ℕ → ℕ
message_address p = p + 3

unfoldable pub message_size : Mem → ℕ → ℕ
unfolding get_size message_address
message_size m p = get_size m (message_address p) + 3

unfoldable pub set_version : Mem → ℕ → ℕ → Mem
set_version m p version = write m p version

unfoldable pub get_command : Mem → ℕ → Command
get_command m p = to_command (m (p + 1))

unfoldable pub set_command : Mem → ℕ → Command → Mem
set_command m p c = write m (p + 1) (command_byte c)

unfoldable pub get_reply : Mem → ℕ → Reply
get_reply m p = to_reply (m (p + 1))

unfoldable pub set_reply : Mem → ℕ → Reply → Mem
set_reply m p r = write m (p + 1) (reply_byte r)
