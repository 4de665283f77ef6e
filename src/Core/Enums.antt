-- ===== src/Core/Enums.antt =====
-- src/core/src/sockspp/core/s5_enums.hpp. A C++ `enum class : uint8_t` holds any byte, since the
-- code makes its values by `static_cast`: `other` is a byte that has no enumerator.
use sockspp.Base.{ℕ, ◌≡◌, arith, ◌==◌, if◌then◌else◌, Bool}

pub data AuthMethod : Type 0 where
  no_auth user_pass invalid : AuthMethod
  other : ℕ → AuthMethod

pub data AddrType : Type 0 where
  ipv4 domain_name ipv6 invalid : AddrType
  other : ℕ → AddrType

pub data Command : Type 0 where
  connect bind udp_associate invalid : Command
  other : ℕ → Command

pub data Reply : Type 0 where
  success general_failure not_allowed unreachable host_unreachable connection_refused : Reply
  ttl_expired command_not_supported addr_type_not_supported invalid : Reply
  other : ℕ → Reply

-- The two directions of each `static_cast`.
unfoldable pub auth_method_byte : AuthMethod → ℕ
auth_method_byte AuthMethod.no_auth = 0
auth_method_byte AuthMethod.user_pass = 2
auth_method_byte AuthMethod.invalid = 255
auth_method_byte (AuthMethod.other b) = b

unfoldable pub to_auth_method : ℕ → AuthMethod
to_auth_method b =
    if b == 0
    then AuthMethod.no_auth
    else if b == 2
    then AuthMethod.user_pass
    else if b == 255
    then AuthMethod.invalid
    else AuthMethod.other b

unfoldable pub addr_type_byte : AddrType → ℕ
addr_type_byte AddrType.ipv4 = 1
addr_type_byte AddrType.domain_name = 3
addr_type_byte AddrType.ipv6 = 4
addr_type_byte AddrType.invalid = 255
addr_type_byte (AddrType.other b) = b

unfoldable pub to_addr_type : ℕ → AddrType
to_addr_type b =
    if b == 1
    then AddrType.ipv4
    else if b == 3
    then AddrType.domain_name
    else if b == 4
    then AddrType.ipv6
    else if b == 255
    then AddrType.invalid
    else AddrType.other b

unfoldable pub command_byte : Command → ℕ
command_byte Command.connect = 1
command_byte Command.bind = 2
command_byte Command.udp_associate = 3
command_byte Command.invalid = 255
command_byte (Command.other b) = b

unfoldable pub to_command : ℕ → Command
to_command b =
    if b == 1
    then Command.connect
    else if b == 2
    then Command.bind
    else if b == 3
    then Command.udp_associate
    else if b == 255
    then Command.invalid
    else Command.other b

unfoldable pub reply_byte : Reply → ℕ
reply_byte Reply.success = 0
reply_byte Reply.general_failure = 1
reply_byte Reply.not_allowed = 2
reply_byte Reply.unreachable = 3
reply_byte Reply.host_unreachable = 4
reply_byte Reply.connection_refused = 5
reply_byte Reply.ttl_expired = 6
reply_byte Reply.command_not_supported = 7
reply_byte Reply.addr_type_not_supported = 8
reply_byte Reply.invalid = 255
reply_byte (Reply.other b) = b

unfoldable pub to_reply : ℕ → Reply
to_reply b =
    if b == 0
    then Reply.success
    else if b == 1
    then Reply.general_failure
    else if b == 2
    then Reply.not_allowed
    else if b == 3
    then Reply.unreachable
    else if b == 4
    then Reply.host_unreachable
    else if b == 5
    then Reply.connection_refused
    else if b == 6
    then Reply.ttl_expired
    else if b == 7
    then Reply.command_not_supported
    else if b == 8
    then Reply.addr_type_not_supported
    else if b == 255
    then Reply.invalid
    else Reply.other b

-- `method == auth_method`, `reply == Reply::Success`: a comparison of the underlying bytes.
unfoldable pub same_method : AuthMethod → AuthMethod → Bool
same_method a b = auth_method_byte a == auth_method_byte b

unfoldable pub is_success : Reply → Bool
is_success r = reply_byte r == 0

-- The casts lose nothing, whatever byte the wire holds.
pub addr_type_byte-to_addr_type : (b : ℕ) → addr_type_byte (to_addr_type b) ≡ b
unfolding addr_type_byte to_addr_type
addr_type_byte-to_addr_type b = ground arith
