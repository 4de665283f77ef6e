-- ===== src/Examples/Wires.antt =====
-- Addresses and replies as bytes.
use sockspp.Base.{◌≡◌, arith, Mem, of_bytes, false, none, some, [], ◌∷◌, ◌≤◌, slice}
use sockspp.Core.Enums.{
  AddrType, Command, Reply, AuthMethod, same_method, addr_type_byte, auth_method_byte, reply_byte,
}
use sockspp.Core.S5.{get_type, get_size, get_port, get_address, message_address, message_size}
use sockspp.Core.S5.Layout.{fill, IsRoutable}
use sockspp.System.{Call, IoResult}
use sockspp.Session.{World, State, ok}
use sockspp.Session.Calls.{to_bool}
use sockspp.Examples.{zeros, two_taken, some_info, session_in, world_of}
use sockspp.Core.S5.Fields.{address_back, message_size-le}
use sockspp.Session.Client.{send_reply}
use sockspp.Session.Client.Wire.{wire_reply, send_reply_lem}

-- A name of three bytes, after its length.
abbrev name : Mem
name = of_bytes (3 ∷ 97 ∷ 98 ∷ 99 ∷ []) zeros

abbrev written : Mem
written = fill zeros 2 AddrType.domain_name name 0 8080 false

address_back_example :
    (get_type written 2 ≡ AddrType.domain_name)
    × (get_size written 2 ≡ 7)
    × (slice written (get_address 2) 4 ≡ slice name 0 4)
    × (get_port written 2 ≡ 8080)
    × (slice written 0 2 ≡ slice zeros 0 2)
address_back_example = address_back zeros 2 name 0 8080 false IsRoutable.domain_name (omega arith)

message_size-le_example : message_size written 0 ≤ 262
unfolding sockspp.Core.S5.set_port sockspp.Core.Enums.to_addr_type sockspp.Core.S5.set_address
    sockspp.Core.S5.set_type addr_type_byte
message_size-le_example = message_size-le written 0 (omega arith)

abbrev ready : World
ready = world_of (session_in State.authenticated none none)

send_reply_lem_example :
    send_reply two_taken Reply.success AddrType.ipv4 some_info.ip 0 80 ready
    ≡ ok (
      to_bool (IoResult.count 2),
      record ready {
        log = Call.send (some 3) (wire_reply 0 Reply.success AddrType.ipv4 some_info.ip 0 80) ∷ [];
      },
    )
send_reply_lem_example =
    send_reply_lem two_taken ready Reply.success some_info.ip 0 80 IsRoutable.ipv4 (omega arith)
