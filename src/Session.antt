-- ===== src/Session.antt =====
-- The data of a session: src/server/src/sockspp/server/session.hpp, and the socket classes that it
-- owns (client_socket.hpp, remote_socket.hpp, udp_socket.hpp, dns_socket.hpp).
pub mod Calls
pub mod Client
pub mod Auth
pub mod Remote
pub mod Udp
pub mod Relay
pub mod Request
pub mod Execute
pub mod Dns
pub mod Events
pub mod Run
pub mod Teardown
pub mod Valid
pub mod Phases
use sockspp.Base.{ℕ, Bool, Option, none, some, List, [], ◌∷◌, Mem}
use sockspp.Core.Enums.{Command}
use sockspp.Core.MemoryBuffer.{MemoryBuffer, null_buffer}
use sockspp.Core.SocketInfo.{SocketInfo}
use sockspp.Core.IpAddress.{IpAddress}
use sockspp.System.{Call, Fd}

-- `Session::State`.
pub data State : Type 0 where
  accepted auth_requested authenticated resolving_domain_name connecting_remote : State
  connected associated invalid : State

-- `_addresses` is the vector that the socket owns, `none` the null pointer; `_connecting_idx` is
-- a `size_t`.
pub record RemoteSocket : Type 0 where
  pub fd : Fd
  pub remote_info : SocketInfo
  pub addresses : Option (List IpAddress)
  pub connecting_idx : ℕ
  pub is_connected : Bool

-- `_port_maps` is a map from remote ports to client ports, both in network order.
pub record UdpSocket : Type 0 where
  pub fd : Fd
  pub port_maps : List (ℕ × ℕ)
  pub client_info : SocketInfo

pub record DnsSocket : Type 0 where
  pub fd : Fd
  pub domain_name : List ℕ
  pub port : ℕ

pub record Session : Type 0 where
  pub state : State
  pub command : Command
  pub client_socket : Fd
  pub remote_socket : Option RemoteSocket
  pub udp_socket : Option UdpSocket
  pub dns_sockets : List DnsSocket
  pub domain_name : List ℕ
  pub client_buffer : MemoryBuffer
  pub remote_buffer : MemoryBuffer
  pub peer_info : SocketInfo

-- Why the process stops in the middle of an event: an exception that nothing catches, or an
-- access that C++ leaves undefined.
pub data Fault : Type 0 where
  null_pointer out_of_range oversized_copy overlapping_copy : Fault
  socket_creation no_peer_name no_sock_name invalid_ip_address dns_message : Fault

pub data Outcome {ℓ} (A : Type ℓ) : Type ℓ where
  ok : A → Outcome A
  fault : Fault → Outcome A

-- A session and the log of the calls that were made, newest first.
pub record World : Type 0 where
  pub session : Session
  pub log : List Call

abbrev pub M : Type 0 → Type 0
M A = World → Outcome (A × World)

abbrev pub pure : {A : Type 0} → A → M A
pure a w = ok (a, w)

abbrev pub raise : {A : Type 0} → Fault → M A
raise f w = fault f

infixl 5 ◌>>=◌ ◌>>◌
abbrev pub ◌>>=◌ : {A B : Type 0} → M A → (A → M B) → M B
◌>>=◌ m f w = elim (m w) [ fault e ↦ fault e | ok (a, w') ↦ f a w' ]

abbrev pub ◌>>◌ : {A B : Type 0} → M A → M B → M B
m >> k = m >>= λ _. k

-- The session as it stands, a new session, and one more call.
abbrev pub get : M Session
get w = ok (w.session, w)

abbrev pub put : Session → M (Unit {0})
put s w = ok (tt, record w { session = s })

abbrev pub call : Call → M (Unit {0})
call c w = ok (tt, record w { log = c ∷ w.log })

abbrev pub get_log : M (List Call)
get_log w = ok (w.log, w)

-- `value.at(i)` and the like: a missing value is a fault.
abbrev pub expect : {A : Type 0} → Fault → Option A → M A
expect f none = raise f
expect f (some a) = pure a
