-- ===== src/Examples.antt =====
-- Concrete systems, sessions and servers for the runs of the examples.
pub mod Owners
pub mod Login
pub mod Streams
pub mod Remotes
pub mod Datagrams
pub mod Servers
pub mod Wires
pub mod Associations
pub mod Names
pub mod Programs
pub mod Startup
pub mod Setup
pub mod Texts
pub mod Invariants
pub mod Tunnels
pub mod Exchanges
use sockspp.Base.{
  ℕ, ◌≡◌, refl, arith, Mem, of_bytes, length, Bool, true, false, Option, none, some, List, [], ◌∷◌,
  if◌then◌else◌, ◌==◌, inl, inr,
}
use sockspp.Core.Enums.{Command}
use sockspp.Core.MemoryBuffer.{MemoryBuffer, null_buffer}
use sockspp.Core.SocketInfo.{Sockaddr, SocketInfo, Family, ipv4}
use sockspp.Core.IpAddress.{IpAddress}
use sockspp.Core.Event.{Flags, only_read}
use sockspp.System.{Call, Platform, Os, IoResult, Received, Answer}
use sockspp.Server.Params.{ServerParams}
use sockspp.Session.{World, Session, State, RemoteSocket, UdpSocket}
use sockspp.Server.Loop.{Server}

abbrev pub zeros : Mem
zeros i = 0

-- A host at 10.0.0.1, port 80.
abbrev pub host : Sockaddr
host = record { family = Family.inet; addr = 10 ∷ 0 ∷ 0 ∷ 1 ∷ []; port = 20480 }

-- A system in which every call of one kind has the same answer.
abbrev pub steady : IoResult → (List Call → Received) → Platform
steady result received = record {
  os = record {
    opened = λ log. some 7;
    result = λ log. result;
    received = received;
    name = λ log. some host;
    garbage = λ log. zeros;
  };
  dns_lib = record { encode_query = λ name. some name; decode = λ bytes. none };
  inet_pton = record { v4 = λ text. none; v6 = λ text. none };
}

abbrev pub two_taken : Platform
two_taken = steady (IoResult.count 2) (λ log. Received.got (1 ∷ []) host)

-- A server with a user name and a password.
abbrev pub secret_params : ServerParams
secret_params = record {
  listen_ip = [];
  listen_port = 1080;
  username = 97 ∷ [];
  password = 98 ∷ [];
  dns_ip = [];
  dns_port = 53;
  client_tcp_nodelay = true;
  client_tcp_keepalive = false;
  remote_tcp_nodelay = true;
  remote_tcp_keepalive = false;
}

abbrev pub some_info : SocketInfo
some_info = record { ip = of_bytes (10 ∷ 0 ∷ 0 ∷ 1 ∷ []) zeros; port = 20480; ip_version = ipv4 }

-- A session in a state, with the remote and the UDP socket that it has.
abbrev pub session_in : State → Option RemoteSocket → Option UdpSocket → Session
session_in state remote udp = record {
  state = state;
  command = Command.connect;
  client_socket = some 3;
  remote_socket = remote;
  udp_socket = udp;
  dns_sockets = [];
  domain_name = [];
  client_buffer = null_buffer;
  remote_buffer = null_buffer;
  peer_info = some_info;
}

abbrev pub world_of : Session → World
world_of s = record { session = s; log = [] }

-- A remote socket that is connected, and one with two addresses still to try.
abbrev pub address_at : ℕ → IpAddress
address_at n = record { storage = of_bytes (10 ∷ 0 ∷ 0 ∷ n ∷ []) zeros; port = 80; version = ipv4 }

abbrev pub connected_remote : RemoteSocket
connected_remote = record {
  fd = some 5;
  remote_info = some_info;
  addresses = none;
  connecting_idx = 0;
  is_connected = true;
}

abbrev pub trying_remote : ℕ → List IpAddress → RemoteSocket
trying_remote idx list = record {
  fd = some 5;
  remote_info = some_info;
  addresses = some list;
  connecting_idx = idx;
  is_connected = false;
}

abbrev pub some_udp : UdpSocket
some_udp = record { fd = some 6; port_maps = []; client_info = some_info }

abbrev pub buffer_of : List ℕ → MemoryBuffer
buffer_of bytes = record { ptr = some (of_bytes bytes zeros); size = length bytes; capacity = 8192 }

abbrev pub server_with : List (ℕ × Session) → Server
server_with sessions = record { socket = some 4; sessions = sessions; next_id = 9; log = [] }
