-- ===== src/Core/Socket/Ownership.antt =====
-- Who holds a descriptor: the objects of class `Socket` (src/core/src/sockspp/core/socket.hpp and
-- socket.cxx) in the order in which they were constructed, and the descriptors that `close` gave
-- back to the system. `none` is -1, which is what an object without a descriptor has.
pub mod Account
use sockspp.Base.{ℕ, zero, suc, length, get_or, none, some, List, [], ◌∷◌, ◌++◌}
use sockspp.System.{Fd}

pub record Owners : Type 0 where
  pub sockets : List Fd
  pub closed : List ℕ

abbrev pub fd_at : Owners → ℕ → Fd
fd_at p i = get_or p.sockets i none

abbrev pub put : List Fd → ℕ → Fd → List Fd
put [] i fd = []
put (x ∷ xs) zero fd = fd ∷ xs
put (x ∷ xs) (suc i) fd = x ∷ put xs i fd

abbrev pub set_fd : ℕ → Fd → Owners → Owners
set_fd i fd p = record p { sockets = put p.sockets i fd }

-- `Socket(int fd)`, with which `open_tcp`, `open_udp` and `accept` return what the system opened.
abbrev pub from_fd : Fd → Owners → Owners
from_fd fd p = record p { sockets = p.sockets ++ fd ∷ [] }

-- `Socket(Socket&& other)`: the new object takes the descriptor.
abbrev pub move_construct : ℕ → Owners → Owners
move_construct other p = set_fd other none (from_fd (fd_at p other) p)

-- `Socket::detach`: the caller gets the descriptor.
abbrev pub detach : ℕ → Owners → Owners
detach i p = set_fd i none p

-- `operator=(Socket&& other)`: the argument is evaluated first, and the descriptor that the object
-- had is overwritten.
abbrev pub assign : ℕ → ℕ → Owners → Owners
assign i other p = set_fd i (fd_at p other) (detach other p)

abbrev pub close_fd : Fd → List ℕ → List ℕ
close_fd none closed = closed
close_fd (some fd) closed = fd ∷ closed

-- `Socket::close`.
abbrev pub close_socket : ℕ → Owners → Owners
close_socket i p = set_fd i none (record p { closed = close_fd (fd_at p i) p.closed })

-- `~Socket`.
abbrev pub destroy_socket : ℕ → Owners → Owners
destroy_socket i p = close_socket i p

-- `~SessionSocket` (src/server/src/sockspp/server/session_socket.hpp) closes its socket, whose own
-- destructor runs next.
abbrev pub destroy_session_socket : ℕ → Owners → Owners
destroy_session_socket i p = destroy_socket i (close_socket i p)

pub data Op : Type 0 where
  constructs : Fd → Op
  moves : ℕ → Op
  assigns : ℕ → ℕ → Op
  detaches closes destroys destroys_session_socket : ℕ → Op

unfoldable pub step : Op → Owners → Owners
step (constructs fd) p = from_fd fd p
step (moves other) p = move_construct other p
step (assigns i other) p = assign i other p
step (detaches i) p = detach i p
step (closes i) p = close_socket i p
step (destroys i) p = destroy_socket i p
step (destroys_session_socket i) p = destroy_session_socket i p

abbrev pub run : List Op → Owners → Owners
run [] p = p
run (op ∷ ops) p = run ops (step op p)

-- The end of a scope: the last object that was constructed is destroyed first.
abbrev pub destroy_all : ℕ → Owners → Owners
destroy_all zero p = p
destroy_all (suc n) p = destroy_all n (destroy_socket n p)

abbrev pub end_of_scope : Owners → Owners
end_of_scope p = destroy_all (length p.sockets) p

abbrev pub nobody : Owners
nobody = record { sockets = []; closed = [] }
