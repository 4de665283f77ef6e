-- ===== src/Session/Valid.antt =====
-- The invariant of a session: what its state says about the sockets that it owns, as the handlers
-- of src/server/src/sockspp/server/session.cxx rely on it.
pub mod Relaying
pub mod Remote
pub mod Lifetime
pub mod Answers
pub mod Clients
pub mod Remotes
pub mod Events
pub mod Requests
pub mod Commands
pub mod Handshake
use sockspp.Base.{
  ℕ, ◌<◌, ◌≤◌, ◌≡◌, refl, arith, length, Bool, true, false, not, Option, none, some, List, [], ◌∷◌,
}
use sockspp.Core.MemoryBuffer.{MemoryBuffer}
use sockspp.Session.{
  M, ◌>>=◌, World, State, Session, RemoteSocket, UdpSocket, Fault, Outcome, ok, fault,
}
use sockspp.Session.Udp.{buffer_size}

-- A remote socket that is at one of its addresses.
abbrev pub Tries : RemoteSocket → Type 0
Tries r = elim r.addresses [
  | none ↦ ⊥
  | some as' ↦ (r.connecting_idx < length as') × (r.is_connected ≡ false)
]

-- There is a remote socket exactly in the last three states: one that tries its addresses, or one
-- that is connected.
abbrev pub RemoteFits : State → Option RemoteSocket → Type 0
RemoteFits State.connecting_remote none = ⊥
RemoteFits State.connecting_remote (some r) = Tries r
RemoteFits State.connected none = ⊥
RemoteFits State.connected (some r) = r.is_connected ≡ true
RemoteFits State.associated none = ⊥
RemoteFits State.associated (some r) = r.is_connected ≡ true
RemoteFits _ none = Unit
RemoteFits _ (some r) = ⊥

-- There is a UDP socket exactly in an association.
abbrev pub UdpFits : State → Option UdpSocket → Type 0
UdpFits State.associated none = ⊥
UdpFits State.associated (some u) = Unit
UdpFits _ none = Unit
UdpFits _ (some u) = ⊥

-- A session asks for one name at most: before its request it has no query, and while the name is
-- being resolved it has one.
abbrev pub QueriesFit : State → ℕ → Type 0
QueriesFit State.resolving_domain_name n = n ≡ 1
QueriesFit State.connecting_remote n = n ≤ 1
QueriesFit State.connected n = n ≤ 1
QueriesFit State.associated n = n ≤ 1
QueriesFit _ n = n ≡ 0

-- What waits for a socket fits into the array that it stands in.
abbrev pub Waits : MemoryBuffer → Type 0
Waits b = elim b.ptr [
  | none ↦ b.size ≡ 0
  | some m ↦ (b.capacity ≡ buffer_size) × (b.size ≤ buffer_size)
]

-- Nothing waits in a session that owns no remote socket.
abbrev pub IdleWaits : Session → Type 0
IdleWaits s = elim s.remote_socket [
  | none ↦ (s.client_buffer.size ≡ 0) × (s.remote_buffer.size ≡ 0)
  | some r ↦ Unit
]

pub record IsValid (s : Session) : Type 0 where
  pub remote_fits : RemoteFits s.state s.remote_socket
  pub udp_fits : UdpFits s.state s.udp_socket
  pub few_queries : QueriesFit s.state (length s.dns_sockets)
  pub client_waits : Waits s.client_buffer
  pub remote_waits : Waits s.remote_buffer
  pub idle_waits : IdleWaits s

-- The faults that a handler may have. An index of a vector is never out of range; a null pointer, and a memcpy
-- of a negative size or of regions that overlap, are met only where the flag says so. The others are
-- exceptions.
abbrev pub tolerated : Bool → Fault → Bool
tolerated risky Fault.null_pointer = risky
tolerated risky Fault.out_of_range = false
tolerated risky Fault.oversized_copy = risky
tolerated risky Fault.overlapping_copy = risky
tolerated risky Fault.socket_creation = true
tolerated risky Fault.no_peer_name = true
tolerated risky Fault.no_sock_name = true
tolerated risky Fault.invalid_ip_address = true
tolerated risky Fault.dns_message = true

-- A session that goes on is valid.
abbrev pub Keeps : Bool → Outcome (Bool × World) → Type 0
Keeps risky (fault f) = tolerated risky f ≡ true
Keeps risky (ok (false, w)) = Unit
Keeps risky (ok (true, w)) = IsValid w.session

-- The session is valid whatever the result says.
abbrev pub Stays : Outcome (Bool × World) → Type 0
Stays (fault f) = tolerated false f ≡ true
Stays (ok (b, w)) = IsValid w.session

-- What holds of a step's result and of the world that it leaves, if it does not fault.
abbrev pub After : {A : Type 0} → Bool → (A → World → Type 0) → Outcome (A × World) → Type 0
After risky P (fault f) = tolerated risky f ≡ true
After risky P (ok (a, w)) = P a w

-- The next step starts from what the one before it left.
module _ {A B : Type 0} (risky : Bool) (P : A → World → Type 0) (Q : B → World → Type 0)
    (f : A → M B) where
  After-outcome :
      (o : Outcome (A × World))
      → After risky P o
      → ((a : A) (w : World) → P a w → After risky Q (f a w))
      → After risky Q (elim o [ fault e ↦ fault e | ok (a, w) ↦ f a w ])
  After-outcome (fault e) h k = h
  After-outcome (ok (a, w)) h k = k a w h

  pub After-bind :
      (m : M A) (w : World)
      → After risky P (m w)
      → ((a : A) (w' : World) → P a w' → After risky Q (f a w'))
      → After risky Q ((m >>= f) w)
  After-bind m w h k = After-outcome (m w) h k

-- What tolerates less holds of what tolerates more.
pub tolerate : (o : Outcome (Bool × World)) → Keeps false o → Keeps true o
tolerate (fault f) h = ground arith
tolerate (ok (false, w)) h = tt
tolerate (ok (true, w)) h = h

pub Stays-Keeps : (o : Outcome (Bool × World)) → Stays o → Keeps false o
Stays-Keeps (fault f) h = h
Stays-Keeps (ok (false, w)) h = tt
Stays-Keeps (ok (true, w)) h = h

module _ {A : Type 0} (risky : Bool) (P : A → World → Type 0) (f : A → M Bool) where
  Keeps-outcome :
      (o : Outcome (A × World))
      → After risky P o
      → ((a : A) (w : World) → P a w → Keeps risky (f a w))
      → Keeps risky (elim o [ fault e ↦ fault e | ok (a, w) ↦ f a w ])
  Keeps-outcome (fault e) h k = h
  Keeps-outcome (ok (a, w)) h k = k a w h

  pub Keeps-bind :
      (m : M A) (w : World)
      → After risky P (m w)
      → ((a : A) (w' : World) → P a w' → Keeps risky (f a w'))
      → Keeps risky ((m >>= f) w)
  Keeps-bind m w h k = Keeps-outcome (m w) h k

pub weaken : (risky : Bool) (o : Outcome (Bool × World)) → Keeps false o → Keeps risky o
weaken false o h = h
weaken true o h = tolerate o h
