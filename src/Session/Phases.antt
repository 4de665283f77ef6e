-- ===== src/Session/Phases.antt =====
-- The states of a session as its protocol: which state an event may lead to, whatever the system
-- answers. The handlers are those of src/server/src/sockspp/server/session.cxx.
pub mod Handshake
pub mod Attempts
pub mod Commands
pub mod Clients
pub mod Requests
pub mod Relaying
pub mod Remotes
pub mod Received
pub mod Traces
pub mod Runs
pub mod Begins
pub mod Waiting
pub mod Stable
use sockspp.Base.{◌≡◌, refl, Bool, true, false, List, []}
use sockspp.Session.{M, ◌>>=◌, World, State, Outcome, ok, fault}

-- One step of the protocol.
pub data Moves : State → State → Type 0 where
  stays : {s : State} → Moves s s
  admits : Moves State.accepted State.authenticated
  asks_login : Moves State.accepted State.auth_requested
  logs_in : Moves State.auth_requested State.authenticated
  resolves : Moves State.authenticated State.resolving_domain_name
  connects : Moves State.authenticated State.connecting_remote
  associates : Moves State.authenticated State.associated
  connects_resolved : Moves State.resolving_domain_name State.connecting_remote
  associates_resolved : Moves State.resolving_domain_name State.associated
  establishes : Moves State.connecting_remote State.connected

-- What holds of the state that a handler leaves behind when the session goes on.
abbrev pub Settles : (State → Type 0) → Outcome (Bool × World) → Type 0
Settles P (fault f) = Unit
Settles P (ok (false, w)) = Unit
Settles P (ok (true, w)) = P w.session.state

-- What holds of a step's result and of the state after it.
abbrev pub Leaves : {A : Type 0} → (A → State → Type 0) → Outcome (A × World) → Type 0
Leaves P (fault f) = Unit
Leaves P (ok (a, w)) = P a w.session.state

module _ {A B : Type 0} (P : A → State → Type 0) (Q : B → State → Type 0) (f : A → M B) where
  Leaves-outcome :
      (o : Outcome (A × World))
      → Leaves P o
      → ((a : A) (w : World) → P a w.session.state → Leaves Q (f a w))
      → Leaves Q (elim o [ fault e ↦ fault e | ok (a, w) ↦ f a w ])
  Leaves-outcome (fault e) h k = tt
  Leaves-outcome (ok (a, w)) h k = k a w h

  pub Leaves-bind :
      (m : M A) (w : World)
      → Leaves P (m w)
      → ((a : A) (w' : World) → P a w'.session.state → Leaves Q (f a w'))
      → Leaves Q ((m >>= f) w)
  Leaves-bind m w h k = Leaves-outcome (m w) h k

module _ {A : Type 0} (P : A → State → Type 0) (Q : State → Type 0) (f : A → M Bool) where
  Settles-outcome :
      (o : Outcome (A × World))
      → Leaves P o
      → ((a : A) (w : World) → P a w.session.state → Settles Q (f a w))
      → Settles Q (elim o [ fault e ↦ fault e | ok (a, w) ↦ f a w ])
  Settles-outcome (fault e) h k = tt
  Settles-outcome (ok (a, w)) h k = k a w h

  pub Settles-bind :
      (m : M A) (w : World)
      → Leaves P (m w)
      → ((a : A) (w' : World) → P a w'.session.state → Settles Q (f a w'))
      → Settles Q ((m >>= f) w)
  Settles-bind m w h k = Settles-outcome (m w) h k

pub Settles-weaken :
    (P Q : State → Type 0) (o : Outcome (Bool × World))
    → Settles P o
    → ((s : State) → P s → Q s)
    → Settles Q o
Settles-weaken P Q (fault f) h k = tt
Settles-weaken P Q (ok (false, w)) h k = tt
Settles-weaken P Q (ok (true, w)) h k = k w.session.state h
