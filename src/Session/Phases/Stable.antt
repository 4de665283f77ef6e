-- ===== src/Session/Phases/Stable.antt =====
-- The sockets that events find: a handler of src/server/src/sockspp/server/session.cxx that lets
-- the session go on takes away no socket that another event of the same poll is for.
use mathlib.Core.Path.{subst}
use sockspp.Base.{ℕ, ◌≡◌, ◌≢◌, refl, arith, length, Bool, true, false, Option, none, some}
use sockspp.Core.Event.{Flags}
use sockspp.System.{Platform}
use sockspp.Server.Params.{ServerParams}
use sockspp.Session.{World, Session, State, RemoteSocket, UdpSocket, Outcome, ok, fault}
use sockspp.Session.Run.{Event, client, remote, udp, dns, process_event}
use sockspp.Session.Valid.{IsValid, RemoteFits, UdpFits}
use sockspp.Session.Valid.Events.{IsEnabled, is_risky, process_event-Keeps}
use sockspp.Session.Phases.{Settles, Moves}
use sockspp.Session.Phases.Traces.{process_event-Moves}
use sockspp.Session.Phases.Waiting.{client_waits}
use sockspp.Session.Phases.Runs.{IsValid-after}

-- Events of two DNS queries are not of the same one.
abbrev pub Differ : Event → Event → Type 0
Differ (dns _ i) (dns _ j) = i ≢ j
Differ _ _ = Unit

pub settled :
    (P : State → Type 0) (o : Outcome (Bool × World)) (w : World)
    → Settles P o
    → o ≡ ok (true, w)
    → P w.session.state
settled P o w h e = subst (Settles P) e h

no_remote_lost :
    (s t : State) (r : RemoteSocket) → Moves s t → RemoteFits s (some r) → RemoteFits t none → ⊥
no_remote_lost s t r Moves.stays f g = ground arith
no_remote_lost s t r Moves.admits f g = elim f [ ]
no_remote_lost s t r Moves.asks_login f g = elim f [ ]
no_remote_lost s t r Moves.logs_in f g = elim f [ ]
no_remote_lost s t r Moves.resolves f g = elim f [ ]
no_remote_lost s t r Moves.connects f g = elim f [ ]
no_remote_lost s t r Moves.associates f g = elim f [ ]
no_remote_lost s t r Moves.connects_resolved f g = elim f [ ]
no_remote_lost s t r Moves.associates_resolved f g = elim f [ ]
no_remote_lost s t r Moves.establishes f g = ground arith

no_udp_lost : (s t : State) (u : UdpSocket) → Moves s t → UdpFits s (some u) → UdpFits t none → ⊥
no_udp_lost s t u Moves.stays f g = ground arith
no_udp_lost s t u Moves.admits f g = elim f [ ]
no_udp_lost s t u Moves.asks_login f g = elim f [ ]
no_udp_lost s t u Moves.logs_in f g = elim f [ ]
no_udp_lost s t u Moves.resolves f g = elim f [ ]
no_udp_lost s t u Moves.connects f g = elim f [ ]
no_udp_lost s t u Moves.associates f g = elim f [ ]
no_udp_lost s t u Moves.connects_resolved f g = elim f [ ]
no_udp_lost s t u Moves.associates_resolved f g = elim f [ ]
no_udp_lost s t u Moves.establishes f g = ground arith

remote_stays :
    (s t : State) (r : RemoteSocket) (o : Option RemoteSocket)
    → Moves s t
    → RemoteFits s (some r)
    → RemoteFits t o
    → (r' : RemoteSocket) × (o ≡ some r')
remote_stays s t r none m f g = absurd (no_remote_lost s t r m f g)
remote_stays s t r (some r') m f g = (r', refl)

udp_stays :
    (s t : State) (u : UdpSocket) (o : Option UdpSocket)
    → Moves s t
    → UdpFits s (some u)
    → UdpFits t o
    → (u' : UdpSocket) × (o ≡ some u')
udp_stays s t u none m f g = absurd (no_udp_lost s t u m f g)
udp_stays s t u (some u') m f g = (u', refl)

module _ (pf : Platform) (params : ServerParams) where
  -- What the next events of a poll need of the session.
  module _ (e : Event) (w w' : World) (v : IsValid w.session) (h : IsEnabled e w.session)
      (same : process_event pf params e w ≡ ok (true, w')) where
    moved : Moves w.session.state w'.session.state
    moved =
        settled (Moves w.session.state) (process_event pf params e w) w'
          (process_event-Moves pf params e w v h) same

    pub still-IsValid : IsValid w'.session
    still-IsValid =
        IsValid-after (is_risky e) (process_event pf params e w) w'
          (process_event-Keeps pf params e w v h) same

    remote_enabled :
        (r : RemoteSocket)
        → w.session.remote_socket ≡ some r
        → (r' : RemoteSocket) × (w'.session.remote_socket ≡ some r')
    remote_enabled r has =
        remote_stays w.session.state w'.session.state r w'.session.remote_socket moved
          (subst (RemoteFits w.session.state) has v.remote_fits) still-IsValid.remote_fits

    udp_enabled :
        (u : UdpSocket)
        → w.session.udp_socket ≡ some u
        → (u' : UdpSocket) × (w'.session.udp_socket ≡ some u')
    udp_enabled u has =
        udp_stays w.session.state w'.session.state u w'.session.udp_socket moved
          (subst (UdpFits w.session.state) has v.udp_fits) still-IsValid.udp_fits

  one_query :
      (s : Session) → IsValid s → s.state ≡ State.resolving_domain_name → length s.dns_sockets ≡ 1
  one_query s v st = ground arith

  dns-IsEnabled :
      (e : Event) (w w' : World) (flags : Flags) (j : ℕ)
      → IsValid w.session
      → IsEnabled e w.session
      → process_event pf params e w ≡ ok (true, w')
      → IsEnabled (dns flags j) w.session
      → Differ e (dns flags j)
      → IsEnabled (dns flags j) w'.session
  unfolding process_event
  dns-IsEnabled (client fl) w w' flags j v h same (lt, st) d =
      let st' : w'.session.state ≡ State.resolving_domain_name =
        settled (λ s. s ≡ State.resolving_domain_name) (process_event pf params (client fl) w) w'
          (client_waits pf params fl w st) same in
      let one = one_query w.session v st in
      let one' = one_query w'.session (still-IsValid (client fl) w w' v h same) st' in
      (omega arith, st')
  dns-IsEnabled (remote fl) w w' flags j v (r, has) same (lt, st) d = ground arith
  dns-IsEnabled (udp fl) w w' flags j v (u, has) same (lt, st) d = ground arith
  dns-IsEnabled (dns fl i) w w' flags j v (lt', st') same (lt, st) d =
      let one = one_query w.session v st in absurd (d (omega arith))

  pub stays-IsEnabled :
      (e e' : Event) (w w' : World)
      → IsValid w.session
      → IsEnabled e w.session
      → IsEnabled e' w.session
      → Differ e e'
      → process_event pf params e w ≡ ok (true, w')
      → IsEnabled e' w'.session
  stays-IsEnabled e (client flags) w w' v h h' d same = tt
  stays-IsEnabled e (remote flags) w w' v h (r, has) d same = remote_enabled e w w' v h same r has
  stays-IsEnabled e (udp flags) w w' v h (u, has) d same = udp_enabled e w w' v h same u has
  stays-IsEnabled e (dns flags j) w w' v h h' d same = dns-IsEnabled e w w' flags j v h same h' d

  -- What another event finds if the session goes on.
  abbrev pub Finds : Event → Outcome (Bool × World) → Type 0
  Finds e' (fault f) = Unit
  Finds e' (ok (false, w)) = Unit
  Finds e' (ok (true, w)) = IsEnabled e' w.session

  -- An event of a valid session that lets it go on leaves every other event of the session a socket,
  -- if it had one: no handler takes away a remote or UDP socket, and the one DNS answer that the
  -- session waits for is still waited for after any other event.
  pub process_event-Finds :
      (e e' : Event) (w : World)
      → IsValid w.session
      → IsEnabled e w.session
      → IsEnabled e' w.session
      → Differ e e'
      → Finds e' (process_event pf params e w)
  process_event-Finds e e' w v h h' d = go (process_event pf params e w) refl
    where
      go : (o : Outcome (Bool × World)) → process_event pf params e w ≡ o → Finds e' o
      go (fault f) same = tt
      go (ok (false, w')) same = tt
      go (ok (true, w')) same = stays-IsEnabled e e' w w' v h h' d same
