-- ===== src/Session/Run/Login.antt =====
-- Which sessions of a server with a user name or a password get past the handshake:
-- src/server/src/sockspp/server/session.cxx over any sequence of events. The credentials are those
-- that `_handle_auth` reads, which for a message that ends too early come from the memory behind it.
use sockspp.Base.{◌≡◌, refl, ◌⊎◌, inl, inr, arith, Bool, true, false, List, [], ◌∷◌}
use sockspp.Core.Enums.{AuthMethod}
use sockspp.System.{Platform}
use sockspp.Server.Params.{ServerParams, get_auth_method}
use sockspp.Session.{World, State, Session, Outcome, ok, fault}
use sockspp.Session.Run.{Event, process_event, run}
use sockspp.Session.Run.Closed.{IsClosed, Presents, StaysOr, event_Stays}

-- The states in which the session acts for the client: everything past the handshake.
abbrev pub is_serving : State → Bool
is_serving State.accepted = false
is_serving State.auth_requested = false
is_serving State.invalid = false
is_serving _ = true

-- At some point of the run the client's socket delivered credentials that the server accepts.
abbrev pub PresentedIn : Platform → ServerParams → List Event → World → Type 0
PresentedIn pf params [] w = ⊥
PresentedIn pf params (e ∷ es) w =
    Presents pf params w
    ⊎ ((w1 : World) × (process_event pf params e w ≡ ok (true, w1)) × PresentedIn pf params es w1)

closed_not_serving : (s : Session) → IsClosed s → is_serving s.state ≡ false
closed_not_serving s c = ground arith

module _ (pf : Platform) (params : ServerParams)
    (secret : get_auth_method params ≡ AuthMethod.user_pass) where
  run_step :
      (e : Event) (es : List Event) (w : World) (o : Outcome (Bool × World)) {b : Bool} {w' : World}
      → process_event pf params e w ≡ o
      → StaysOr (Presents pf params w) o
      → run pf params (e ∷ es) w ≡ ok (b, w')
      → is_serving w'.session.state ≡ true
      → ((w1 : World)
          → o ≡ ok (true, w1)
          → IsClosed w1.session
          → run pf params es w1 ≡ ok (b, w')
          → PresentedIn pf params es w1)
      → PresentedIn pf params (e ∷ es) w
  unfolding run
  run_step e es w (fault f) p s h serving rest = ground arith
  run_step e es w (ok (alive, w1)) p (inr given) h serving rest = inl given
  run_step e es w (ok (false, w1)) p (inl c) h serving rest =
      ground (arith, closed_not_serving w1.session c)
  run_step e es w (ok (true, w1)) p (inl c) h serving rest =
      inr (w1, p, rest w1 refl c (ground arith))

  -- A server with a user name or a password: whatever events reach a session whose client has not
  -- logged in, if it ends up in a state in which it acts for the client, then at some point of the
  -- run the client's socket delivered a message whose credentials, as `_handle_auth` reads them from
  -- the buffer that it was received into, the server accepts.
  pub login_needed :
      (es : List Event) (w : World) {b : Bool} {w' : World}
      → IsClosed w.session
      → run pf params es w ≡ ok (b, w')
      → is_serving w'.session.state ≡ true
      → PresentedIn pf params es w
  unfolding run
  login_needed [] w c h serving = ground (arith, closed_not_serving w.session c)
  login_needed (e ∷ es) w c h serving =
      run_step e es w (process_event pf params e w) refl (event_Stays pf params secret e w c) h
        serving (λ w1 p c1 h1. login_needed es w1 c1 h1 serving)
