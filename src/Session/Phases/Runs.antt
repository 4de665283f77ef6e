-- ===== src/Session/Phases/Runs.antt =====
-- Sequences of events as paths of the protocol: the events that the poller delivers to the handlers
-- of src/server/src/sockspp/server/session.cxx one after the other.
use mathlib.Core.Path.{subst}
use sockspp.Base.{◌≡◌, refl, ◌⊎◌, inl, inr, Bool, true, false, List, [], ◌∷◌}
use sockspp.System.{Platform}
use sockspp.Server.Params.{ServerParams}
use sockspp.Session.{M, pure, World, State, Outcome, ok, fault}
use sockspp.Session.Run.{Event, process_event, run}
use sockspp.Session.Valid.{IsValid, Keeps}
use sockspp.Session.Valid.Events.{is_risky, process_event-Keeps}
use sockspp.Session.Valid.Lifetime.{Delivered}
use sockspp.Session.Phases.{Settles, Settles-weaken, Moves}
use sockspp.Session.Phases.Traces.{process_event-Moves}

-- The states that steps of the protocol lead to.
pub data Reaches : State → State → Type 0 where
  here : {s : State} → Reaches s s
  step : {s t u : State} → Moves s t → Reaches t u → Reaches s u

pub IsValid-after :
    (risky : Bool) (o : Outcome (Bool × World)) (w : World)
    → Keeps risky o
    → o ≡ ok (true, w)
    → IsValid w.session
IsValid-after risky o w h e = go risky (subst (Keeps risky) e h)
  where
    go : (b : Bool) → Keeps b (ok (true, w)) → IsValid w.session
    go false v = v
    go true v = v

module _ (pf : Platform) (params : ServerParams) where
  rest-Reaches :
      (s : State) (o : Outcome (Bool × World)) (es : List Event)
      → Settles (Moves s) o
      → ((w : World) → o ≡ ok (true, w) → Settles (Reaches w.session.state) (run pf params es w))
      → Settles (Reaches s) (elim o [
        | fault f ↦ fault f
        | ok (alive, w) ↦
            (elim alive as (λ _. M Bool) [ true ↦ run pf params es | false ↦ pure false ]) w
      ])
  rest-Reaches s (fault f) es h k = tt
  rest-Reaches s (ok (false, w)) es h k = tt
  rest-Reaches s (ok (true, w)) es h k =
      Settles-weaken (Reaches w.session.state) (Reaches s) (run pf params es w) (k w refl)
        (λ t path. step h path)

  -- A sequence of events, of which each finds its socket when it is delivered, takes a valid session
  -- along a path of steps of the protocol, whatever the system answers.
  pub run-Reaches :
      (es : List Event) (w : World)
      → IsValid w.session
      → Delivered pf params es w
      → Settles (Reaches w.session.state) (run pf params es w)
  unfolding run
  run-Reaches [] w v d = here
  run-Reaches (e ∷ es) w v (h, d) =
      rest-Reaches w.session.state (process_event pf params e w) es
        (process_event-Moves pf params e w v h)
        (λ w' same.
          run-Reaches es w'
            (IsValid-after (is_risky e) (process_event pf params e w) w'
              (process_event-Keeps pf params e w v h) same)
            (d w' same))

-- A client that has not been let in yet.
abbrev pub IsWaiting : State → Type 0
IsWaiting State.accepted = Unit
IsWaiting State.auth_requested = Unit
IsWaiting _ = ⊥

-- A session in a waiting state passes from a waiting state to the next event by event, up to the
-- state of a client that has been let in, at which it is before one of the events or after the last.
abbrev pub LogsIn : Platform → ServerParams → List Event → World → Type 0
LogsIn pf params [] w = w.session.state ≡ State.authenticated
LogsIn pf params (e ∷ es) w =
    (w.session.state ≡ State.authenticated)
    ⊎ (IsWaiting w.session.state
        × (w' : World) × (process_event pf params e w ≡ ok (true, w'))
        × LogsIn pf params es w')

step_from_IsWaiting :
    {s t : State} → Moves s t → IsWaiting s → IsWaiting t ⊎ (t ≡ State.authenticated)
step_from_IsWaiting Moves.stays h = inl h
step_from_IsWaiting Moves.admits h = inr refl
step_from_IsWaiting Moves.asks_login h = inl tt
step_from_IsWaiting Moves.logs_in h = inr refl
step_from_IsWaiting Moves.resolves h = elim h [ ]
step_from_IsWaiting Moves.connects h = elim h [ ]
step_from_IsWaiting Moves.associates h = elim h [ ]
step_from_IsWaiting Moves.connects_resolved h = elim h [ ]
step_from_IsWaiting Moves.associates_resolved h = elim h [ ]
step_from_IsWaiting Moves.establishes h = elim h [ ]

pub Settles-always :
    (P : State → Type 0) (o : Outcome (Bool × World)) → ((s : State) → P s) → Settles P o
Settles-always P (fault f) h = tt
Settles-always P (ok (false, w)) h = tt
Settles-always P (ok (true, w)) h = h w.session.state

module _ (pf : Platform) (params : ServerParams) where
  logged_in :
      (es : List Event) (w : World) → w.session.state ≡ State.authenticated → LogsIn pf params es w
  logged_in [] w h = h
  logged_in (e ∷ es) w h = inl h

  -- The session waits, or the events before have let its client in.
  abbrev WaitsOr : List Event → World → State → Type 0
  WaitsOr es w s = IsWaiting s ⊎ LogsIn pf params es w

  rest_logs_in :
      (e : Event) (es : List Event) (w : World) (o : Outcome (Bool × World))
      → process_event pf params e w ≡ o
      → IsWaiting w.session.state
      → Settles (Moves w.session.state) o
      → ((w' : World)
          → o ≡ ok (true, w')
          → IsWaiting w'.session.state
          → Settles (WaitsOr es w') (run pf params es w'))
      → Settles (WaitsOr (e ∷ es) w) (elim o [
        | fault f ↦ fault f
        | ok (alive, w') ↦
            (elim alive as (λ _. M Bool) [ true ↦ run pf params es | false ↦ pure false ]) w'
      ])
  rest_logs_in e es w (fault f) same h m k = tt
  rest_logs_in e es w (ok (false, w')) same h m k = tt
  rest_logs_in e es w (ok (true, w')) same h m k = elim (step_from_IsWaiting m h) [
    | inl waiting ↦
        Settles-weaken (WaitsOr es w') (WaitsOr (e ∷ es) w) (run pf params es w')
          (k w' refl waiting) (λ s p. elim p [ inl x ↦ inl x | inr x ↦ inr (inr (h, w', same, x)) ])
    | inr now ↦
        Settles-always (WaitsOr (e ∷ es) w) (run pf params es w')
          (λ s. inr (inr (h, w', same, logged_in es w' now)))
  ]

  -- A session whose client has not been let in yet is still waiting after any sequence of events, of
  -- which each finds its socket when it is delivered, or there is a first of these events by which
  -- its client was let in, before which it was waiting.
  pub run-LogsIn :
      (es : List Event) (w : World)
      → IsValid w.session
      → IsWaiting w.session.state
      → Delivered pf params es w
      → Settles (λ s. IsWaiting s ⊎ LogsIn pf params es w) (run pf params es w)
  unfolding run
  run-LogsIn [] w v waiting d = inl waiting
  run-LogsIn (e ∷ es) w v waiting (h, d) =
      rest_logs_in e es w (process_event pf params e w) refl waiting
        (process_event-Moves pf params e w v h)
        (λ w' same waiting'.
          run-LogsIn es w'
            (IsValid-after (is_risky e) (process_event pf params e w) w'
              (process_event-Keeps pf params e w v h) same)
            waiting' (d w' same))
