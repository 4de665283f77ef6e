-- ===== src/Session/Valid/Lifetime.antt =====
-- A session from its constructor to its end: the constructor and `initialize` of
-- src/server/src/sockspp/server/session.cxx, then the events of the poller one after the other.
use sockspp.Base.{Mem, ◌≡◌, refl, arith, Bool, ◌||◌, true, false, List, [], ◌∷◌}
use sockspp.System.{Call, Platform, Fd}
use sockspp.Server.Params.{ServerParams}
use sockspp.Session.{pure, ◌>>◌, World, Outcome, ok, fault, M}
use sockspp.Session.Calls.{get_peer_address, peer_name, garbage, add_event, set_blocking}
use sockspp.Session.Auth.{set_state}
use sockspp.Session.Events.{initialize}
use sockspp.Session.Teardown.{construct, new_session}
use sockspp.Session.Run.{Event, process_event, run}
use sockspp.Session.Valid.{IsValid, Keeps, After, weaken, tolerate}
use sockspp.Session.Valid.Events.{IsEnabled, is_risky, process_event-Keeps}

new_session-IsValid : (old : Mem) (fd : Fd) → IsValid (new_session old fd)
unfolding new_session
new_session-IsValid old fd = ground arith

-- Whether one of the events may meet an undefined access.
abbrev pub any_risky : List Event → Bool
any_risky [] = false
any_risky (e ∷ es) = is_risky e || any_risky es

more : (risky : Bool) (o : Outcome (Bool × World)) → Keeps risky o → Keeps true o
more false o h = tolerate o h
more true o h = h

module _ (pf : Platform) (params : ServerParams) where
  pub construct-After :
      (old : Mem) (fd : Fd) (log : List Call)
      → After false
          (λ _ w. IsValid w.session)
          ((construct >> initialize pf params) (record { session = new_session old fd; log = log }))
  unfolding construct set_blocking initialize get_peer_address peer_name garbage add_event set_state
      new_session
  construct-After old fd log = ground arith

  -- Each event finds its socket at the time when it is delivered.
  abbrev pub Delivered : List Event → World → Type 0
  Delivered [] w = Unit
  Delivered (e ∷ es) w =
      IsEnabled e w.session
      × ((w' : World) → process_event pf params e w ≡ ok (true, w') → Delivered es w')

  rest_Keeps :
      (risky later : Bool) (o : Outcome (Bool × World)) (es : List Event)
      → Keeps risky o
      → ((w' : World) → o ≡ ok (true, w') → IsValid w'.session → Keeps later (run pf params es w'))
      → Keeps (risky || later) (elim o [
        | fault f ↦ fault f
        | ok (alive, w') ↦
            (elim alive as (λ _. M Bool) [ true ↦ run pf params es | false ↦ pure false ]) w'
      ])
  rest_Keeps false later (fault f) es h k = weaken later (fault f) h
  rest_Keeps true later (fault f) es h k = h
  rest_Keeps risky later (ok (false, w')) es h k = tt
  rest_Keeps false later (ok (true, w')) es h k = k w' refl h
  rest_Keeps true later (ok (true, w')) es h k = more later (run pf params es w') (k w' refl h)

  -- A valid session stays valid over any sequence of events of which each finds its socket when it
  -- is delivered: no index of a vector is out of range, no handler meets another undefined access unless one of
  -- the events may (a WRITE event, a DNS answer or a datagram for an association), and a session that
  -- goes on is valid.
  pub run-Keeps :
      (es : List Event) (w : World)
      → IsValid w.session
      → Delivered es w
      → Keeps (any_risky es) (run pf params es w)
  unfolding run
  run-Keeps [] w v d = v
  run-Keeps (e ∷ es) w v (h, d) =
      rest_Keeps (is_risky e) (any_risky es) (process_event pf params e w) es
        (process_event-Keeps pf params e w v h) (λ w' same v'. run-Keeps es w' v' (d w' same))

  started_Keeps :
      (o : Outcome (Unit {0} × World)) (es : List Event)
      → After false (λ _ w. IsValid w.session) o
      → ((w : World) → o ≡ ok (tt, w) → Delivered es w)
      → Keeps (any_risky es) (elim o [ fault f ↦ fault f | ok (_, w) ↦ run pf params es w ])
  started_Keeps (fault f) es h d = weaken (any_risky es) (fault f) h
  started_Keeps (ok (_, w)) es h d = run-Keeps es w h (d w refl)

  -- What the constructor and `initialize` leave is a valid session, so the events that follow, each
  -- of which finds its socket, keep it so: from the acceptance of a client to the end no index of a
  -- vector is out of range, and without a WRITE event, a DNS answer and a datagram that arrives for an association
  -- no handler meets a null pointer or a memcpy with a negative size or overlapping regions.
  pub lifetime-Keeps :
      (old : Mem) (fd : Fd) (log : List Call) (es : List Event)
      → ((w : World)
          → (construct >> initialize pf params) (record { session = new_session old fd; log = log })
            ≡ ok (tt, w)
          → Delivered es w)
      → Keeps (any_risky es) (
          ((construct >> initialize pf params) >> run pf params es)
            (record { session = new_session old fd; log = log }))
  lifetime-Keeps old fd log es d =
      started_Keeps
        ((construct >> initialize pf params) (record { session = new_session old fd; log = log }))
        es (construct-After old fd log) d
