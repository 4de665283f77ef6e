-- ===== src/Server/Loop/Valid.antt =====
-- All sessions stay valid: the loop over a batch in `Server::serve` of
-- src/server/src/sockspp/server/server.cxx, with the handlers of the sessions.
pub mod Serving
pub mod Whole
use mathlib.Core.Path.{subst}
use sockspp.Base.{
  ℕ, zero, suc, ◌≡◌, refl, arith, length, Bool, true, false, Bool-cases, Option-cases, inl, inr,
  none, some, List, [], ◌∷◌, ◌++◌,
}
use sockspp.Core.Event.{Flags}
use sockspp.System.{Call, Target, Platform, Fd}
use sockspp.Server.Params.{ServerParams}
use sockspp.Session.{Session, World, Outcome, Fault, ok, fault, ◌>>◌}
use sockspp.Session.Events.{initialize}
use sockspp.Session.Run.{Event, process_event}
use sockspp.Session.Teardown.{new_session, construct, shutdown, destroy}
use sockspp.Session.Teardown.Closes.{deletion_closes_once}
use sockspp.Session.Valid.{IsValid, Keeps, After, tolerated}
use sockspp.Session.Valid.Events.{IsEnabled, is_risky, process_event-Keeps}
use sockspp.Session.Valid.Lifetime.{construct-After}
use sockspp.Session.Phases.Stable.{Differ, still-IsValid, stays-IsEnabled}
use sockspp.Server.Loop.{
  Server, Ptr, null, server, session_socket, PollEvent, Crash, in_session, freed_session,
  accept_failed, socket_failed, bind_failed, poller_failed, Result, done, crash, find_session,
  set_session, erase_session, clear_events, create_session, delete_session, session_event,
  target_event, resume, resume_created, round, process_rounds, process_batch,
}
use sockspp.Server.Loop.Live.{Outcome-cases}
use sockspp.Server.Loop.Polls.{
  AllValid, allows, ReadyPtr, Ready, Apart, Distinct, find-IsValid, set-AllValid, erase-AllValid,
  append-AllValid,
}
use sockspp.Server.Loop.Polls.Kept.{Ready-append, Ready-set, Ready-clear, Distinct-clear}

-- How the process may end: no access to a deleted session, no index out of range, and a null
-- pointer or an undefined memcpy only where the flag says so.
abbrev pub Tolerable : Bool → Crash → Type 0
Tolerable risky (in_session f) = tolerated risky f ≡ true
Tolerable risky freed_session = ⊥
Tolerable risky accept_failed = Unit
Tolerable risky socket_failed = Unit
Tolerable risky bind_failed = Unit
Tolerable risky poller_failed = Unit

abbrev pub Yields {ℓ} : {A : Type ℓ} → Bool → (A → Type 0) → Result A → Type 0
Yields risky P (done a) = P a
Yields risky P (crash c) = Tolerable risky c

tolerates : (risky : Bool) (f : Fault) → tolerated false f ≡ true → tolerated risky f ≡ true
tolerates risky f h = ground arith

allowed :
    (risky : Bool) (e : Event) (f : Fault)
    → allows risky e ≡ true
    → tolerated (is_risky e) f ≡ true
    → tolerated risky f ≡ true
allowed risky e f a h = ground arith

module _ (pf : Platform) (params : ServerParams) (risky : Bool) where
  -- The sessions are valid, and the events that are left find theirs.
  abbrev pub Good : List PollEvent → Server → Type 0
  Good es v = AllValid v.sessions × Ready risky es v.sessions × Distinct es

  created_Good :
      (v : Server) (es : List PollEvent) (fd : Fd) (log : List Call)
      (o : Outcome (Unit {0} × World))
      → Good es v
      → After false (λ _ w. IsValid w.session) o
      → Yields risky (Good es) (elim o [
        | fault f ↦ crash (in_session f)
        | ok (_, w') ↦ done (record v {
          sessions = v.sessions ++ (v.next_id, w'.session) ∷ [];
          next_id = suc v.next_id;
          log = w'.log;
        })
      ])
  created_Good v es fd log (fault f) g h = tolerates risky f h
  created_Good v es fd log (ok (_, w')) (valid, ready, distinct) h = (
    append-AllValid v.sessions _ valid (h, tt),
    Ready-append risky es v.sessions _ ready,
    distinct,
  )

  pub create_Good :
      (v : Server) (es : List PollEvent)
      → Good es v
      → Yields risky (Good es) (create_session pf params v)
  unfolding create_session
  create_Good v es g =
      let log : List Call = Call.accept v.socket ∷ v.log in
      elim (Option-cases (pf.os.opened log)) [
        | inl e ↦ rw (e, Yields) tt
        | inr (fd, e) ↦
            let w : World = record {
              session = new_session (pf.os.garbage log) (some fd);
              log = log;
            } in
            rw (e, Yields)
              (created_Good v es (some fd) log ((construct >> initialize pf params) w) g
                (construct-After pf params (pf.os.garbage log) (some fd) log))
      ]

  -- After an event the rest of the batch is ready, cleared if the session is gone.
  abbrev pub GoodAfter : ℕ → List PollEvent → Server × Bool → Type 0
  GoodAfter k es (v', true) = Good es v'
  GoodAfter k es (v', false) = Good (clear_events k es) v'

  delete_Good :
      (v : Server) (k : ℕ) (s : Session) (es : List PollEvent)
      → Good es v
      → Yields risky (Good (clear_events k es)) (delete_session pf params v k s)
  unfolding delete_session
  delete_Good v k s es (valid, ready, distinct) =
      let (w, e, _) = deletion_closes_once (record { session = s; log = v.log }) in
      rw (e, Yields)
        (
          erase-AllValid k v.sessions valid,
          Ready-clear risky es k v.sessions ready,
          Distinct-clear es k distinct,
        )

  gone :
      (k : ℕ) (es : List PollEvent) (r : Result Server)
      → Yields risky (Good (clear_events k es)) r
      → Yields risky (GoodAfter k es) (elim r [ crash c ↦ crash c | done v' ↦ done (v', false) ])
  gone k es (crash c) h = h
  gone k es (done v') h = h

  handled_Good :
      (v : Server) (k : ℕ) (t : Target) (flags : Flags) (es : List PollEvent) (s : Session)
      (o : Outcome (Bool × World))
      → find_session k v.sessions ≡ some s
      → IsEnabled (target_event t flags) s
      → allows risky (target_event t flags) ≡ true
      → Apart (session_socket k t) es
      → Good es v
      → process_event pf params (target_event t flags) (record { session = s; log = v.log }) ≡ o
      → Yields risky (GoodAfter k es) (elim o [
        | fault f ↦ crash (in_session f)
        | ok (true, w) ↦
            done (record v { sessions = set_session k w.session v.sessions; log = w.log }, true)
        | ok (false, w) ↦ elim (delete_session pf params (record v { log = w.log }) k w.session) [
          | crash c ↦ crash c
          | done v' ↦ done (v', false)
        ]
      ])
  handled_Good v k t flags es s (fault f) at h a apart (valid, ready, distinct) e =
      let e1 = target_event t flags in
      allowed risky e1 f a (
        subst (Keeps (is_risky e1)) e (
          process_event-Keeps pf params e1 (record { session = s; log = v.log })
            (find-IsValid k v.sessions s valid at) h))
  handled_Good v k t flags es s (ok (false, w)) at h a apart g e =
      gone k es (delete_session pf params (record v { log = w.log }) k w.session)
        (delete_Good (record v { log = w.log }) k w.session es g)
  handled_Good v k t flags es s (ok (true, w)) at h a apart (valid, ready, distinct) e =
      let e1 = target_event t flags in
      let w0 : World = record { session = s; log = v.log } in
      let vs = find-IsValid k v.sessions s valid at in
      (
        set-AllValid k w.session v.sessions (still-IsValid pf params e1 w0 w vs h e) valid,
        Ready-set risky k t flags s w.session v.sessions at
            (λ e' h' d. stays-IsEnabled pf params e1 e' w0 w vs h h' d e) es apart ready,
        distinct,
      )

  pub event_Good :
      (v : Server) (k : ℕ) (t : Target) (flags : Flags) (es : List PollEvent)
      → ReadyPtr risky flags (session_socket k t) v.sessions
      → Apart (session_socket k t) es
      → Good es v
      → Yields risky (GoodAfter k es) (session_event pf params v k t flags)
  unfolding session_event
  event_Good v k t flags es (s, at, h, a) apart g =
      rw (at, Yields)
        (handled_Good v k t flags es s
          (process_event pf params (target_event t flags) (record { session = s; log = v.log })) at
          h a apart g refl)
