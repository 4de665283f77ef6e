-- ===== src/Server/Loop/Live.antt =====
-- No event reaches a session that was deleted: the loop over a batch in `Server::serve` of
-- src/server/src/sockspp/server/server.cxx.
use sockspp.Base.{
  ℕ, zero, suc, ◌≡◌, ◌≢◌, refl, arith, length, Bool, true, false, Bool-cases, Option-cases, ◌⊎◌,
  inl, inr, ◌==◌, Option, none, some, List, [], ◌∷◌, ◌++◌,
}
use sockspp.Core.Event.{Flags}
use sockspp.System.{Call, Target, Platform}
use sockspp.Server.Params.{ServerParams}
use sockspp.Session.{Session, World, Outcome, Fault, ok, fault, ◌>>◌}
use sockspp.Session.Events.{initialize}
use sockspp.Session.Run.{process_event}
use sockspp.Session.Teardown.{new_session, construct, shutdown, destroy}
use sockspp.Server.Loop.{
  Server, Ptr, null, server, session_socket, PollEvent, freed_session, Result, done, crash,
  find_session, set_session, erase_session, clear_ptr, clear_events, create_session, delete_session,
  session_event, target_event, resume, resume_created, round, process_rounds, process_batch,
}

abbrev pub is_known {ℓ} : {A : Type ℓ} → Option A → Bool
is_known none = false
is_known (some a) = true

-- A session at this address exists.
abbrev pub Known : ℕ → List (ℕ × Session) → Type 0
Known k sessions = is_known (find_session k sessions) ≡ true

abbrev pub LivePtr : Ptr → List (ℕ × Session) → Type 0
LivePtr null sessions = Unit
LivePtr server sessions = Unit
LivePtr (session_socket k t) sessions = Known k sessions

-- Every event is the server's, a cleared one, or one of a session that exists.
abbrev pub Live : List PollEvent → List (ℕ × Session) → Type 0
Live [] sessions = Unit
Live (e ∷ rest) sessions = LivePtr e.ptr sessions × Live rest sessions

find_set :
    (j k : ℕ) (t : Session) (l : List (ℕ × Session)) → Known j l → Known j (set_session k t l)
unfolding find_session set_session
find_set j k t [] h = h
find_set j k t ((i, x) ∷ l) h = ground (arith, find_set j k t l)

find_append : (j : ℕ) (l m : List (ℕ × Session)) → Known j l → Known j (l ++ m)
unfolding find_session
find_append j [] m h = cc
find_append j ((i, x) ∷ l) m h = ground (arith, find_append j l m)

pub find_erase :
    (j k : ℕ) (l : List (ℕ × Session))
    → (j == k) ≡ false
    → find_session j (erase_session k l) ≡ find_session j l
unfolding find_session erase_session
find_erase j k [] ne = refl
find_erase j k ((i, x) ∷ l) ne = ground (arith, find_erase j k l ne)

Live-set :
    (es : List PollEvent) (k : ℕ) (t : Session) (l : List (ℕ × Session))
    → Live es l
    → Live es (set_session k t l)
Live-set [] k t l h = tt
Live-set (e ∷ es) k t l h = (LivePtr-set e.ptr h.0, Live-set es k t l h.1)
  where
    LivePtr-set : (p : Ptr) → LivePtr p l → LivePtr p (set_session k t l)
    LivePtr-set null h = tt
    LivePtr-set server h = tt
    LivePtr-set (session_socket j _) h = find_set j k t l h

Live-append : (es : List PollEvent) (l m : List (ℕ × Session)) → Live es l → Live es (l ++ m)
Live-append [] l m h = tt
Live-append (e ∷ es) l m h = (LivePtr-append e.ptr h.0, Live-append es l m h.1)
  where
    LivePtr-append : (p : Ptr) → LivePtr p l → LivePtr p (l ++ m)
    LivePtr-append null h = tt
    LivePtr-append server h = tt
    LivePtr-append (session_socket j _) h = find_append j l m h

-- Clearing the events of a session makes its deletion safe.
LivePtr-clear :
    (p : Ptr) (flags : Flags) (k : ℕ) (l : List (ℕ × Session))
    → LivePtr p l
    → LivePtr (clear_ptr k (record { flags = flags; ptr = p })).ptr (erase_session k l)
LivePtr-clear null flags k l h = tt
LivePtr-clear server flags k l h = tt
LivePtr-clear (session_socket j t) flags k l h = elim (Bool-cases (j == k)) [
  | inl same ↦ rw same tt
  | inr other ↦ rw other (rw (find_erase j k l other) h)
]

Live-clear :
    (es : List PollEvent) (k : ℕ) (l : List (ℕ × Session))
    → Live es l
    → Live (clear_events k es) (erase_session k l)
unfolding clear_events
Live-clear [] k l h = tt
Live-clear (e ∷ es) k l h = (LivePtr-clear e.ptr e.flags k l h.0, Live-clear es k l h.1)

-- What holds of a result: a crash is no access to a deleted session.
abbrev pub Returns {ℓ} : {A : Type ℓ} → (A → Type 0) → Result A → Type 0
Returns P (done a) = P a
Returns P (crash c) = c ≢ freed_session

pub Outcome-cases :
    {A : Type 0} (o : Outcome A) → ((f : Fault) × (o ≡ fault f)) ⊎ ((a : A) × (o ≡ ok a))
Outcome-cases (fault f) = inl (f, refl)
Outcome-cases (ok a) = inr (a, refl)

module _ (pf : Platform) (params : ServerParams) where
  create_Live :
      (v : Server) (es : List PollEvent)
      → Live es v.sessions
      → Returns (λ v'. Live es v'.sessions) (create_session pf params v)
  unfolding create_session
  create_Live v es h =
      let log : List Call = Call.accept v.socket ∷ v.log in
      elim (Option-cases (pf.os.opened log)) [
        | inl e ↦ rw (e, Returns) (λ p. cc)
        | inr (fd, e) ↦
            let w : World = record {
              session = new_session (pf.os.garbage log) (some fd);
              log = log;
            } in
            rw (e, Returns)
              (elim (Outcome-cases ((construct >> initialize pf params) w)) [
                | inl (f, e') ↦ rw (e', Returns) (λ p. cc)
                | inr ((_, w'), e') ↦ rw (e', Returns) (Live-append es v.sessions _ h)
              ])
      ]

  -- After an event the rest of the batch is live, cleared if the session is gone.
  abbrev AfterEvent : ℕ → List PollEvent → Server × Bool → Type 0
  AfterEvent k es (v', true) = Live es v'.sessions
  AfterEvent k es (v', false) = Live (clear_events k es) v'.sessions

  delete_Live :
      (v : Server) (k : ℕ) (s : Session) (es : List PollEvent)
      → Live es v.sessions
      → Returns (λ v'. Live (clear_events k es) v'.sessions) (delete_session pf params v k s)
  unfolding delete_session
  delete_Live v k s es h =
      elim (Outcome-cases ((shutdown >> destroy) (record { session = s; log = v.log }))) [
        | inl (f, e) ↦ rw (e, Returns) (λ p. cc)
        | inr ((_, w), e) ↦ rw (e, Returns) (Live-clear es k v.sessions h)
      ]

  event_Live :
      (v : Server) (k : ℕ) (t : Target) (flags : Flags) (es : List PollEvent)
      → Known k v.sessions
      → Live es v.sessions
      → Returns (AfterEvent k es) (session_event pf params v k t flags)
  unfolding session_event
  event_Live v k t flags es known h = elim (Option-cases (find_session k v.sessions)) [
    | inl e ↦ ground (arith, known)
    | inr (s, e) ↦
        rw (e, Returns)
          (elim (Outcome-cases (
            process_event pf params (target_event t flags) (record { session = s; log = v.log }))) [
              | inl (f, e') ↦ rw (e', Returns) (λ p. cc)
              | inr ((alive, w), e') ↦ rw (e', Returns) (after alive w)
            ])
  ]
    where
      gone :
          (w : World) (r : Result Server)
          → Returns (λ v'. Live (clear_events k es) v'.sessions) r
          → Returns (AfterEvent k es) (elim r [ crash c ↦ crash c | done v' ↦ done (v', false) ])
      gone w (crash c) q = q
      gone w (done v') q = q

      after :
          (alive : Bool) (w : World)
          → Returns (AfterEvent k es) (
              (elim alive as (λ _. World → Result (Server × Bool)) [
                | true ↦ λ w1. done (
                  record v { sessions = set_session k w1.session v.sessions; log = w1.log },
                  true,
                )
                | false ↦ λ w1.
                    elim (delete_session pf params (record v { log = w1.log }) k w1.session) [
                      | crash c ↦ crash c
                      | done v' ↦ done (v', false)
                    ]
              ])
                w)
      after true w = Live-set es k w.session v.sessions h
      after false w =
          gone w (delete_session pf params (record v { log = w.log }) k w.session)
            (delete_Live (record v { log = w.log }) k w.session es h)

  -- The loop over what follows is safe on every live batch.
  abbrev IsSafe : (Server → List PollEvent → Result Server) → Type 0
  IsSafe next =
      (v : Server) (es : List PollEvent) → Live es v.sessions → next v es ≢ crash freed_session

  resume_safe :
      (next : Server → List PollEvent → Result Server) (k : ℕ) (es : List PollEvent)
      (r : Result (Server × Bool))
      → IsSafe next
      → Returns (AfterEvent k es) r
      → resume pf params next k es r ≢ crash freed_session
  unfolding resume
  resume_safe next k es (crash c) safe q = λ p. q (ground arith)
  resume_safe next k es (done (v, true)) safe q = safe v es q
  resume_safe next k es (done (v, false)) safe q = safe v (clear_events k es) q

  created_safe :
      (next : Server → List PollEvent → Result Server) (es : List PollEvent) (r : Result Server)
      → IsSafe next
      → Returns (λ v'. Live es v'.sessions) r
      → resume_created pf params next es r ≢ crash freed_session
  unfolding resume_created
  created_safe next es (crash c) safe q = λ p. q (ground arith)
  created_safe next es (done v) safe q = safe v es q

  round_safe :
      (next : Server → List PollEvent → Result Server) (v : Server) (flags : Flags) (p : Ptr)
      (es : List PollEvent)
      → IsSafe next
      → LivePtr p v.sessions
      → Live es v.sessions
      → round pf params next v flags p es ≢ crash freed_session
  unfolding round
  round_safe next v flags null es safe q h = safe v es h
  round_safe next v flags server es safe q h = elim (Bool-cases flags.read) [
    | inl e ↦ rw e (created_safe next es (create_session pf params v) safe (create_Live v es h))
    | inr e ↦ rw e (λ p. cc)
  ]
  round_safe next v flags (session_socket k t) es safe q h =
      resume_safe next k es (session_event pf params v k t flags) safe
        (event_Live v k t flags es q h)

  rounds-IsSafe : (n : ℕ) → IsSafe (process_rounds pf params n)
  unfolding process_rounds
  rounds-IsSafe zero v es h = λ p. cc
  rounds-IsSafe (suc n) v [] h = λ p. cc
  rounds-IsSafe (suc n) v (e ∷ es) h =
      round_safe (process_rounds pf params n) v e.flags e.ptr es (rounds-IsSafe n) h.0 h.1

  -- A batch whose events belong to sessions that exist is processed without an access to a deleted
  -- session, however many of them end meanwhile.
  pub batch_safe :
      (v : Server) (es : List PollEvent)
      → Live es v.sessions
      → process_batch pf params v es ≢ crash freed_session
  unfolding process_batch
  batch_safe v es h = rounds-IsSafe (length es) v es h
