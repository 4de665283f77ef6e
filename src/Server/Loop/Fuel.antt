-- ===== src/Server/Loop/Fuel.antt =====
-- The loop over one batch of `Server::serve` (src/server/src/sockspp/server/server.cxx) needs as
-- many rounds as there are events.
use sockspp.Base.{
  ℕ, zero, suc, ◌≤◌, ◌≡◌, refl, inl, inr, ap, arith, length, Bool, true, false, Bool-cases, List,
  [], ◌∷◌,
}
use sockspp.Core.Event.{Flags}
use sockspp.System.{Platform}
use sockspp.Server.Params.{ServerParams}
use sockspp.Server.Loop.{
  Server, Ptr, null, server, session_socket, PollEvent, Result, done, crash, clear_events,
  create_session, session_event, resume, resume_created, round, process_rounds, process_batch,
}

length-clear_events : (k : ℕ) (es : List PollEvent) → length (clear_events k es) ≡ length es
unfolding clear_events
length-clear_events k [] = refl
length-clear_events k (e ∷ es) = ap suc (length-clear_events k es)

module _ (pf : Platform) (params : ServerParams) (f g : Server → List PollEvent → Result Server)
    (rest : List PollEvent)
    (same : (v : Server) (es : List PollEvent) → length es ≡ length rest → f v es ≡ g v es) where
  resume_same :
      (k : ℕ) (r : Result (Server × Bool))
      → resume pf params f k rest r ≡ resume pf params g k rest r
  unfolding resume
  resume_same k (crash c) = refl
  resume_same k (done (v, true)) = same v rest refl
  resume_same k (done (v, false)) = same v (clear_events k rest) (length-clear_events k rest)

  created_same :
      (r : Result Server) → resume_created pf params f rest r ≡ resume_created pf params g rest r
  unfolding resume_created
  created_same (crash c) = refl
  created_same (done v) = same v rest refl

  round_same :
      (v : Server) (flags : Flags) (p : Ptr)
      → round pf params f v flags p rest ≡ round pf params g v flags p rest
  unfolding round
  round_same v flags null = same v rest refl
  round_same v flags server = elim (Bool-cases flags.read) [
    | inl e ↦ rw e (created_same (create_session pf params v))
    | inr e ↦ rw e refl
  ]
  round_same v flags (session_socket k t) = resume_same k (session_event pf params v k t flags)

module _ (pf : Platform) (params : ServerParams) where
  rounds_same :
      (n m : ℕ) (v : Server) (es : List PollEvent)
      → length es ≤ n
      → length es ≤ m
      → process_rounds pf params n v es ≡ process_rounds pf params m v es
  unfolding process_rounds
  rounds_same zero zero v es hn hm = refl
  rounds_same zero (suc m) v [] hn hm = refl
  rounds_same zero (suc m) v (e ∷ es) hn hm = absurd (omega arith)
  rounds_same (suc n) zero v [] hn hm = refl
  rounds_same (suc n) zero v (e ∷ es) hn hm = absurd (omega arith)
  rounds_same (suc n) (suc m) v [] hn hm = refl
  rounds_same (suc n) (suc m) v (e ∷ es) hn hm =
      round_same pf params (process_rounds pf params n) (process_rounds pf params m) es
        (λ v' es' l. rounds_same n m v' es' (omega arith) (omega arith)) v e.flags e.ptr

  -- The loop over a batch is not cut short: with any number of rounds that is not below the number
  -- of events, its result is that of `process_batch`.
  pub rounds_enough :
      (n : ℕ) (v : Server) (es : List PollEvent)
      → length es ≤ n
      → process_rounds pf params n v es ≡ process_batch pf params v es
  unfolding process_batch
  rounds_enough n v es h = rounds_same n (length es) v es h (omega arith)
