-- ===== src/Server/Loop/Polls/Kept.antt =====
-- The events that are left of a poll when the sessions have changed: after a handler, the acceptance
-- of a client or a deletion in src/server/src/sockspp/server/server.cxx.
use mathlib.Core.Path.{subst}
use sockspp.Base.{
  ℕ, ◌≡◌, refl, ap, ◌∙◌, arith, Bool, true, false, ◌==◌, Bool-cases, inl, inr, some, List, [], ◌∷◌,
  ◌++◌,
}
use sockspp.Core.Event.{Flags}
use sockspp.System.{Target}
use sockspp.Session.{Session}
use sockspp.Session.Run.{Event}
use sockspp.Session.Valid.Events.{IsEnabled}
use sockspp.Session.Phases.Stable.{Differ}
use sockspp.Server.Loop.{
  Ptr, null, server, session_socket, PollEvent, find_session, set_session, erase_session, clear_ptr,
  clear_events, target_event,
}
use sockspp.Server.Loop.Live.{find_erase}
use sockspp.Server.Loop.Polls.{
  ReadyPtr, Ready, same_target, same_socket, Apart, Distinct, find_set_self, find_set_other,
  find_append,
}

pub Ready-append :
    (risky : Bool) (es : List PollEvent) (l m : List (ℕ × Session))
    → Ready risky es l
    → Ready risky es (l ++ m)
Ready-append risky [] l m h = tt
Ready-append risky (e ∷ es) l m h =
    (ReadyPtr-append e.flags e.ptr h.0, Ready-append risky es l m h.1)
  where
    ReadyPtr-append :
        (flags : Flags) (p : Ptr) → ReadyPtr risky flags p l → ReadyPtr risky flags p (l ++ m)
    ReadyPtr-append flags null h = tt
    ReadyPtr-append flags server h = tt
    ReadyPtr-append flags (session_socket j _) (s, at, h, a) = (s, find_append j s l m at, h, a)

targets-Differ :
    (t t' : Target) (fl fl' : Flags)
    → same_target t t' ≡ false
    → Differ (target_event t fl) (target_event t' fl')
unfolding target_event
targets-Differ (Target.dns i) (Target.dns j) fl fl' ne = λ e. ground (arith, ne, e)
targets-Differ (Target.dns i) Target.client fl fl' ne = tt
targets-Differ (Target.dns i) Target.remote fl fl' ne = tt
targets-Differ (Target.dns i) Target.udp fl fl' ne = tt
targets-Differ Target.client t' fl fl' ne = tt
targets-Differ Target.remote t' fl fl' ne = tt
targets-Differ Target.udp t' fl fl' ne = tt

-- The session at `k` goes from `s` to `s'` by an event that takes no other event its socket.
module _ (risky : Bool) (k : ℕ) (t : Target) (fl : Flags) (s s' : Session) (l : List (ℕ × Session))
    (at : find_session k l ≡ some s)
    (keep : (e' : Event) → IsEnabled e' s → Differ (target_event t fl) e' → IsEnabled e' s') where
  ReadyPtr-set :
      (flags : Flags) (p : Ptr)
      → same_socket (session_socket k t) p ≡ false
      → ReadyPtr risky flags p l
      → ReadyPtr risky flags p (set_session k s' l)
  ReadyPtr-set flags null ne h = tt
  ReadyPtr-set flags server ne h = tt
  ReadyPtr-set flags (session_socket j t') ne (u, found, h, a) = elim (Bool-cases (j == k)) [
    | inl here ↦
        let eq : j ≡ k = ground arith in
        let here' : (k == j) ≡ true = ground arith in
        let other : same_target t t' ≡ false = ground (arith, ne, here') in
        let same : u ≡ s = ground (arith, found, at, eq) in
        (
          s',
          ap (λ (i : ℕ). find_session i (set_session k s' l)) eq ∙ find_set_self k s s' l at,
          keep (target_event t' flags) (subst (IsEnabled (target_event t' flags)) same h)
              (targets-Differ t t' fl flags other),
          a,
        )
    | inr there ↦ (u, find_set_other j k s' l there ∙ found, h, a)
  ]

  pub Ready-set :
      (es : List PollEvent)
      → Apart (session_socket k t) es
      → Ready risky es l
      → Ready risky es (set_session k s' l)
  Ready-set [] d h = tt
  Ready-set (e ∷ es) d h = (ReadyPtr-set e.flags e.ptr d.0 h.0, Ready-set es d.1 h.1)

-- The events of a deleted session are cleared from the batch.
ReadyPtr-clear :
    (risky : Bool) (flags : Flags) (p : Ptr) (k : ℕ) (l : List (ℕ × Session))
    → ReadyPtr risky flags p l
    → let e : PollEvent = clear_ptr k (record { flags = flags; ptr = p }) in
      ReadyPtr risky e.flags e.ptr (erase_session k l)
ReadyPtr-clear risky flags null k l h = tt
ReadyPtr-clear risky flags server k l h = tt
ReadyPtr-clear risky flags (session_socket j t) k l (s, at, h, a) = elim (Bool-cases (j == k)) [
  | inl same ↦ rw same tt
  | inr other ↦ rw other (s, find_erase j k l other ∙ at, h, a)
]

pub Ready-clear :
    (risky : Bool) (es : List PollEvent) (k : ℕ) (l : List (ℕ × Session))
    → Ready risky es l
    → Ready risky (clear_events k es) (erase_session k l)
unfolding clear_events
Ready-clear risky [] k l h = tt
Ready-clear risky (e ∷ es) k l h =
    (ReadyPtr-clear risky e.flags e.ptr k l h.0, Ready-clear risky es k l h.1)

cleared_apart :
    (p q : Ptr) (flags : Flags) (k : ℕ)
    → same_socket p q ≡ false
    → same_socket p (clear_ptr k (record { flags = flags; ptr = q })).ptr ≡ false
cleared_apart p q flags k h = ground arith

Apart-clear : (p : Ptr) (es : List PollEvent) (k : ℕ) → Apart p es → Apart p (clear_events k es)
unfolding clear_events
Apart-clear p [] k d = tt
Apart-clear p (e ∷ es) k d = (cleared_apart p e.ptr e.flags k d.0, Apart-clear p es k d.1)

null-Apart : (es : List PollEvent) → Apart null es
null-Apart [] = tt
null-Apart (e ∷ es) = (refl, null-Apart es)

clear_ptr-Apart :
    (q : Ptr) (flags : Flags) (es : List PollEvent) (k : ℕ)
    → Apart q es
    → Apart (clear_ptr k (record { flags = flags; ptr = q })).ptr es
clear_ptr-Apart null flags es k d = d
clear_ptr-Apart server flags es k d = d
clear_ptr-Apart (session_socket j t) flags es k d = elim (Bool-cases (j == k)) [
  | inl same ↦ rw same (null-Apart es)
  | inr other ↦ rw other d
]

pub Distinct-clear : (es : List PollEvent) (k : ℕ) → Distinct es → Distinct (clear_events k es)
unfolding clear_events
Distinct-clear [] k d = tt
Distinct-clear (e ∷ es) k d = (
  clear_ptr-Apart e.ptr e.flags (clear_events k es) k (Apart-clear e.ptr es k d.0),
  Distinct-clear es k d.1,
)
