-- ===== src/Server/Loop/Polls.antt =====
-- What the poller of src/core/src/sockspp/core/poller/epoll_poller.hpp may return to the loop of
-- src/server/src/sockspp/server/server.cxx: events of sockets that exist, one for each socket.
pub mod Kept
use mathlib.Core.Path.{subst}
use sockspp.Base.{
  ℕ, ◌≡◌, ◌≢◌, refl, sym, ap, ◌∙◌, arith, Bool, true, false, not, ◌&&◌, ◌||◌, ◌==◌, Bool-cases, inl,
  inr, Option, none, some, List, [], ◌∷◌, ◌++◌,
}
use sockspp.Core.Event.{Flags}
use sockspp.System.{Target}
use sockspp.Session.{Session}
use sockspp.Session.Run.{Event, client, remote, udp, dns}
use sockspp.Session.Valid.{IsValid}
use sockspp.Session.Valid.Events.{IsEnabled, is_risky}
use sockspp.Session.Phases.Stable.{Differ}
use sockspp.Server.Loop.{
  Ptr, null, server, session_socket, PollEvent, find_session, set_session, erase_session, clear_ptr,
  clear_events, target_event,
}
use sockspp.Server.Loop.Live.{find_erase}

abbrev pub AllValid : List (ℕ × Session) → Type 0
AllValid [] = Unit
AllValid ((k, s) ∷ rest) = IsValid s × AllValid rest

-- An event that may meet an undefined access only counts where the flag says so.
abbrev pub allows : Bool → Event → Bool
allows risky e = risky || not (is_risky e)

-- An event's session exists and has the socket that the event is for.
abbrev pub ReadyPtr : Bool → Flags → Ptr → List (ℕ × Session) → Type 0
ReadyPtr risky flags null sessions = Unit
ReadyPtr risky flags server sessions = Unit
ReadyPtr risky flags (session_socket k t) sessions =
    (s : Session) × (find_session k sessions ≡ some s)
    × IsEnabled (target_event t flags) s
    × (allows risky (target_event t flags) ≡ true)

abbrev pub Ready : Bool → List PollEvent → List (ℕ × Session) → Type 0
Ready risky [] sessions = Unit
Ready risky (e ∷ rest) sessions = ReadyPtr risky e.flags e.ptr sessions × Ready risky rest sessions

abbrev pub same_target : Target → Target → Bool
same_target Target.client Target.client = true
same_target Target.remote Target.remote = true
same_target Target.udp Target.udp = true
same_target (Target.dns i) (Target.dns j) = i == j
same_target _ _ = false

-- Two pointers to the same socket of a session.
abbrev pub same_socket : Ptr → Ptr → Bool
same_socket (session_socket k t) (session_socket j t') = k == j && same_target t t'
same_socket _ _ = false

abbrev pub Apart : Ptr → List PollEvent → Type 0
Apart p [] = Unit
Apart p (e ∷ rest) = (same_socket p e.ptr ≡ false) × Apart p rest

-- A poll reports each socket once.
abbrev pub Distinct : List PollEvent → Type 0
Distinct [] = Unit
Distinct (e ∷ rest) = Apart e.ptr rest × Distinct rest

pub find-IsValid :
    (k : ℕ) (l : List (ℕ × Session)) (s : Session)
    → AllValid l
    → find_session k l ≡ some s
    → IsValid s
unfolding find_session
find-IsValid k [] s v e = cc
find-IsValid k ((j, t) ∷ l) s v e = elim (Bool-cases (j == k)) [
  | inl here ↦ let same : t ≡ s = ground (arith, e, here) in subst IsValid same v.0
  | inr there ↦ find-IsValid k l s v.1 (ground (arith, e, there))
]

pub set-AllValid :
    (k : ℕ) (s : Session) (l : List (ℕ × Session))
    → IsValid s
    → AllValid l
    → AllValid (set_session k s l)
unfolding set_session
set-AllValid k s [] h v = tt
set-AllValid k s ((j, t) ∷ l) h v = elim (Bool-cases (j == k)) [
  | inl here ↦ rw here (h, v.1)
  | inr there ↦ rw there (v.0, set-AllValid k s l h v.1)
]

pub erase-AllValid : (k : ℕ) (l : List (ℕ × Session)) → AllValid l → AllValid (erase_session k l)
unfolding erase_session
erase-AllValid k [] v = tt
erase-AllValid k ((j, t) ∷ l) v = elim (Bool-cases (j == k)) [
  | inl here ↦ rw here v.1
  | inr there ↦ rw there (v.0, erase-AllValid k l v.1)
]

pub append-AllValid : (l m : List (ℕ × Session)) → AllValid l → AllValid m → AllValid (l ++ m)
append-AllValid [] m v v' = v'
append-AllValid ((j, t) ∷ l) m v v' = (v.0, append-AllValid l m v.1 v')

pub find_set_self :
    (k : ℕ) (s t : Session) (l : List (ℕ × Session))
    → find_session k l ≡ some s
    → find_session k (set_session k t l) ≡ some t
unfolding find_session set_session
find_set_self k s t [] e = cc
find_set_self k s t ((j, u) ∷ l) e = ground (arith, find_set_self k s t l)

pub find_set_other :
    (j k : ℕ) (t : Session) (l : List (ℕ × Session))
    → (j == k) ≡ false
    → find_session j (set_session k t l) ≡ find_session j l
unfolding find_session set_session
find_set_other j k t [] ne = refl
find_set_other j k t ((i, u) ∷ l) ne = ground (arith, find_set_other j k t l ne)

pub find_append :
    (j : ℕ) (s : Session) (l m : List (ℕ × Session))
    → find_session j l ≡ some s
    → find_session j (l ++ m) ≡ some s
unfolding find_session
find_append j s [] m e = cc
find_append j s ((i, u) ∷ l) m e = ground (arith, find_append j s l m)
