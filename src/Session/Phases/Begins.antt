-- ===== src/Session/Phases/Begins.antt =====
-- The protocol from its first state: the constructor and `initialize` of
-- src/server/src/sockspp/server/session.cxx, then the events of the poller.
use mathlib.Core.Path.{subst}
use sockspp.Base.{Mem, ◌≡◌, refl, sym, ◌⊎◌, inl, inr, arith, false, List}
use sockspp.System.{Call, Platform, Fd}
use sockspp.Server.Params.{ServerParams}
use sockspp.Session.{◌>>◌, World, State, Outcome, ok, fault}
use sockspp.Session.Calls.{get_peer_address, peer_name, garbage, add_event, set_blocking}
use sockspp.Session.Auth.{set_state}
use sockspp.Session.Events.{initialize}
use sockspp.Session.Teardown.{construct, new_session}
use sockspp.Session.Run.{Event, run}
use sockspp.Session.Valid.{IsValid, After}
use sockspp.Session.Valid.Lifetime.{Delivered}
use sockspp.Session.Phases.{Settles, Settles-weaken}
use sockspp.Session.Phases.Runs.{IsWaiting, LogsIn, run-LogsIn}

module _ (pf : Platform) (params : ServerParams) where
  accepted-After :
      (old : Mem) (fd : Fd) (log : List Call)
      → After false
          (λ _ w. IsValid w.session × (w.session.state ≡ State.accepted))
          ((construct >> initialize pf params) (record { session = new_session old fd; log = log }))
  unfolding construct set_blocking initialize get_peer_address peer_name garbage add_event set_state
      new_session
  accepted-After old fd log = ground arith

  -- The session that a step left, whose events let its client in.
  abbrev pub BeganAndLogsIn : List Event → Outcome (Unit {0} × World) → Type 0
  BeganAndLogsIn es o = (w : World) × (o ≡ ok (tt, w)) × LogsIn pf params es w

  began_logs_in :
      (o : Outcome (Unit {0} × World)) (es : List Event)
      → After false (λ _ w. IsValid w.session × (w.session.state ≡ State.accepted)) o
      → ((w : World) → o ≡ ok (tt, w) → Delivered pf params es w)
      → Settles
          (λ s. IsWaiting s ⊎ BeganAndLogsIn es o)
          (elim o [ fault f ↦ fault f | ok (_, w) ↦ run pf params es w ])
  began_logs_in (fault f) es h d = tt
  began_logs_in (ok (_, w)) es (v, st) d =
      Settles-weaken (λ s. IsWaiting s ⊎ LogsIn pf params es w)
        (λ s. IsWaiting s ⊎ BeganAndLogsIn es (ok (tt, w))) (run pf params es w)
        (run-LogsIn pf params es w v (subst IsWaiting (sym st) tt) (d w refl))
        (λ s p. elim p [ inl x ↦ inl x | inr x ↦ inr (w, refl, x) ])

  -- From the acceptance of a client on, over any sequence of events of which each finds its socket,
  -- a session that goes on still waits for the client to be let in, or one of the events took it,
  -- from a waiting state in which all events before had left it, to the state of a client that has
  -- been let in: no other state comes before that one.
  pub lifetime_logs_in :
      (old : Mem) (fd : Fd) (log : List Call) (es : List Event)
      → let begun =
          (construct >> initialize pf params)
            (record { session = new_session old fd; log = log }) in
        ((w : World) → begun ≡ ok (tt, w) → Delivered pf params es w)
        → Settles
            (λ s. IsWaiting s ⊎ BeganAndLogsIn es begun)
            (((construct >> initialize pf params) >> run pf params es)
              (record { session = new_session old fd; log = log }))
  lifetime_logs_in old fd log es d =
      began_logs_in
        ((construct >> initialize pf params) (record { session = new_session old fd; log = log }))
        es (accepted-After old fd log) d
