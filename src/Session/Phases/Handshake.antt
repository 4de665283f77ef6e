-- ===== src/Session/Phases/Handshake.antt =====
-- Where the handshake of src/server/src/sockspp/server/session.cxx leads.
use mathlib.Core.Path.{subst}
use sockspp.Base.{◌≡◌, sym, List, [], ◌∷◌, inl, inr, arith, Bool-cases, ◌==◌}
use sockspp.Core.MemoryBuffer.{MemoryBuffer, mem_of}
use sockspp.Core.Enums.{AuthMethod, same_method, auth_method_byte}
use sockspp.System.{Call, Platform}
use sockspp.Server.Params.{ServerParams, get_auth_method}
use sockspp.Session.{World, State}
use sockspp.Session.Calls.{is_failed, send}
use sockspp.Session.Client.{send_auth, send_auth_status}
use sockspp.Session.Auth.{
  request_auth, handle_auth, select_method, check_version, set_state, method_state,
}
use sockspp.Session.Events.{handle_greeting}
use sockspp.Session.Phases.{Settles, Moves, stays, admits, asks_login}

module _ (pf : Platform) (params : ServerParams) where
  method_moves :
      (m : AuthMethod) (s : State) → s ≡ State.accepted → Moves State.accepted (method_state m s)
  method_moves AuthMethod.no_auth s e = admits
  method_moves AuthMethod.user_pass s e = asks_login
  method_moves AuthMethod.invalid s e = subst (Moves State.accepted) (sym e) stays
  method_moves (AuthMethod.other b) s e = subst (Moves State.accepted) (sym e) stays

  request_auth-Settles :
      (b : MemoryBuffer) (w : World)
      → w.session.state ≡ State.accepted
      → Settles (Moves State.accepted) (request_auth pf params b w)
  unfolding request_auth send_auth send
  request_auth-Settles b w e =
      let m = select_method (mem_of b.ptr) (get_auth_method params) 0 (mem_of b.ptr 1) in
      let log : List Call =
        Call.send w.session.client_socket (5 ∷ auth_method_byte m ∷ []) ∷ w.log in
      elim (Bool-cases (is_failed (pf.os.result log))) [
        | inl e1 ↦ rw (e1, Settles) tt
        | inr e1 ↦ elim (Bool-cases (same_method m (get_auth_method params))) [
          | inl e2 ↦ rw (e1, e2, Settles) (method_moves m w.session.state e)
          | inr e2 ↦ rw (e1, e2, Settles) tt
        ]
      ]

  pub greeting-Settles :
      (b : MemoryBuffer) (w : World)
      → w.session.state ≡ State.accepted
      → Settles (Moves State.accepted) (handle_greeting pf params b w)
  unfolding handle_greeting check_version send_auth send
  greeting-Settles b w h = elim (Bool-cases (mem_of b.ptr 0 == 5)) [
    | inl e ↦ rw (e, Settles) (request_auth-Settles b w h)
    | inr e ↦ rw (e, Settles) tt
  ]

  pub auth-Settles :
      (b : MemoryBuffer) (w : World)
      → Settles (λ s. s ≡ State.authenticated) (handle_auth pf params b w)
  unfolding handle_auth send_auth_status send set_state
  auth-Settles b w = ground arith
