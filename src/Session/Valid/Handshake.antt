-- ===== src/Session/Valid/Handshake.antt =====
-- The handshake keeps a session valid: `_check_version`, `_request_auth` and `_handle_auth` of
-- src/server/src/sockspp/server/session.cxx.
use sockspp.Base.{◌≡◌, arith, Bool, true, false, Option, Bool-cases, inl, inr, ◌==◌}
use sockspp.Core.MemoryBuffer.{MemoryBuffer, mem_of}
use sockspp.Core.Enums.{AuthMethod}
use sockspp.System.{Platform}
use sockspp.Server.Params.{ServerParams}
use sockspp.Session.{World, State, Session, RemoteSocket}
use sockspp.Session.Calls.{send}
use sockspp.Session.Auth.{request_auth, handle_auth, check_version, set_state, method_state}
use sockspp.Session.Client.{send_auth, send_auth_status}
use sockspp.Session.Events.{handle_greeting}
use sockspp.Session.Valid.{IsValid, Keeps, RemoteFits}

-- The states in which a session owns no remote socket.
abbrev pub is_lone : State → Bool
is_lone State.connecting_remote = false
is_lone State.connected = false
is_lone State.associated = false
is_lone _ = true

-- The states of a session that has not asked for anything yet.
abbrev pub is_early : State → Bool
is_early State.resolving_domain_name = false
is_early State.connecting_remote = false
is_early State.connected = false
is_early State.associated = false
is_early _ = true

early_fits :
    (st st' : State) (r : Option RemoteSocket)
    → is_early st ≡ true
    → is_early st' ≡ true
    → RemoteFits st r
    → RemoteFits st' r
early_fits st st' r h h' f = ground arith

pub early_state-IsValid :
    (st : State) (s : Session)
    → is_early s.state ≡ true
    → is_early st ≡ true
    → IsValid s
    → IsValid (record s { state = st })
early_state-IsValid st s h h' v = ground arith

method-early :
    (m : AuthMethod) (st : State) → is_early st ≡ true → is_early (method_state m st) ≡ true
method-early m st h = ground arith

module _ (pf : Platform) (params : ServerParams) where
  pub auth_Keeps :
      (b : MemoryBuffer) (w : World)
      → is_early w.session.state ≡ true
      → IsValid w.session
      → Keeps false (handle_auth pf params b w)
  unfolding handle_auth send_auth_status send set_state
  auth_Keeps b w h v = ground arith

  request_auth-Keeps :
      (b : MemoryBuffer) (w : World)
      → is_early w.session.state ≡ true
      → IsValid w.session
      → Keeps false (request_auth pf params b w)
  unfolding request_auth send_auth send
  request_auth-Keeps b w h v = ground arith

  pub greeting_Keeps :
      (b : MemoryBuffer) (w : World)
      → is_early w.session.state ≡ true
      → IsValid w.session
      → Keeps false (handle_greeting pf params b w)
  unfolding handle_greeting check_version send_auth send
  greeting_Keeps b w h v = elim (Bool-cases (mem_of b.ptr 0 == 5)) [
    | inl e ↦ rw (e, Keeps) (request_auth-Keeps b w h v)
    | inr e ↦ rw (e, Keeps) tt
  ]
