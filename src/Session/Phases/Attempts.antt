-- ===== src/Session/Phases/Attempts.antt =====
-- Attempts to connect leave the state alone: `try_connect_next` of
-- src/server/src/sockspp/server/remote_socket.cxx.
use mathlib.Core.Path.{subst}
use sockspp.Base.{
  ◌+◌, ◌-◌, ◌%◌, get_elem?, ◌≡◌, arith, inl, inr, Bool, Bool-cases, Option-cases, ◌==◌,
  if◌then◌else◌, length, some, List,
}
use sockspp.Core.IpAddress.{IpAddress}
use sockspp.System.{Platform, Fd}
use sockspp.Session.{World, RemoteSocket, State}
use sockspp.Session.Calls.{send, garbage, connect}
use sockspp.Session.Client.{send_reply}
use sockspp.Session.Auth.{size_mod}
use sockspp.Session.Remote.Attempts.{with_idx}
use sockspp.Session.Remote.{
  get_remote, put_remote, remote_error, try_connect_next, attempt, give_up, reply_remote_connection,
}
use sockspp.Session.Phases.{Leaves, Leaves-bind}

module _ (pf : Platform) where
  attempt-Leaves :
      (fd : Fd) (a : IpAddress) (w : World)
      → Leaves (λ b s. s ≡ w.session.state) (attempt pf fd a w)
  unfolding attempt reply_remote_connection send_reply send garbage connect
  attempt-Leaves fd a w = ground arith

  give_up-Leaves :
      (a : IpAddress) (w : World) → Leaves (λ b s. s ≡ w.session.state) (give_up pf a w)
  unfolding give_up reply_remote_connection send_reply send garbage
  give_up-Leaves a w = ground arith

  tried :
      (r : RemoteSocket) (as' : List IpAddress) (w : World)
      → w.session.remote_socket ≡ some r
      → r.addresses ≡ some as'
      → Leaves (λ b s. s ≡ w.session.state) (try_connect_next pf w)
  unfolding try_connect_next get_remote put_remote
  tried r as' w has list =
      let idx = (r.connecting_idx + 1) % size_mod in
      let size = length as' in
      let at = (if idx == size then (idx + size_mod - 1) % size_mod else idx) in
      elim (Option-cases (get_elem? as' at)) [
        | inl e ↦ ground arith
        | inr (a, e) ↦
            let k1 = attempt-Leaves r.fd a (with_idx w r idx) in
            let k2 = give_up-Leaves a (with_idx w r idx) in ground arith
      ]

  pub try_connect_next-Leaves :
      (w : World) → Leaves (λ b s. s ≡ w.session.state) (try_connect_next pf w)
  unfolding try_connect_next get_remote put_remote
  try_connect_next-Leaves w = elim (Option-cases w.session.remote_socket) [
    | inl e ↦ rw (e, Leaves) tt
    | inr (r, e) ↦ elim (Option-cases r.addresses) [
      | inl e' ↦ rw (e, e', Leaves) tt
      | inr (as', e') ↦ tried r as' w e e'
    ]
  ]

  own-Leaves : (w : World) → Leaves (λ (r : RemoteSocket) s. s ≡ w.session.state) (get_remote w)
  unfolding get_remote
  own-Leaves w = ground arith

  pub remote_error-Leaves : (w : World) → Leaves (λ b s. s ≡ w.session.state) (remote_error pf w)
  unfolding remote_error get_remote
  remote_error-Leaves w =
      Leaves-bind (λ (r : RemoteSocket) s. s ≡ w.session.state) (λ b s. s ≡ w.session.state) _
        get_remote w (own-Leaves w)
        (λ r w' e. elim (Bool-cases r.is_connected) [
          | inl q ↦ rw (q, Leaves) e
          | inr q ↦
              rw (q, Leaves)
                (subst (λ (st : State). Leaves (λ (b : Bool) s. s ≡ st) (try_connect_next pf w')) e
                  (try_connect_next-Leaves w'))
        ])
