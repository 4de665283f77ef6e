-- ===== src/Session/Valid/Remote.antt =====
-- The handlers of the remote socket keep a session valid: src/server/src/sockspp/server/remote_socket.cxx.
use sockspp.Base.{
  Mem, ℕ, ◌<◌, ◌≤◌, ◌≡◌, arith, length, false, some, List, Bool-cases, inl, inr, ◌==◌, get_elem?,
  ◌%◌, ◌+◌, get_elem?_in_range, ◌-◌,
}
use sockspp.Core.Enums.{Reply, AddrType}
use sockspp.Core.IpAddress.{IpAddress}
use sockspp.System.{Platform, Fd}
use sockspp.Session.{World, State, RemoteSocket}
use sockspp.Session.Calls.{send, garbage, connect, get_peer_address, peer_name, modify_event}
use sockspp.Session.Auth.{set_state, size_mod}
use sockspp.Session.Client.{send_reply}
use sockspp.Session.Remote.{
  reply_remote_connection, attempt, give_up, try_connect_next, could_connect, get_remote,
  put_remote, remote_connected,
}
use sockspp.Session.Remote.Attempts.{with_idx}
use sockspp.Session.Valid.{IsValid, Keeps, Stays, Stays-Keeps, Waits, UdpFits, After}

module _ (pf : Platform) where
  -- A reply that is no success ends in `false` and leaves the session alone.
  refuse_Keeps :
      (reply : Reply) (t : AddrType) (m : Mem) (q port : ℕ) (w : World)
      → After false (λ sent w'. w'.session ≡ w.session) (send_reply pf reply t m q port w)
  unfolding send_reply send garbage
  refuse_Keeps reply t m q port w = ground arith

  failure_Keeps : (a : IpAddress) (w : World) → Keeps false (give_up pf a w)
  unfolding give_up reply_remote_connection send_reply send garbage
  failure_Keeps a w = ground arith

  attempt-Stays :
      (fd : Fd) (a : IpAddress) (w : World) → IsValid w.session → Stays (attempt pf fd a w)
  unfolding attempt reply_remote_connection send_reply send garbage connect
  attempt-Stays fd a w v = ground arith

  -- An attempt that is not the last keeps the index inside the list.
  pub attempt_next_Stays :
      (r : RemoteSocket) (as' : List IpAddress) (w : World)
      → w.session.remote_socket ≡ some r
      → r.addresses ≡ some as'
      → w.session.state ≡ State.connecting_remote
      → (r.connecting_idx + 1) % size_mod < length as'
      → r.is_connected ≡ false
      → UdpFits State.connecting_remote w.session.udp_socket
      → length w.session.dns_sockets ≤ 1
      → Waits w.session.client_buffer
      → Waits w.session.remote_buffer
      → Stays (try_connect_next pf w)
  unfolding try_connect_next get_remote put_remote
  attempt_next_Stays r as' w has hasas st ix nc u q cw rw' =
      let idx = (r.connecting_idx + 1) % size_mod in
      let w1 = with_idx w r idx in
      let (a, at) = get_elem?_in_range as' idx ix in
      let v1 : IsValid w1.session = ground arith in
      let k = attempt-Stays r.fd a w1 v1 in ground arith

  -- A retry keeps the index inside the list, and the last one ends the session.
  pub next_Keeps :
      (r : RemoteSocket) (as' : List IpAddress) (w : World)
      → w.session.remote_socket ≡ some r
      → r.addresses ≡ some as'
      → w.session.state ≡ State.connecting_remote
      → (r.connecting_idx + 1) % size_mod ≤ length as'
      → r.is_connected ≡ false
      → 0 < length as'
      → UdpFits State.connecting_remote w.session.udp_socket
      → length w.session.dns_sockets ≤ 1
      → Waits w.session.client_buffer
      → Waits w.session.remote_buffer
      → Keeps false (try_connect_next pf w)
  unfolding try_connect_next get_remote put_remote
  next_Keeps r as' w has hasas st ix nc ne u q cw rw' =
      let idx = (r.connecting_idx + 1) % size_mod in
      let w1 = with_idx w r idx in
      elim (Bool-cases (idx == length as')) [
        | inl e ↦
            let (a, at) = get_elem?_in_range as' ((idx + size_mod - 1) % size_mod) (ground arith) in
            let k = failure_Keeps a w1 in ground arith
        | inr e ↦
            Stays-Keeps _ (attempt_next_Stays r as' w has hasas st (ground arith) nc u q cw rw')
      ]

  pub could_connect-Keeps :
      (r : RemoteSocket) (as' : List IpAddress) (a : IpAddress) (w : World)
      → w.session.remote_socket ≡ some r
      → r.addresses ≡ some as'
      → get_elem? as' r.connecting_idx ≡ some a
      → w.session.state ≡ State.connecting_remote
      → IsValid w.session
      → Keeps false (could_connect pf w)
  unfolding could_connect get_remote put_remote get_peer_address peer_name garbage
      reply_remote_connection send_reply send remote_connected modify_event set_state
  could_connect-Keeps r as' a w has hasas at st v = ground arith
