-- ===== src/Session/Teardown/Closes.antt =====
-- Every descriptor of a session is closed once: `shutdown` and the destructor of
-- src/server/src/sockspp/server/session.cxx, called one after the other by `_delete_session`.
use sockspp.Base.{ℕ, ◌+◌, ◌≡◌, refl, arith, ◌==◌, if◌then◌else◌, Option, none, some, List, [], ◌∷◌}
use sockspp.System.{Fd, Call, Notice}
use sockspp.Session.{World, Session, RemoteSocket, UdpSocket, DnsSocket, ok, ◌>>◌}
use sockspp.Session.Calls.{close}
use sockspp.Session.Teardown.{
  shutdown, destroy, end_socket, end_remote, end_udp, end_dns, closed_dns, close_dns, remote_fd,
  udp_fd,
}

-- How often a descriptor occurs among the descriptors that a session owns.
abbrev pub count_fd : ℕ → Fd → ℕ
count_fd n none = 0
count_fd n (some k) = if k == n then 1 else 0

abbrev pub count_dns : ℕ → List DnsSocket → ℕ
count_dns n [] = 0
count_dns n (d ∷ rest) = count_fd n d.fd + count_dns n rest

abbrev pub count_owned : ℕ → Session → ℕ
count_owned n s =
    count_fd n s.client_socket
    + (count_fd n (remote_fd s.remote_socket)
        + (count_fd n (udp_fd s.udp_socket) + count_dns n s.dns_sockets))

-- How often a log closes a descriptor.
abbrev pub closed_by : ℕ → Call → ℕ
closed_by n (Call.close fd) = count_fd n fd
closed_by n _ = 0

abbrev pub count_closed : ℕ → List Call → ℕ
count_closed n [] = 0
count_closed n (c ∷ log) = closed_by n c + count_closed n log

-- The log after a socket was ended, and after those of the session were.
end_log : Fd → List Call → List Call
end_log none log = Call.shut_down none ∷ Call.remove_event none ∷ log
end_log (some k) log =
    Call.close (some k) ∷ Call.shut_down (some k) ∷ Call.remove_event (some k) ∷ log

end_dns_log : List DnsSocket → List Call → List Call
end_dns_log [] log = log
end_dns_log (d ∷ rest) log = end_dns_log rest (end_log d.fd log)

end_remote_log : Option RemoteSocket → List Call → List Call
end_remote_log none log = log
end_remote_log (some r) log = end_log r.fd log

end_udp_log : Option UdpSocket → List Call → List Call
end_udp_log none log = log
end_udp_log (some u) log = end_log u.fd log

abbrev ended_remote : Option RemoteSocket → Option RemoteSocket
ended_remote none = none
ended_remote (some r) = some (record r { fd = none })

abbrev ended_udp : Option UdpSocket → Option UdpSocket
ended_udp none = none
ended_udp (some u) = some (record u { fd = none })

abbrev ended_session : Session → Session
ended_session s = record s {
  client_socket = none;
  remote_socket = ended_remote s.remote_socket;
  udp_socket = ended_udp s.udp_socket;
  dns_sockets = closed_dns s.dns_sockets;
}

abbrev ended_log : Session → List Call → List Call
ended_log s log =
    end_dns_log s.dns_sockets
      (end_udp_log s.udp_socket (end_remote_log s.remote_socket (end_log s.client_socket log)))

end_socket_lem :
    (fd : Fd) (w : World) → end_socket fd w ≡ ok (tt, record w { log = end_log fd w.log })
unfolding end_socket close end_log
end_socket_lem none w = refl
end_socket_lem (some k) w = refl

end_dns_lem :
    (l : List DnsSocket) (w : World) → end_dns l w ≡ ok (tt, record w { log = end_dns_log l w.log })
unfolding end_dns end_dns_log end_log close
end_dns_lem [] w = refl
end_dns_lem (d ∷ l) w = ground (arith, end_dns_lem l (record w { log = end_log d.fd w.log }))

end_remote_lem :
    (o : Option RemoteSocket) (w : World)
    → w.session.remote_socket ≡ o
    → end_remote o w
      ≡ ok (
        tt,
        record {
          session = record (w.session) { remote_socket = ended_remote o };
          log = end_remote_log o w.log;
        },
      )
unfolding end_remote end_remote_log
end_remote_lem none w e = ground (arith, e)
end_remote_lem (some r) w e = ground (arith, end_socket_lem r.fd w)

end_udp_lem :
    (o : Option UdpSocket) (w : World)
    → w.session.udp_socket ≡ o
    → end_udp o w
      ≡ ok (
        tt,
        record {
          session = record (w.session) { udp_socket = ended_udp o };
          log = end_udp_log o w.log;
        },
      )
unfolding end_udp end_udp_log
end_udp_lem none w e = ground (arith, e)
end_udp_lem (some u) w e = ground (arith, end_socket_lem u.fd w)

shutdown_lem :
    (w : World)
    → shutdown w
      ≡ ok (tt, record { session = ended_session w.session; log = ended_log w.session w.log })
unfolding shutdown end_log close
shutdown_lem w =
    let s = w.session in
    let log1 = end_log s.client_socket w.log in
    let w1 : World = record { session = record s { client_socket = none }; log = log1 } in
    let w2 : World = record {
      session = record (w1.session) { remote_socket = ended_remote s.remote_socket };
      log = end_remote_log s.remote_socket log1;
    } in
    let w3 : World = record {
      session = record (w2.session) { udp_socket = ended_udp s.udp_socket };
      log = end_udp_log s.udp_socket w2.log;
    } in
    let e1 = end_socket_lem s.client_socket w in
    let e2 = end_remote_lem s.remote_socket w1 refl in
    let e3 = end_udp_lem s.udp_socket w2 refl in
    let e4 = end_dns_lem s.dns_sockets w3 in ground (arith, e1, e2, e3, e4)

-- The descriptors that are closed already are not closed again.
close_dns_closed : (l : List DnsSocket) (w : World) → close_dns (closed_dns l) w ≡ ok (tt, w)
unfolding close_dns close
close_dns_closed [] w = refl
close_dns_closed (d ∷ l) w = close_dns_closed l w

remote_closed : (o : Option RemoteSocket) → remote_fd (ended_remote o) ≡ none
remote_closed none = refl
remote_closed (some r) = refl

udp_closed : (o : Option UdpSocket) → udp_fd (ended_udp o) ≡ none
udp_closed none = refl
udp_closed (some u) = refl

destroy_ended :
    (s : Session) (log : List Call)
    → destroy (record { session = ended_session s; log = log })
      ≡ ok (
        tt,
        record { session = ended_session s; log = Call.notify Notice.client_disconnected ∷ log },
      )
unfolding destroy close
destroy_ended s log =
    let w : World = record {
      session = ended_session s;
      log = Call.notify Notice.client_disconnected ∷ log;
    } in
    rw (remote_closed s.remote_socket, udp_closed s.udp_socket) (close_dns_closed s.dns_sockets w)

count-end_log :
    (n : ℕ) (fd : Fd) (log : List Call)
    → count_closed n (end_log fd log) ≡ count_fd n fd + count_closed n log
unfolding end_log
count-end_log n none log = omega arith
count-end_log n (some k) log = ground arith

count-end_dns_log :
    (n : ℕ) (l : List DnsSocket) (log : List Call)
    → count_closed n (end_dns_log l log) ≡ count_dns n l + count_closed n log
unfolding end_dns_log
count-end_dns_log n [] log = omega arith
count-end_dns_log n (d ∷ l) log =
    omega (arith, count-end_dns_log n l (end_log d.fd log), count-end_log n d.fd log)

count-end_remote_log :
    (n : ℕ) (o : Option RemoteSocket) (log : List Call)
    → count_closed n (end_remote_log o log) ≡ count_fd n (remote_fd o) + count_closed n log
unfolding end_remote_log
count-end_remote_log n none log = omega arith
count-end_remote_log n (some r) log = count-end_log n r.fd log

count-end_udp_log :
    (n : ℕ) (o : Option UdpSocket) (log : List Call)
    → count_closed n (end_udp_log o log) ≡ count_fd n (udp_fd o) + count_closed n log
unfolding end_udp_log
count-end_udp_log n none log = omega arith
count-end_udp_log n (some u) log = count-end_log n u.fd log

count-ended_log :
    (n : ℕ) (s : Session) (log : List Call)
    → count_closed n (ended_log s log) ≡ count_owned n s + count_closed n log
count-ended_log n s log =
    let log1 = end_log s.client_socket log in
    let log2 = end_remote_log s.remote_socket log1 in
    omega (
      arith,
      count-end_log n s.client_socket log,
      count-end_remote_log n s.remote_socket log1,
      count-end_udp_log n s.udp_socket log2,
      count-end_dns_log n s.dns_sockets (end_udp_log s.udp_socket log2),
    )

-- The deletion of a session, `shutdown` and then the destructor, always returns, and closes each
-- descriptor exactly as often as the session owns it: none is left open and none is closed twice.
pub deletion_closes_once :
    (w : World)
    → (w' : World) × ((shutdown >> destroy) w ≡ ok (tt, w'))
      × ((n : ℕ) → count_closed n w'.log ≡ count_owned n w.session + count_closed n w.log)
deletion_closes_once w =
    let log = ended_log w.session w.log in
    (
      record {
        session = ended_session w.session;
        log = Call.notify Notice.client_disconnected ∷ log;
      },
      ground (arith, shutdown_lem w, destroy_ended w.session log),
      λ n. omega (arith, count-ended_log n w.session w.log),
    )
