-- ===== src/Session/Remote/Attempts.antt =====
-- The addresses of a remote host, tried one after the other: `RemoteSocket::try_connect_next` of
-- src/server/src/sockspp/server/remote_socket.cxx, which `process_remote_event` of session.cxx calls
-- for an error event.
use sockspp.Base.{
  ℕ, zero, suc, ◌+◌, ◌-◌, ◌%◌, ◌<◌, ◌≡◌, refl, ap, ◌∙◌, arith, length, length-append, get_elem?,
  true, false, some, List, [], ◌∷◌, ◌++◌,
}
use mathlib.Core.List.{append_assoc}
use native.Mathlib.Nat.{add-zero, zero-add}
use sockspp.Core.IpAddress.{IpAddress}
use sockspp.System.{Fd, Call, Platform}
use sockspp.Session.{World, RemoteSocket, ok}
use sockspp.Session.Calls.{connect}
use sockspp.Session.Auth.{size_mod}
use sockspp.Session.Remote.{
  address_sockaddr, get_remote, is_pending, remote_error, try_connect_next,
}
use sockspp.Session.Events.{process_remote_event}
use sockspp.Session.Run.{Event, remote, process_event, run}
use sockspp.Core.Event.{only_error}
use sockspp.Server.Params.{ServerParams}

-- The index before attempt `k` (from 0), as a `size_t`.
abbrev pub idx_before : ℕ → ℕ
idx_before zero = size_mod - 1
idx_before (suc k) = k

abbrev pub with_idx : World → RemoteSocket → ℕ → World
with_idx w r k = record w {
  session = record (w.session) { remote_socket = some (record r { connecting_idx = k }) };
}

abbrev pub connecting : World → RemoteSocket → ℕ → IpAddress → World
connecting w r k a = record (with_idx w r k) {
  log = Call.connect r.fd (address_sockaddr a) ∷ w.log;
}

wrap_idx : (k : ℕ) → k < size_mod → (idx_before k + 1) % size_mod ≡ k
wrap_idx zero h = refl
wrap_idx (suc k) h = omega arith

module _ (pf : Platform) where
  attempt_next :
      (w : World) (r : RemoteSocket) (as' : List IpAddress) (k : ℕ) (a : IpAddress)
      → w.session.remote_socket ≡ some r
      → r.addresses ≡ some as'
      → r.connecting_idx ≡ idx_before k
      → length as' < size_mod
      → k < length as'
      → get_elem? as' k ≡ some a
      → is_pending (pf.os.result (Call.connect r.fd (address_sockaddr a) ∷ w.log)) ≡ true
      → try_connect_next pf w ≡ ok (true, connecting w r k a)
  unfolding try_connect_next connect
  attempt_next w r as' k a has addrs idx small lt at pending =
      let wrapped : (r.connecting_idx + 1) % size_mod ≡ k =
        ap (λ (n : ℕ). (n + 1) % size_mod) idx ∙ wrap_idx k (omega arith) in
      ground arith

  -- An error event on a socket that is not connected.
  error_tries :
      (params : ServerParams) (w : World) (r : RemoteSocket)
      → w.session.remote_socket ≡ some r
      → r.is_connected ≡ false
      → process_event pf params (remote only_error) w ≡ try_connect_next pf w
  unfolding process_event process_remote_event remote_error get_remote
  error_tries params w r has fresh = rw (has, fresh) refl

-- `n` error events on the remote socket.
abbrev pub errors : ℕ → List Event
errors zero = []
errors (suc n) = remote only_error ∷ errors n

-- The log after a `connect` to each address in turn.
abbrev pub connects : Fd → List IpAddress → List Call → List Call
connects fd [] log = log
connects fd (a ∷ rest) log = connects fd rest (Call.connect fd (address_sockaddr a) ∷ log)

pub get_elem?_middle :
    (pre : List IpAddress) (a : IpAddress) (rest : List IpAddress)
    → get_elem? (pre ++ a ∷ rest) (length pre) ≡ some a
get_elem?_middle [] a rest = refl
get_elem?_middle (x ∷ pre) a rest = get_elem?_middle pre a rest

module _ (pf : Platform) (params : ServerParams)
    (never_refused : (log : List Call) → is_pending (pf.os.result log) ≡ true) where
  try_rest :
      (rest pre : List IpAddress) (w : World) (r : RemoteSocket)
      → w.session.remote_socket ≡ some r
      → r.is_connected ≡ false
      → r.addresses ≡ some (pre ++ rest)
      → r.connecting_idx ≡ idx_before (length pre)
      → length (pre ++ rest) < size_mod
      → (w' : World) × (run pf params (errors (length rest)) w ≡ ok (true, w'))
        × (w'.log ≡ connects r.fd rest w.log)
        × (w'.session.remote_socket
            ≡ some (record r { connecting_idx = idx_before (length pre + length rest) }))
        × (w'.session.state ≡ w.session.state)
  unfolding run
  try_rest [] pre w r has fresh addrs idx small =
      let same : r.connecting_idx ≡ idx_before (length pre + 0) = rw add-zero idx in
      (w, refl, refl, ground arith, refl)
  try_rest (a ∷ rest) pre w r has fresh addrs idx small =
      let w1 = connecting w r (length pre) a in
      let r1 : RemoteSocket = record r { connecting_idx = length pre } in
      let step =
        error_tries pf params w r has fresh
        ∙ attempt_next pf w r (pre ++ a ∷ rest) (length pre) a has addrs idx small
            (omega (arith, length-append pre (a ∷ rest))) (get_elem?_middle pre a rest)
            (never_refused _) in
      let count : length (pre ++ a ∷ []) ≡ suc (length pre) =
        omega (arith, length-append pre (a ∷ [])) in
      let moved : length (pre ++ a ∷ []) + length rest ≡ length pre + suc (length rest) =
        omega (arith, length-append pre (a ∷ [])) in
      let joined : (pre ++ a ∷ []) ++ rest ≡ pre ++ a ∷ rest = append_assoc pre (a ∷ []) rest in
      let (w', done, log, last, state) =
        try_rest rest (pre ++ a ∷ []) w1 r1 refl fresh (rw joined addrs) (rw count)
          (rw joined small) in
      (w', ground (arith, step, done), log, rw (← moved) last, state)

  -- A session that connects to a list of addresses, when no `connect` is refused at once: as many
  -- error events as there are addresses make one `connect` to each, in the order of the list, and
  -- nothing else; the session goes on.
  pub tries_in_order :
      (as' : List IpAddress) (w : World) (r : RemoteSocket)
      → w.session.remote_socket ≡ some r
      → r.is_connected ≡ false
      → r.addresses ≡ some as'
      → r.connecting_idx ≡ size_mod - 1
      → length as' < size_mod
      → (w' : World) × (run pf params (errors (length as')) w ≡ ok (true, w'))
        × (w'.log ≡ connects r.fd as' w.log)
        × (w'.session.remote_socket ≡ some (record r { connecting_idx = idx_before (length as') }))
        × (w'.session.state ≡ w.session.state)
  tries_in_order as' w r has fresh addrs idx small =
      rw zero-add at (try_rest as' [] w r has fresh addrs idx small)
