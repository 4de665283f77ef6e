-- ===== src/Session/Auth/Select.antt =====
-- The handshake of src/server/src/sockspp/server/session.cxx and `Server::authenticate` of
-- server.cxx: which method is selected, and who is let in.
use sockspp.Base.{
  ℕ, zero, suc, ◌+◌, ◌≤◌, ◌<◌, ◌≡◌, ◌↔◌, inl, inr, refl, arith, Mem, slice, Bool, true, Bool-cases,
  if◌then◌else◌, ◌==◌, [], ◌∷◌, some,
}
use sockspp.Core.Enums.{AuthMethod, auth_method_byte, to_auth_method, same_method}
use sockspp.Core.MemoryBuffer.{MemoryBuffer}
use sockspp.System.{Call, Platform}
use sockspp.Server.Params.{ServerParams, authenticate}
use sockspp.Session.{World, State, ok}
use sockspp.Session.Calls.{send}
use sockspp.Session.Client.{send_auth_status}
use sockspp.Session.Auth.{select_method, handle_auth}

byte_back : (b : ℕ) → auth_method_byte (to_auth_method b) ≡ b
unfolding auth_method_byte to_auth_method
byte_back b = ground arith

-- One round of the loop.
select_step :
    (m : Mem) (wanted : AuthMethod) (i n : ℕ)
    → select_method m wanted i (suc n) ≡ (
        if m (i + 2) == auth_method_byte wanted
        then to_auth_method (m (i + 2))
        else select_method m wanted (i + 1) n)
unfolding select_method same_method
select_step m wanted i n = ground (arith, byte_back (m (i + 2)))

Offered : Mem → ℕ → ℕ → ℕ → Type 0
Offered m i n byte = (j : ℕ) × (j < n) × (m (i + j + 2) ≡ byte)

none_selected :
    (m : Mem) (wanted : AuthMethod) (i : ℕ) → auth_method_byte (select_method m wanted i zero) ≡ 255
unfolding select_method auth_method_byte
none_selected m wanted i = refl

found :
    (m : Mem) (wanted : AuthMethod) (i n : ℕ)
    → auth_method_byte wanted < 255
    → same_method (select_method m wanted i n) wanted ≡ true
    → Offered m i n (auth_method_byte wanted)
unfolding same_method Offered
found m wanted i zero h e = absurd (ground (arith, none_selected m wanted i))
found m wanted i (suc n) h e = elim (Bool-cases (m (i + 2) == auth_method_byte wanted)) [
  | inl here ↦ (0, omega arith, ground arith)
  | inr other ↦
      let (j, lt, at) = found m wanted (i + 1) n h (ground (arith, select_step m wanted i n)) in
      (suc j, omega arith, ground arith)
]

selected :
    (m : Mem) (wanted : AuthMethod) (i n j : ℕ)
    → j < n
    → m (i + j + 2) ≡ auth_method_byte wanted
    → same_method (select_method m wanted i n) wanted ≡ true
unfolding same_method
selected m wanted i zero j h e = elim h [ ]
selected m wanted i (suc n) zero h e =
    ground (arith, select_step m wanted i n, byte_back (m (i + 2)))
selected m wanted i (suc n) (suc j) h e = elim (Bool-cases (m (i + 2) == auth_method_byte wanted)) [
  | inl here ↦ ground (arith, select_step m wanted i n, byte_back (m (i + 2)))
  | inr other ↦
      let moved : i + 1 + j + 2 ≡ i + suc j + 2 = omega arith in
      ground
        (arith, select_step m wanted i n, selected m wanted (i + 1) n j (omega arith) (rw moved e))
]

-- The loop selects the method that the server wants, which has another byte than 255, exactly if
-- the client offers it at one of the `n` places from `i` on.
pub select_method_iff :
    (m : Mem) (wanted : AuthMethod) (i n : ℕ)
    → auth_method_byte wanted < 255
    → (same_method (select_method m wanted i n) wanted ≡ true)
      ↔ ((j : ℕ) × (j < n) × (m (i + j + 2) ≡ auth_method_byte wanted))
unfolding Offered
select_method_iff m wanted i n h =
    (found m wanted i n h, λ (j, lt, at). selected m wanted i n j lt at)

-- The session after the verdict on the credentials was sent.
abbrev pub verdict : World → Bool → World
verdict w accepted = record {
  session = (if accepted then record (w.session) { state = State.authenticated } else w.session);
  log = Call.send w.session.client_socket (5 ∷ (if accepted then 0 else 255) ∷ []) ∷ w.log;
}

-- What the message names, and what the server says to it.
abbrev pub accepts : ServerParams → Mem → Bool
accepts params m = authenticate params (slice m 2 (m 1)) (slice m (3 + m 1) (m (2 + m 1)))

-- A message of at most 8192 bytes that holds the user name and the password that it announces is
-- answered by the server's verdict on them: 0 and the session is authenticated, or 255 and the
-- handler returns false.
pub handle_auth_lem :
    (pf : Platform) (params : ServerParams) (m : Mem) (b : MemoryBuffer) (w : World)
    → b.ptr ≡ some m
    → 3 + m 1 + m (2 + m 1) ≤ b.size
    → b.size ≤ 8192
    → handle_auth pf params b w ≡ ok (accepts params m, verdict w (accepts params m))
unfolding handle_auth send_auth_status send
handle_auth_lem pf params m b w e h fits = ground arith

-- A message of at most 8192 bytes that ends with its user name passes the checks on lengths all
-- the same: the password, with its length of one byte, is what the memory behind the message
-- holds.
pub handle_auth_overread :
    (pf : Platform) (params : ServerParams) (m : Mem) (b : MemoryBuffer) (w : World)
    → b.ptr ≡ some m
    → 2 + m 1 ≡ b.size
    → b.size ≤ 8192
    → m (2 + m 1) < 256
    → handle_auth pf params b w ≡ ok (accepts params m, verdict w (accepts params m))
unfolding handle_auth send_auth_status send
handle_auth_overread pf params m b w e h fits byte = ground arith
