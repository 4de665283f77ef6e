-- ===== src/Session/Auth.antt =====
-- The handshake of src/server/src/sockspp/server/session.cxx: `_check_version`, `_request_auth` and
-- `_handle_auth`. A buffer has 8192 bytes; those beyond its size are whatever the stack held.
pub mod Select
use sockspp.Base.{
  ℕ, zero, suc, ◌+◌, ◌-◌, ◌%◌, Mem, slice, Bool, true, false, not, ltb, ◌==◌, if◌then◌else◌, Option,
  none, some,
}
use sockspp.Core.Enums.{AuthMethod, to_auth_method, same_method, auth_method_byte}
use sockspp.Core.MemoryBuffer.{MemoryBuffer, mem_of}
use sockspp.System.{Platform}
use sockspp.Server.Params.{ServerParams, get_auth_method, authenticate}
use sockspp.Session.{M, State, Session, get, put, pure, ◌>>=◌, ◌>>◌}
use sockspp.Session.Client.{send_auth, send_auth_status}

-- `size_t` is 64 bits wide.
abbrev pub size_mod : ℕ
size_mod = 18446744073709551616

-- `a - b` on `size_t` operands.
abbrev pub sub_size : ℕ → ℕ → ℕ
sub_size a b = (a + size_mod - b) % size_mod

unfoldable pub set_state : State → M (Unit {0})
set_state st = do s ← get; put (record s { state = st })

-- The loop of `_request_auth` from index `i`, with `rounds` methods left to look at.
unfoldable pub select_method : Mem → AuthMethod → ℕ → ℕ → AuthMethod
unfolding same_method auth_method_byte
select_method m wanted i zero = AuthMethod.invalid
select_method m wanted i (suc rounds) =
    let method = to_auth_method (m (i + 2)) in
    let rest = select_method m wanted (i + 1) rounds in
    if same_method method wanted then method else rest

-- The state that the selected method leads to.
abbrev pub method_state : AuthMethod → State → State
method_state AuthMethod.no_auth st = State.authenticated
method_state AuthMethod.user_pass st = State.auth_requested
method_state AuthMethod.invalid st = st
method_state (AuthMethod.other b) st = st

module _ (pf : Platform) where
  unfoldable pub check_version : MemoryBuffer → M Bool
  check_version buffer =
      let reject = (do _ ← send_auth pf AuthMethod.invalid; pure false) in
      if mem_of buffer.ptr 0 == 5 then pure true else reject

module _ (pf : Platform) (params : ServerParams) where
  unfoldable pub request_auth : MemoryBuffer → M Bool
  unfolding select_method set_state
  request_auth buffer = do
    let data_mem = mem_of buffer.ptr
    let wanted = get_auth_method params
    let selected = select_method data_mem wanted 0 (data_mem 1)
    sent ← send_auth pf selected
    s ← get
    let proceed = (do put (record s { state = method_state selected s.state }); pure true)
    if not sent
        then pure false
        else if not (same_method selected wanted)
        then pure false
        else proceed

  -- The two length checks are made on `size_t`, so they wrap below zero.
  unfoldable pub handle_auth : MemoryBuffer → M Bool
  unfolding set_state
  handle_auth buffer = do
    let data_mem = mem_of buffer.ptr
    let username_len = data_mem 1
    let password_len = data_mem (2 + username_len)
    let username = slice data_mem 2 username_len
    let password = slice data_mem (3 + username_len) password_len
    let accept = (do _ ← send_auth_status pf 0; set_state State.authenticated; pure true)
    let reject = (do _ ← send_auth_status pf 255; pure false)
    if ltb (sub_size buffer.size 2) username_len
        then pure false
        else if ltb (sub_size (sub_size buffer.size username_len) 3) password_len
        then pure false
        else if authenticate params username password
        then accept
        else reject
