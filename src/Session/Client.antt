-- ===== src/Session/Client.antt =====
-- src/server/src/sockspp/server/client_socket.cxx: what the server says to the client.
pub mod Wire
use sockspp.Base.{ℕ, Mem, slice, Bool, true, false, not, Option, none, some, List, [], ◌∷◌}
use sockspp.Core.Enums.{AuthMethod, auth_method_byte, AddrType, Reply}
use sockspp.Core.S5.{
  set_version, set_reply, set_type, set_address, set_port, message_address, message_size,
}
use sockspp.System.{Fd, Platform, IoResult}
use sockspp.Session.{M, Session, get, pure, ◌>>=◌}
use sockspp.Session.Calls.{send, garbage, is_failed, to_bool}

-- The array that `send_reply` fills; `old` is what it held before, `bind_addr = s + q`.
unfoldable pub reply_message : Mem → Reply → AddrType → Mem → ℕ → ℕ → Mem
unfolding message_address
reply_message old reply addr_type s q port =
    let m1 = set_reply (set_version old 0 5) 0 reply in
    let p = message_address 0 in set_port (set_address (set_type m1 p addr_type) p s q) p port false

module _ (pf : Platform) where
  unfoldable pub send_auth : AuthMethod → M Bool
  send_auth method = do
    s ← get
    res ← send pf s.client_socket (5 ∷ auth_method_byte method ∷ [])
    pure (not (is_failed res))

  unfoldable pub send_auth_status : ℕ → M Bool
  send_auth_status status = do
    s ← get
    res ← send pf s.client_socket (5 ∷ status ∷ [])
    pure (not (is_failed res))

  -- The `int` of `send` is returned as a `bool`.
  unfoldable pub send_reply : Reply → AddrType → Mem → ℕ → ℕ → M Bool
  unfolding reply_message
  send_reply reply addr_type s q port = do
    session ← get
    old ← garbage pf
    let message = reply_message old reply addr_type s q port
    res ← send pf session.client_socket (slice message 0 (message_size message 0))
    pure (to_bool res)
