-- ===== src/Session/Run/Tunnel/Credentials.antt =====
-- The log-in of src/server/src/sockspp/server/session.cxx from the client's first bytes to the
-- server's verdict on the user name and the password that it sends.
use sockspp.Base.{
  ℕ, ◌+◌, ◌<◌, ◌≡◌, refl, ap, ◌∙◌, arith, Mem, of_bytes, slice, length, length-append,
  slice_between, byte_between, slice_last, ◌==◌, true, false, none, List, [], ◌∷◌, ◌++◌,
}
use sockspp.Core.Enums.{AuthMethod, to_auth_method, auth_method_byte, same_method}
use sockspp.Core.SocketInfo.{Sockaddr}
use sockspp.Core.Event.{only_read}
use sockspp.System.{Call, Platform}
use sockspp.Server.Params.{ServerParams, get_auth_method, authenticate}
use sockspp.Session.{World, State, ok}
use sockspp.Session.Calls.{recv, send, garbage, received_buffer}
use sockspp.Session.Udp.{buffer_size}
use sockspp.Session.Client.{send_auth}
use sockspp.Session.Auth.{check_version, request_auth, select_method}
use sockspp.Session.Auth.Select.{verdict, accepts, handle_auth_lem}
use sockspp.Session.Events.{process_client, client_in_state, process_client_event, handle_greeting}
use sockspp.Session.Run.{client, process_event}
use sockspp.Session.Run.Tunnel.{receipts, IsCooperative}

-- The client offers to log in.
abbrev pub login_greeting : List ℕ
login_greeting = 5 ∷ 1 ∷ 2 ∷ []

-- Version, user name and password, each after its length.
abbrev pub credentials : List ℕ → List ℕ → List ℕ
credentials user pass = 1 ∷ length user ∷ (user ++ length pass ∷ pass)

module _ (params : ServerParams) (user pass : List ℕ) (old : Mem) where
  abbrev login_message : Mem
  login_message = of_bytes (credentials user pass) old

  user_length : login_message 1 ≡ length user
  user_length = ground arith

  pass_length : login_message (2 + length user) ≡ length pass
  pass_length =
      byte_between (1 ∷ length user ∷ user) (length pass) pass old (2 + length user) (omega arith)

  -- The handler reads from the message what the client wrote.
  accepts-credentials : accepts params login_message ≡ authenticate params user pass
  accepts-credentials =
      let m = login_message in
      let user_at = slice_between (1 ∷ length user ∷ []) user (length pass ∷ pass) old in
      let pass_at =
        slice_last (1 ∷ length user ∷ user) (length pass) pass old (3 + length user)
          (omega arith) in
      ap (λ n. authenticate params (slice m 2 n) (slice m (3 + n) (m (2 + n)))) user_length
      ∙ ap (λ n. authenticate params (slice m 2 (length user)) (slice m (3 + length user) n))
          pass_length
      ∙ ap (λ u. authenticate params u (slice m (3 + length user) (length pass))) user_at
      ∙ ap (authenticate params user) pass_at

  message_held :
      3 + login_message 1 + login_message (2 + login_message 1) ≡ length (credentials user pass)
  message_held =
      let total = length-append user (length pass ∷ pass) in
      rw user_length (rw pass_length (omega (arith, total)))

module _ (pf : Platform) (params : ServerParams) (script : ℕ → List ℕ) (k : ℕ) (peer : Sockaddr)
    (good : IsCooperative pf script k peer) (w : World) where
  -- After the greeting and the server's choice to ask for credentials.
  abbrev pub asked_to_log_in : World
  asked_to_log_in = record {
    session = record (w.session) { state = State.auth_requested };
    log =
        Call.send w.session.client_socket (5 ∷ 2 ∷ []) ∷ Call.recv w.session.client_socket ∷ w.log;
  }

  pub offers :
      get_auth_method params ≡ AuthMethod.user_pass
      → w.session.state ≡ State.accepted
      → script (receipts w.log) ≡ login_greeting
      → process_event pf params (client only_read) w ≡ ok (true, asked_to_log_in)
  unfolding process_event process_client_event process_client client_in_state recv garbage
      handle_greeting check_version request_auth select_method send_auth send to_auth_method
      auth_method_byte same_method
  offers secret st first =
      let fd = w.session.client_socket in
      let came = good.delivers fd w.log in
      let answered = good.sends fd (5 ∷ 2 ∷ []) (Call.recv fd ∷ w.log) in
      rw (came, first, st, secret) (rw answered refl)

  -- The client's message with the credentials was received.
  abbrev pub presented : World
  presented = record w { log = Call.recv w.session.client_socket ∷ w.log }

  pub presents :
      (user pass : List ℕ)
      → length user < 256
      → length pass < 256
      → w.session.state ≡ State.auth_requested
      → script (receipts w.log) ≡ credentials user pass
      → let accepted = authenticate params user pass in
        process_event pf params (client only_read) w ≡ ok (accepted, verdict presented accepted)
  unfolding process_event process_client_event process_client client_in_state recv garbage
  presents user pass short short' st second =
      let fd = w.session.client_socket in
      let came = good.delivers fd w.log in
      let old = pf.os.garbage w.log in
      let b = received_buffer old (credentials user pass) buffer_size in
      let m = of_bytes (credentials user pass) old in
      let read = accepts-credentials params user pass old in
      let held = message_held params user pass old in
      let total = length-append user (length pass ∷ pass) in
      let answered =
        handle_auth_lem pf params m b presented refl (omega (arith, held)) (omega (arith, total)) in
      let dispatch = ap (λ (x : State). client_in_state pf params x b none presented) st in
      let some_bytes : (length (credentials user pass) == 0) ≡ false = ground arith in
      rw (came, second, some_bytes)
        (dispatch ∙ answered ∙ ap (λ v. ok (v, verdict presented v)) read)
