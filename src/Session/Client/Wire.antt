-- ===== src/Session/Client/Wire.antt =====
-- The bytes of a reply: `ClientSocket::send_reply` of src/server/src/sockspp/server/client_socket.cxx.
use sockspp.Base.{
  ℕ, suc, ◌+◌, ◌/◌, ◌%◌, ◌<◌, ◌≡◌, ◌≢◌, refl, arith, Mem, write, slice, slice-append, slice_ext,
  false, List, [], ◌∷◌, ◌++◌,
}
use sockspp.Core.Enums.{AddrType, to_addr_type, addr_type_byte, Reply, reply_byte}
use sockspp.Core.S5.{
  get_size, set_version, set_reply, set_type, set_address, set_port, message_address, message_size,
}
use sockspp.Core.S5.Layout.{fill, fill_at, IsRoutable, address_length}
use sockspp.Core.S5.Fields.{size_back, bytes_back}
use sockspp.System.{Call, Platform}
use sockspp.Session.{World, ok}
use sockspp.Session.Calls.{send, garbage, to_bool}
use sockspp.Session.Client.{reply_message, send_reply}

-- An address, as RFC 1928 writes it, and a reply with the reserved byte that it carries.
abbrev pub wire_address : AddrType → Mem → ℕ → ℕ → List ℕ
wire_address t s q port =
    addr_type_byte t ∷ (slice s q (address_length t (s q)) ++ port / 256 ∷ port % 256 ∷ [])

abbrev pub wire_reply : ℕ → Reply → AddrType → Mem → ℕ → ℕ → List ℕ
wire_reply reserved reply t s q port = 5 ∷ reply_byte reply ∷ reserved ∷ wire_address t s q port

-- The bytes of an address in an array that the setters filled at `p`.
pub fill_wire :
    (m : Mem) (p : ℕ) {t : AddrType} (s : Mem) (q port : ℕ)
    → IsRoutable t
    → port < 65536
    → slice (fill m p t s q port false) p (address_length t (s q) + 3) ≡ wire_address t s q port
unfolding slice
fill_wire m p {t = t} s q port r h =
    let out = fill m p t s q port false in
    let len = address_length t (s q) in
    let at = λ (i : ℕ). fill_at m p s q port false i r in
    let body : slice out (p + 1) len ≡ slice s q len =
      slice_ext out s (p + 1) q len (bytes_back m p s q port false r) in
    let shape : len + 3 ≡ suc (len + 2) = omega arith in
    let split : slice out (p + 1) (len + 2) ≡ slice out (p + 1) len ++ slice out (p + 1 + len) 2 =
      slice-append out (p + 1) len 2 in
    rw (shape, split, body) (ground (arith, at p, at (p + 1 + len), at (p + 1 + len + 1)))

reply_bytes :
    (m : Mem) (reply : Reply) {t : AddrType} (s : Mem) (q port : ℕ)
    → IsRoutable t
    → port < 65536
    → let message = reply_message m reply t s q port in
      slice message 0 (message_size message 0) ≡ wire_reply (m 2) reply t s q port
unfolding reply_message message_size set_version set_reply message_address slice
reply_bytes m reply {t = t} s q port r h =
    let m1 = set_reply (set_version m 0 5) 0 reply in
    let out = fill m1 3 t s q port false in
    let len = address_length t (s q) in
    let size : get_size out 3 + 3 ≡ suc (suc (suc (len + 3))) =
      omega (arith, size_back m1 3 s q port false r) in
    rw (size, fill_wire m1 3 s q port r h)
      (ground (
        arith,
        fill_at m1 3 s q port false 0 r,
        fill_at m1 3 s q port false 1 r,
        fill_at m1 3 s q port false 2 r,
      ))

no_address_type : (m : Mem) (p b : ℕ) → m p ≡ b → b ≢ 1 → b ≢ 3 → b ≢ 4 → get_size m p ≡ 0
unfolding get_size to_addr_type
no_address_type m p b e n1 n3 n4 = ground arith

no_address_kept :
    (m : Mem) (p b : ℕ) (s : Mem) (q port : ℕ)
    → m p ≡ b
    → b ≢ 1
    → b ≢ 3
    → b ≢ 4
    → set_port (set_address m p s q) p port false ≡ m
unfolding set_port set_address to_addr_type
no_address_kept m p b s q port e n1 n3 n4 = ground arith

short_bytes :
    (m : Mem) (reply : Reply) (b : ℕ) (s : Mem) (q port : ℕ)
    → b ≢ 1
    → b ≢ 3
    → b ≢ 4
    → let message = reply_message m reply (AddrType.other b) s q port in
      slice message 0 (message_size message 0) ≡ 5 ∷ reply_byte reply ∷ m 2 ∷ []
unfolding reply_message message_size set_version set_reply set_type addr_type_byte message_address
    slice
short_bytes m reply b s q port n1 n3 n4 =
    let out = write (write (write m 0 5) 1 (reply_byte reply)) 3 b in
    rw (no_address_kept out 3 b s q port refl n1 n3 n4, no_address_type out 3 b refl n1 n3 n4) refl

-- A reply with an IPv4 address, an IPv6 address or a domain name and a 16-bit port is one `send`
-- to the client of the version 5, the reply's byte, a reserved byte, the address type, the address
-- and the port in network order. The reserved byte is the one that the array held before, and the
-- result is false only if `send` takes no byte: a `send` that fails counts as done.
pub send_reply_lem :
    (pf : Platform) (w : World) (reply : Reply) {t : AddrType} (s : Mem) (q port : ℕ)
    → IsRoutable t
    → port < 65536
    → let log =
        Call.send w.session.client_socket (wire_reply (pf.os.garbage w.log 2) reply t s q port)
        ∷ w.log in
      send_reply pf reply t s q port w ≡ ok (to_bool (pf.os.result log), record w { log = log })
unfolding send_reply send garbage
send_reply_lem pf w reply s q port r h =
    rw (reply_bytes (pf.os.garbage w.log) reply s q port r h) refl

-- A reply that names an address type which is none of the three has no address at all: the client
-- gets three bytes, and the result is as for other replies.
pub send_reply_no_address :
    (pf : Platform) (w : World) (reply : Reply) (b : ℕ) (s : Mem) (q port : ℕ)
    → b ≢ 1
    → b ≢ 3
    → b ≢ 4
    → let log =
        Call.send w.session.client_socket (5 ∷ reply_byte reply ∷ pf.os.garbage w.log 2 ∷ [])
        ∷ w.log in
      send_reply pf reply (AddrType.other b) s q port w
      ≡ ok (to_bool (pf.os.result log), record w { log = log })
unfolding send_reply send garbage
send_reply_no_address pf w reply b s q port n1 n3 n4 =
    rw (short_bytes (pf.os.garbage w.log) reply b s q port n1 n3 n4) refl
