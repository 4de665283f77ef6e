-- ===== src/Session/Dns/Answers.antt =====
-- The addresses that a DNS answer gives: `get_response` of
-- src/server/src/sockspp/server/dns_socket.cxx.
use sockspp.Base.{
  ℕ, ◌<◌, ◌≡◌, ◌≢◌, ◌⊎◌, refl, sym, ap, ◌∙◌, arith, Mem, of_bytes, slice, slice-of_bytes, htons,
  length, false, none, some, List, [], ◌∷◌, map,
}
use sockspp.Core.MemoryBuffer.{slice-copy}
use sockspp.Core.SocketInfo.{Sockaddr, IpVersion, ipv4, ipv6, family_of, address_size}
use sockspp.Core.IpAddress.{IpAddress, of_raw, get_netport}
use sockspp.System.{Answer, Call, Platform, Received, IoResult}
use sockspp.Session.{World, DnsSocket, ok}
use sockspp.Session.Calls.{recv_from, garbage}
use sockspp.Session.Remote.{address_sockaddr}
use sockspp.Session.Dns.{answer_version, take_answers, get_response}

-- A record of class IN that holds an address of this version.
pub record Holds (v : IpVersion) (bytes : List ℕ) (a : Answer) : Type 0 where
  pub internet : a.class ≡ 1
  pub kind : a.type ≡ (elim v [ ipv4 ↦ 1 | ipv6 ↦ 28 ])
  pub data_bytes : a.rdata ≡ some bytes
  pub whole : length bytes ≡ address_size v

-- The addresses that a list of records gives for a port, in its order: those of the records of
-- class IN and type A or AAAA, whose data is whole, and nothing for the other records.
pub data Gives (port : ℕ) : List Answer → List Sockaddr → Type 0 where
  nothing : Gives port [] []
  address :
      {a : Answer} {rest : List Answer} {l : List Sockaddr} (v : IpVersion) (bytes : List ℕ)
      → Holds v bytes a
      → Gives port rest l
      → Gives port (a ∷ rest) (record { family = family_of v; addr = bytes; port = htons port } ∷ l)
  other :
      {a : Answer} {rest : List Answer} {l : List Sockaddr}
      → (a.class ≢ 1) ⊎ ((a.type ≢ 1) × (a.type ≢ 28))
      → Gives port rest l
      → Gives port (a ∷ rest) l

Holds-version :
    (v : IpVersion) (bytes : List ℕ) (a : Answer) → Holds v bytes a → answer_version a ≡ some v
unfolding answer_version
Holds-version ipv4 bytes a h = ground (arith, h.internet, h.kind)
Holds-version ipv6 bytes a h = ground (arith, h.internet, h.kind)

no_version : (a : Answer) → (a.class ≢ 1) ⊎ ((a.type ≢ 1) × (a.type ≢ 28)) → answer_version a ≡ none
unfolding answer_version
no_version a h = ground (arith, h)

held_sockaddr :
    (old : Mem) (v : IpVersion) (bytes : List ℕ) (port : ℕ)
    → length bytes ≡ address_size v
    → address_sockaddr (of_raw old v (of_bytes bytes old) 0 port false)
      ≡ record { family = family_of v; addr = bytes; port = htons port }
unfolding address_sockaddr of_raw get_netport
held_sockaddr old v bytes port whole =
    let n = address_size v in
    let held : slice (of_bytes bytes old) 0 n ≡ bytes =
      ap (slice (of_bytes bytes old) 0) (sym whole) ∙ slice-of_bytes bytes old in
    ground (arith, slice-copy old (of_bytes bytes old) 0 n, held)

taken :
    (old : Mem) (port : ℕ) {answers : List Answer} {l : List Sockaddr} (w : World)
    → Gives port answers l
    → (as' : List IpAddress) × (take_answers old port answers w ≡ ok (as', w))
      × (map address_sockaddr as' ≡ l)
unfolding take_answers
taken old port w nothing = ([], refl, refl)
taken old port {answers = a ∷ rest} w (address v bytes h g) =
    let (as', done, same) = taken old port w g in
    (
      of_raw old v (of_bytes bytes old) 0 port false ∷ as',
      ground (arith, Holds-version v bytes a h, h.data_bytes, done),
      ground (arith, held_sockaddr old v bytes port h.whole, same),
    )
taken old port {answers = a ∷ rest} w (other h g) =
    let (as', done, same) = taken old port w g in (as', ground (arith, no_version a h, done), same)

-- A DNS answer that can be decoded gives, in order, the addresses of its records of class IN and
-- type A or AAAA, when their data is whole, each with the port of the request.
pub get_response_lem :
    (pf : Platform) (d : DnsSocket) (w : World) (bytes : List ℕ) (sender : Sockaddr)
    (answers : List Answer) {l : List Sockaddr}
    → pf.os.received (Call.recv_from d.fd ∷ w.log) ≡ Received.got bytes sender
    → 0 < length bytes
    → pf.dns_lib.decode bytes ≡ some answers
    → Gives d.port answers l
    → (as' : List IpAddress) × (get_response pf d w
        ≡ ok ((IoResult.count (length bytes), as'), record w { log = Call.recv_from d.fd ∷ w.log }))
      × (map address_sockaddr as' ≡ l)
unfolding get_response recv_from garbage
get_response_lem pf d w bytes sender answers arrives some_bytes decoded g =
    let w1 : World = record w { log = Call.recv_from d.fd ∷ w.log } in
    let (as', done, same) = taken (pf.os.garbage w1.log) d.port w1 g in
    (as', ground (arith, done), same)
