-- ===== src/Session/Dns.antt =====
-- The answer to a query: `get_response` of src/server/src/sockspp/server/dns_socket.cxx. The decoding
-- of the message is the DNS library's. What is written to the log when no address came is not modelled:
-- for that the code reads a table of six texts at the answer's RCODE, which may pass its end.
pub mod Answers
use sockspp.Base.{
  ℕ, Mem, of_bytes, length, false, ◌==◌, if◌then◌else◌, Option, none, some, List, [], ◌∷◌, ◌++◌,
}
use sockspp.Core.SocketInfo.{IpVersion, ipv4, ipv6}
use sockspp.Core.IpAddress.{IpAddress, of_raw}
use sockspp.System.{Answer, Platform, Received, IoResult}
use sockspp.Session.{M, null_pointer, dns_message, DnsSocket, expect, pure, ◌>>=◌}
use sockspp.Session.Calls.{recv_from, garbage}

-- `CLASS_IN`, `RDATA_A` and `RDATA_AAAA` of src/core/src/dnslib/dns.h.
abbrev pub class_in : ℕ
class_in = 1

abbrev pub rdata_a : ℕ
rdata_a = 1

abbrev pub rdata_aaaa : ℕ
rdata_aaaa = 28

-- The version of the address in an answer that the loop takes.
unfoldable pub answer_version : Answer → Option IpVersion
answer_version a =
    if a.class == class_in
    then (if a.type == rdata_a then some ipv4 else if a.type == rdata_aaaa then some ipv6 else none)
    else none

-- One round of the loop; an answer of these types with no data is a null pointer.
unfoldable pub take_answer : Mem → ℕ → Answer → M (List IpAddress)
unfolding answer_version
take_answer old port a =
    let take = λ (v : IpVersion). (do
      bytes ← expect null_pointer a.rdata
      pure (of_raw old v (of_bytes bytes old) 0 port false ∷ [])) in
    elim (answer_version a) [ none ↦ pure [] | some v ↦ take v ]

unfoldable pub take_answers : Mem → ℕ → List Answer → M (List IpAddress)
unfolding take_answer
take_answers old port [] = pure []
take_answers old port (a ∷ rest) = do
  first ← take_answer old port a
  others ← take_answers old port rest
  pure (first ++ others)

module _ (pf : Platform) where
  unfoldable pub decode_response : DnsSocket → List ℕ → M (List IpAddress)
  unfolding take_answers
  decode_response d bytes = do
    old ← garbage pf
    answers ← expect dns_message (pf.dns_lib.decode bytes)
    take_answers old d.port answers

  -- The `int` and the addresses.
  unfoldable pub get_response : DnsSocket → M (IoResult × List IpAddress)
  unfolding decode_response
  get_response d = do
    answer ← recv_from pf d.fd
    let empty_response = pure (IoResult.count 0, [])
    elim answer [
      | Received.failed e ↦ pure (IoResult.failed e, [])
      | Received.got bytes addr ↦
          let decoded = (do
            addresses ← decode_response d bytes
            pure (IoResult.count (length bytes), addresses)) in
          if length bytes == 0 then empty_response else decoded
    ]
