-- ===== src/Core/S5/Layout.antt =====
-- Where `set_type`, `set_address` and `set_port` of src/core/src/sockspp/core/s5.cxx leave each byte,
-- when they are called in this order, as the reply and the UDP header do.
use sockspp.Base.{
  ℕ, ◌+◌, ◌-◌, ◌/◌, ◌%◌, ◌≡◌, arith, Mem, copy, htons, Bool, false, ◌&&◌, if◌then◌else◌, ◌==◌, ltb,
}
use sockspp.Core.Enums.{AddrType, to_addr_type, addr_type_byte}
use sockspp.Core.S5.{get_type, set_type, get_port, set_port, set_address, set_address_of}

-- The three setters in the order of `ClientSocket::send_reply` and `UDPSocket::send_to`.
abbrev pub fill : Mem → ℕ → AddrType → Mem → ℕ → ℕ → Bool → Mem
fill m p t s q port netport = set_port (set_address (set_type m p t) p s q) p port netport

-- The address types that have an address on the wire.
pub data IsRoutable : AddrType → Type 0 where
  ipv4 : IsRoutable AddrType.ipv4
  ipv6 : IsRoutable AddrType.ipv6
  domain_name : IsRoutable AddrType.domain_name

-- The bytes of an address; a name begins with its length.
abbrev pub address_length : AddrType → ℕ → ℕ
address_length AddrType.ipv4 len = 4
address_length AddrType.ipv6 len = 16
address_length AddrType.domain_name len = len + 1
address_length _ len = 0

abbrev pub port_value : ℕ → Bool → ℕ
port_value port netport = if netport then port else htons port

-- The array after the three calls, index by index.
abbrev pub filled : Mem → ℕ → AddrType → Mem → ℕ → ℕ → Bool → Mem
filled m p t s q port netport i =
    let len = address_length t (s q) in
    let v = port_value port netport in
    if i == p
    then addr_type_byte t
    else if ltb p i && ltb i (p + 1 + len)
    then s (q + (i - (p + 1)))
    else if i == p + 1 + len
    then v % 256
    else if i == p + 2 + len
    then v / 256
    else m i

-- `set_port` behind a domain name of `len` bytes writes two bytes, and only those.
set_port_domain :
    (m : Mem) (p len port : ℕ) (netport : Bool) (i : ℕ)
    → m p ≡ 3
    → m (p + 1) ≡ len
    → set_port m p port netport i ≡ (
        if i == p + 2 + len
        then port_value port netport % 256
        else if i == p + 3 + len
        then port_value port netport / 256
        else m i)
unfolding set_port to_addr_type
set_port_domain m p len port netport i t l = ground arith

get_type-set_type :
    (m : Mem) (p : ℕ) {t : AddrType} → IsRoutable t → get_type (set_type m p t) p ≡ t
unfolding get_type set_type addr_type_byte to_addr_type
get_type-set_type m p ipv4 = ground arith
get_type-set_type m p ipv6 = ground arith
get_type-set_type m p domain_name = ground arith

-- A domain name is copied behind its type, and the port that stood there is put back behind it.
set_address_domain :
    (m : Mem) (p : ℕ) (s : Mem) (q : ℕ)
    → set_address (set_type m p AddrType.domain_name) p s q
      ≡ set_port
          (copy (set_type m p AddrType.domain_name) (p + 1) s q (s q + 1))
          p
          (get_port (set_type m p AddrType.domain_name) p)
          false
unfolding set_address
set_address_domain m p s q = rw (get_type-set_type m p domain_name, set_address_of)

module _ (m : Mem) (p : ℕ) (s : Mem) (q port : ℕ) (netport : Bool) (i : ℕ) where
  fill_at_domain :
      fill m p AddrType.domain_name s q port netport i
      ≡ filled m p AddrType.domain_name s q port netport i
  unfolding set_type addr_type_byte
  fill_at_domain =
      let old = get_port (set_type m p AddrType.domain_name) p in
      let body = copy (set_type m p AddrType.domain_name) (p + 1) s q (s q + 1) in
      let inner =
        λ (k : ℕ). set_port_domain body p (s q) old false k (ground arith) (ground arith) in
      let outer =
        set_port_domain (set_port body p old false) p (s q) port netport i (ground (arith, inner p))
          (ground (arith, inner (p + 1))) in
      rw (set_address_domain m p s q) (ground (arith, outer, inner i))

  pub fill_at :
      {t : AddrType}
      → IsRoutable t
      → fill m p t s q port netport i ≡ filled m p t s q port netport i
  unfolding set_port set_address set_type addr_type_byte to_addr_type
  fill_at ipv4 = ground arith
  fill_at ipv6 = ground arith
  fill_at domain_name = fill_at_domain
