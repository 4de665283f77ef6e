-- ===== src/Core/S5/Fields.antt =====
-- The getters of src/core/src/sockspp/core/s5.cxx on an address that its setters wrote.
use sockspp.Base.{
  ℕ, ◌+◌, ◌*◌, ◌≤◌, ◌<◌, ◌≡◌, ap, ◌∙◌, arith, Mem, slice, slice_ext, htons, Bool, if◌then◌else◌,
}
use sockspp.Core.Enums.{AddrType, to_addr_type, addr_type_byte}
use sockspp.Core.S5.{get_type, get_size, get_port, get_address, message_size}
use sockspp.Core.S5.Layout.{fill, fill_at, IsRoutable, ipv4, ipv6, domain_name, address_length}

pub size_by_type :
    (m : Mem) (p : ℕ) {t : AddrType}
    → IsRoutable t
    → m p ≡ addr_type_byte t
    → get_size m p ≡ address_length t (m (p + 1)) + 3
unfolding get_size addr_type_byte to_addr_type
size_by_type m p ipv4 h = ground arith
size_by_type m p ipv6 h = ground arith
size_by_type m p domain_name h = ground arith

pub type_by_byte :
    (m : Mem) (p : ℕ) {t : AddrType} → IsRoutable t → m p ≡ addr_type_byte t → get_type m p ≡ t
unfolding get_type addr_type_byte to_addr_type
type_by_byte m p ipv4 h = ground arith
type_by_byte m p ipv6 h = ground arith
type_by_byte m p domain_name h = ground arith

pub port_by_size :
    (m : Mem) (p n : ℕ)
    → get_size m p ≡ n + 3
    → get_port m p ≡ htons (m (p + n + 1) + 256 * m (p + n + 2))
unfolding get_port
port_by_size m p n h = rw (h, get_port) (ground arith)

pub address_length-pos : {t : AddrType} → IsRoutable t → (len : ℕ) → 0 < address_length t len
address_length-pos ipv4 len = omega arith
address_length-pos ipv6 len = omega arith
address_length-pos domain_name len = omega arith

module _ (m : Mem) (p : ℕ) {t : AddrType} (s : Mem) (q port : ℕ) (netport : Bool)
    (r : IsRoutable t) where
  abbrev out : Mem
  out = fill m p t s q port netport

  pub type_back : get_type out p ≡ t
  type_back = type_by_byte out p r (ground (arith, fill_at m p s q port netport p r))

  -- The address's own bytes.
  pub bytes_back : (i : ℕ) → i < address_length t (s q) → out (p + 1 + i) ≡ s (q + i)
  bytes_back i h = ground (arith, fill_at m p s q port netport (p + 1 + i) r)

  pub size_back : get_size out p ≡ address_length t (s q) + 3
  size_back =
      let typed = fill_at m p s q port netport p r in
      let first : out (p + 1) ≡ s q = ground (arith, bytes_back 0, address_length-pos r (s q)) in
      size_by_type out p r (ground (arith, typed)) ∙ ap (λ n. address_length t n + 3) first

  pub port_back : port < 65536 → get_port out p ≡ (if netport then htons port else port)
  port_back h =
      let n = address_length t (s q) in
      ground (
        arith,
        port_by_size out p n size_back,
        fill_at m p s q port netport (p + n + 1) r,
        fill_at m p s q port netport (p + n + 2) r,
      )

-- An address that is written, of one of the three types and with a 16-bit port, is read back: its
-- type, its size, its bytes and its port, the port in host order unless it was given in network
-- order. What precedes the address is unchanged.
pub address_back :
    (m : Mem) (p : ℕ) {t : AddrType} (s : Mem) (q port : ℕ) (netport : Bool)
    → IsRoutable t
    → port < 65536
    → let out = fill m p t s q port netport in
      let len = address_length t (s q) in
      (get_type out p ≡ t)
      × (get_size out p ≡ len + 3)
      × (slice out (get_address p) len ≡ slice s q len)
      × (get_port out p ≡ (if netport then htons port else port))
      × (slice out 0 p ≡ slice m 0 p)
unfolding get_address
address_back m p {t = t} s q port netport r h =
    let out = fill m p t s q port netport in
    let len = address_length t (s q) in
    (
      type_back m p s q port netport r,
      size_back m p s q port netport r,
      slice_ext out s (p + 1) q len (bytes_back m p s q port netport r),
      port_back m p s q port netport r h,
      slice_ext out m 0 0 p (λ i lt. ground (arith, fill_at m p s q port netport (0 + i) r)),
    )

-- A message whose first address byte is below 256 has at most the 262 bytes that `send_reply` sets
-- aside for it.
pub message_size-le : (m : Mem) (p : ℕ) → m (p + 4) < 256 → message_size m p ≤ 262
unfolding message_size
message_size-le m p h = ground arith
