-- ===== src/Core/SocketInfo/Text.antt =====
-- `SocketInfo::str` of src/core/src/sockspp/core/socket.cxx. The text of an address is that of
-- inet_ntop, an argument; what the array on the stack held before is another.
use mathlib.Core.List.{append_assoc}
use native.Mathlib.Omega.{pow_step}
use sockspp.Base.{
  ℕ, zero, suc, ◌+◌, ◌-◌, ◌*◌, ◌/◌, ◌%◌, ◌^◌, ◌<◌, ◌≡◌, ◌∙◌, refl, ap, inl, inr, Bool-cases, ◌==◌,
  slice-append, slice-of_bytes, arith, Mem, of_bytes, slice, htons, ltb, if◌then◌else◌, List, [],
  ◌∷◌, ◌++◌, length, length-append,
}
use sockspp.Core.SocketInfo.{IpVersion, SocketInfo}

-- The decimal digits of a number, most significant first, at most as many as the fuel.
abbrev pub digits : ℕ → ℕ → List ℕ
digits zero n = []
digits (suc k) n =
    let rest = digits k (n / 10) in (if ltb n 10 then [] else rest) ++ (48 + n % 10) ∷ []

-- `std::to_string` of a `uint16_t`.
abbrev pub to_string : ℕ → List ℕ
to_string n = digits 5 n

-- The first 39 characters of the array are taken for an IPv6 address, however long its text.
abbrev pub address_text : (IpVersion → List ℕ → List ℕ) → Mem → IpVersion → Mem → List ℕ
address_text inet_ntop old IpVersion.ipv4 ip = inet_ntop IpVersion.ipv4 (slice ip 0 4)
address_text inet_ntop old IpVersion.ipv6 ip =
    slice (of_bytes (inet_ntop IpVersion.ipv6 (slice ip 0 16) ++ 0 ∷ []) old) 0 39

unfoldable pub str : (IpVersion → List ℕ → List ℕ) → Mem → SocketInfo → List ℕ
str inet_ntop old info =
    address_text inet_ntop old info.ip_version info.ip ++ 58 ∷ to_string (htons info.port)

-- The number that a text of digits reads as, after the number before it.
abbrev pub reads : ℕ → List ℕ → ℕ
reads n [] = n
reads n (c ∷ cs) = reads (10 * n + (c - 48)) cs

reads-append : (n : ℕ) (cs : List ℕ) (c : ℕ) → reads n (cs ++ c ∷ []) ≡ 10 * reads n cs + (c - 48)
reads-append n [] c = refl
reads-append n (d ∷ cs) c = reads-append (10 * n + (d - 48)) cs c

-- The digits of a number of at most as many digits as the fuel read as that number.
pub reads-digits : (k n : ℕ) → n < 10 ^ k → reads 0 (digits k n) ≡ n
reads-digits zero n lt = ground (arith, lt)
reads-digits (suc k) n lt = elim (Bool-cases (ltb n 10)) [
  | inl e ↦ ground (arith, e)
  | inr e ↦
      let small : n / 10 < 10 ^ k = omega (arith, lt, pow_step 10 k) in
      rw (e, reads-append 0 (digits k (n / 10)) (48 + n % 10), reads-digits k (n / 10) small)
        (omega arith)
]

-- What `%s` prints of the characters: those before the first zero.
abbrev c_str : List ℕ → List ℕ
c_str [] = []
c_str (c ∷ cs) = let rest = c_str cs in if c == 0 then [] else c ∷ rest

abbrev HasNoNul : List ℕ → Type 0
HasNoNul [] = Unit
HasNoNul (c ∷ cs) = (0 < c) × HasNoNul cs

c_str-append : (cs rest : List ℕ) → HasNoNul cs → c_str (cs ++ 0 ∷ rest) ≡ cs
c_str-append [] rest h = refl
c_str-append (c ∷ cs) rest (lt, h) = ground (arith, lt, c_str-append cs rest h)

-- The front of an array that begins with a text and a zero.
slice_of_text :
    (cs : List ℕ) (old : Mem) (n : ℕ)
    → length cs < n
    → (rest : List ℕ) × (slice (of_bytes (cs ++ 0 ∷ []) old) 0 n ≡ cs ++ 0 ∷ rest)
slice_of_text cs old n lt =
    let text : List ℕ = cs ++ 0 ∷ [] in
    let m : Mem = of_bytes text old in
    let k : ℕ = n - length text in
    let size : length text ≡ suc (length cs) = ground (arith, length-append cs (0 ∷ [])) in
    let whole : n ≡ length text + k = ground (arith, size, lt) in
    let rest : List ℕ = slice m (0 + length text) k in
    (
      rest,
      ap (slice m 0) whole
          ∙ slice-append m 0 (length text) k
          ∙ ap (λ (bs : List ℕ). bs ++ rest) (slice-of_bytes text old)
          ∙ append_assoc cs (0 ∷ []) rest,
    )

-- The log shows an IPv6 address whose text is shorter than 39 characters without its port.
str-ipv6 :
    (inet_ntop : IpVersion → List ℕ → List ℕ) (old : Mem) (info : SocketInfo) (text : List ℕ)
    → info.ip_version ≡ IpVersion.ipv6
    → inet_ntop IpVersion.ipv6 (slice info.ip 0 16) ≡ text
    → length text < 39
    → HasNoNul text
    → c_str (str inet_ntop old info) ≡ text
unfolding str
str-ipv6 inet_ntop old info text v printed lt h =
    let (rest, front) = slice_of_text text old 39 lt in
    rw (v, printed, front, append_assoc text (0 ∷ rest) (58 ∷ to_string (htons info.port)))
      (c_str-append text (rest ++ 58 ∷ to_string (htons info.port)) h)

-- An IPv4 address is shown with its port in decimal.
str-ipv4 :
    (inet_ntop : IpVersion → List ℕ → List ℕ) (old : Mem) (info : SocketInfo)
    → info.ip_version ≡ IpVersion.ipv4
    → info.port < 2 ^ 16
    → (port : List ℕ) × ((str inet_ntop old info
          ≡ inet_ntop IpVersion.ipv4 (slice info.ip 0 4) ++ 58 ∷ port)
        × (reads 0 port ≡ htons info.port))
unfolding str
str-ipv4 inet_ntop old info v lt =
    let small : htons info.port < 10 ^ 5 = omega (arith, lt) in
    (to_string (htons info.port), (rw v refl, reads-digits 5 (htons info.port) small))
