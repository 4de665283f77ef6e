-- ===== src/Core/Utils.antt =====
-- src/core/src/sockspp/core/utils.cxx: whether a text is an IP address. The patterns are the code's,
-- part by part.
pub mod Octets
pub mod Dotted
pub mod Groups
use sockspp.Base.{ℕ, Bool, ◌||◌, List, [], ◌∷◌}
use sockspp.Core.Regex.{
  Regex, nothing, boundary, class, seq, alt, times, up_to, between, char, regex_match,
}

-- `[0-9]` and `[0-9a-fA-F]`.
abbrev pub digit : Regex
digit = class ((48, 57) ∷ [])

abbrev pub hex_digit : Regex
hex_digit = class ((48, 57) ∷ (97, 102) ∷ (65, 70) ∷ [])

-- `25[0-5]|2[0-4][0-9]|[01]?[0-9][0-9]?`.
abbrev pub octet : Regex
octet = alt (seq (char 50) (seq (char 53) (class ((48, 53) ∷ [])))) (
    alt (seq (char 50) (seq (class ((48, 52) ∷ [])) digit))
      (seq (up_to 1 (class ((48, 49) ∷ []))) (seq digit (up_to 1 digit))))

abbrev pub dotted_octet : Regex
dotted_octet = seq octet (char 46)

abbrev pub ipv4_pattern : Regex
ipv4_pattern = seq boundary (seq (times 3 dotted_octet) (seq octet boundary))

-- `[0-9a-fA-F]{1,4}`, and the same behind or in front of a colon.
abbrev pub group : Regex
group = between 1 3 hex_digit

abbrev pub colon_group : Regex
colon_group = seq (char 58) group

abbrev pub group_colon : Regex
group_colon = seq group (char 58)

abbrev pub full_pattern : Regex
full_pattern = seq boundary (seq (times 7 group_colon) (seq group boundary))

abbrev pub short_tail : Regex
short_tail = seq (char 58) (seq (char 58) (seq group (seq (between 0 6 colon_group) boundary)))

abbrev pub short_head : Regex
short_head = alt (between 1 6 colon_group) (seq group (between 0 6 colon_group))

abbrev pub short_pattern : Regex
short_pattern = seq boundary (seq short_head short_tail)

unfoldable pub is_ipv4_address : List ℕ → Bool
is_ipv4_address address = regex_match address ipv4_pattern

unfoldable pub is_ipv6_address : List ℕ → Bool
is_ipv6_address address = regex_match address (alt full_pattern short_pattern)

unfoldable pub is_ip_address : List ℕ → Bool
unfolding is_ipv4_address is_ipv6_address
is_ip_address address = is_ipv4_address address || is_ipv6_address address
