-- ===== src/Examples/Texts.antt =====
-- Texts that are and are not IP addresses.
use sockspp.Base.{ℕ, ◌≡◌, refl, ◌↔◌, true, false, List, [], ◌∷◌}
use sockspp.Core.Regex.{regex_match}
use sockspp.Core.Utils.{is_ipv4_address, is_ipv6_address, is_ip_address}
use sockspp.Core.Utils.Dotted.{IsDotted, is_ipv4_address_iff}

-- "10.0.0.1", "256.0.0.1", "fe80::1", "1:2:3:4:5:6:7:8" and "::1".
abbrev ten_dot_one : List ℕ
ten_dot_one = 49 ∷ 48 ∷ 46 ∷ 48 ∷ 46 ∷ 48 ∷ 46 ∷ 49 ∷ []

abbrev too_large : List ℕ
too_large = 50 ∷ 53 ∷ 54 ∷ 46 ∷ 48 ∷ 46 ∷ 48 ∷ 46 ∷ 49 ∷ []

abbrev link_local : List ℕ
link_local = 102 ∷ 101 ∷ 56 ∷ 48 ∷ 58 ∷ 58 ∷ 49 ∷ []

abbrev loopback : List ℕ
loopback = 58 ∷ 58 ∷ 49 ∷ []

ten_dot_one_accepted : is_ipv4_address ten_dot_one ≡ true
unfolding is_ipv4_address regex_match
ten_dot_one_accepted = refl

too_large_refused : is_ip_address too_large ≡ false
unfolding is_ip_address regex_match
too_large_refused = refl

link_local_accepted : is_ipv6_address link_local ≡ true
unfolding is_ipv6_address regex_match
link_local_accepted = refl

loopback_refused : is_ip_address loopback ≡ false
unfolding is_ip_address regex_match
loopback_refused = refl

is_ipv4_address_iff_example : (is_ipv4_address ten_dot_one ≡ true) ↔ IsDotted ten_dot_one
is_ipv4_address_iff_example = is_ipv4_address_iff ten_dot_one
