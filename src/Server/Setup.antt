-- ===== src/Server/Setup.antt =====
-- The constructor of src/server/src/sockspp/server/server.cxx, which decides where domain names are
-- resolved, and `get_dns_nameservers` of utils.cxx as it is compiled for Linux. What
-- /etc/resolv.conf holds is a parameter; `none` is a file that cannot be opened.
pub mod Nameservers
pub mod Disabled
use sockspp.Base.{
  ℕ, ◌+◌, zero, suc, drop, bytes_eq, map, Bool, true, false, ◌&&◌, leb, ◌==◌, if◌then◌else◌, Option,
  none, some, List, [], ◌∷◌,
}
use sockspp.Core.Utils.{is_ip_address}
use sockspp.Server.Params.{ServerParams, empty}

-- "none", "auto" and "nameserver ".
abbrev pub none_text : List ℕ
none_text = 110 ∷ 111 ∷ 110 ∷ 101 ∷ []

abbrev pub auto_text : List ℕ
auto_text = 97 ∷ 117 ∷ 116 ∷ 111 ∷ []

abbrev pub nameserver_text : List ℕ
nameserver_text = 110 ∷ 97 ∷ 109 ∷ 101 ∷ 115 ∷ 101 ∷ 114 ∷ 118 ∷ 101 ∷ 114 ∷ 32 ∷ []

-- `std::tolower` of the C locale.
abbrev pub to_lower : ℕ → ℕ
to_lower c = if leb 65 c && leb c 90 then c + 32 else c

-- `std::getline` until it fails: a line without its line feed, the last one only if it has a
-- character.
abbrev pub add_to_line : ℕ → List (List ℕ) → List (List ℕ)
add_to_line c [] = (c ∷ []) ∷ []
add_to_line c (l ∷ ls) = (c ∷ l) ∷ ls

unfoldable pub lines : List ℕ → List (List ℕ)
lines [] = []
lines (c ∷ text) = let rest = lines text in if c == 10 then [] ∷ rest else add_to_line c rest

-- `std::string::starts_with`.
unfoldable pub starts_with : List ℕ → List ℕ → Bool
starts_with text [] = true
starts_with [] (p ∷ prefix) = false
starts_with (c ∷ text) (p ∷ prefix) = c == p && starts_with text prefix

unfoldable pub nameserver_lines : List (List ℕ) → List (List ℕ)
unfolding starts_with
nameserver_lines [] = []
nameserver_lines (line ∷ rest) =
    let others = nameserver_lines rest in
    if starts_with line nameserver_text then drop 11 line ∷ others else others

unfoldable pub get_dns_nameservers : Option (List ℕ) → List (List ℕ)
unfolding nameserver_lines lines
get_dns_nameservers none = []
get_dns_nameservers (some text) = nameserver_lines (lines text)

-- The first nameserver, or an empty text.
abbrev pub first_nameserver : List (List ℕ) → List ℕ
first_nameserver [] = []
first_nameserver (address ∷ rest) = address

-- The text that the option `dns_ip` is compared as.
abbrev pub dns_choice : List ℕ → List ℕ
dns_choice dns_ip = if empty dns_ip then auto_text else map to_lower dns_ip

-- `Server::Server`: the parameters that the server keeps.
unfoldable pub server_params : Option (List ℕ) → ServerParams → ServerParams
unfolding get_dns_nameservers
server_params resolv_conf params =
    let choice = dns_choice params.dns_ip in
    record params {
      dns_ip =
          if bytes_eq choice none_text
          then []
          else if bytes_eq choice auto_text
          then first_nameserver (get_dns_nameservers resolv_conf)
          else if is_ip_address choice
          then choice
          else [];
    }
