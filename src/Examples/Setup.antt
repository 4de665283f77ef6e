-- ===== src/Examples/Setup.antt =====
-- Servers as they are set up, with and without a DNS server.
use sockspp.Base.{
  ℕ, ◌≡◌, ◌⊎◌, refl, arith, Mem, of_bytes, true, false, Option, none, some, List, [], ◌∷◌,
}
use sockspp.Core.Enums.{AddrType, Reply}
use sockspp.Core.S5.{get_port}
use sockspp.Server.Params.{ServerParams}
use sockspp.Server.Setup.{starts_with, get_dns_nameservers, server_params}
use sockspp.Server.Setup.Nameservers.{
  Entry, nameserver, other, AreLines, print_lines, get_dns_nameservers-print,
}
use sockspp.Server.Setup.Disabled.{name_fatal}
use sockspp.Session.{World, State, fault, invalid_ip_address}
use sockspp.Session.Events.{handle_request}
use sockspp.Examples.{two_taken, secret_params, session_in, world_of, buffer_of}

-- "# dns", and a nameserver line for "1.1".
abbrev resolv_lines : List Entry
resolv_lines = other (35 ∷ 32 ∷ 100 ∷ []) ∷ nameserver (49 ∷ 46 ∷ 49 ∷ []) ∷ []

resolv_lines-AreLines : AreLines resolv_lines
unfolding starts_with
resolv_lines-AreLines = ground arith

get_dns_nameservers-print_example :
    get_dns_nameservers (some (print_lines resolv_lines)) ≡ (49 ∷ 46 ∷ 49 ∷ []) ∷ []
get_dns_nameservers-print_example = get_dns_nameservers-print resolv_lines resolv_lines-AreLines

-- The option "NONE".
abbrev disabled : ServerParams
disabled = record secret_params { dns_ip = 78 ∷ 79 ∷ 78 ∷ 69 ∷ [] }

disabled_empty : (server_params (some []) disabled).dns_ip ≡ []
unfolding server_params sockspp.Base.bytes_eq
disabled_empty = refl

-- A request for port 80 of the host "a".
abbrev named_request : List ℕ
named_request = 5 ∷ 1 ∷ 0 ∷ 3 ∷ 1 ∷ 97 ∷ 0 ∷ 80 ∷ []

abbrev ready : World
ready = world_of (session_in State.authenticated none none)

-- The first nameserver is followed by a comment.
abbrev commented : ServerParams
commented = record secret_params { dns_ip = 49 ∷ 46 ∷ 49 ∷ 32 ∷ 35 ∷ [] }

name_fatal_example :
    handle_request two_taken commented (buffer_of named_request) ready ≡ fault invalid_ip_address
unfolding sockspp.Core.S5.get_command sockspp.Core.Enums.to_command sockspp.Core.S5.get_type
    sockspp.Core.Enums.to_addr_type
name_fatal_example =
    name_fatal two_taken commented (buffer_of named_request) ready refl refl refl refl refl
      (omega arith)
