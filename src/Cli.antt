-- ===== src/Cli.antt =====
-- The command line program: src/server_cli/src/cli.cxx. What the argument parser found is a
-- parameter: the value of each option that was given, and whether each flag was.
pub mod Main
use sockspp.Base.{
  ℕ, bytes_eq, Bool, true, false, leb, if◌then◌else◌, Option, none, some, List, [], ◌∷◌,
}
use sockspp.Server.Params.{ServerParams}
use sockspp.Server.Setup.{auto_text}

-- The options that `parse_params` declares: those with a text, those with a 16-bit number and the
-- flags.
pub data TextOption : Type 0 where
  listen_ip username password dns_ip log_level : TextOption

pub data PortOption : Type 0 where
  listen_port dns_port : PortOption

pub data FlagOption : Type 0 where
  client_tcp_nodelay client_tcp_keepalive remote_tcp_nodelay remote_tcp_keepalive : FlagOption

pub record Arguments : Type 0 where
  pub text : TextOption → Option (List ℕ)
  pub port : PortOption → Option ℕ
  pub flag : FlagOption → Bool

-- `parse_args` of the command line; `none` is an exception.
pub record ArgumentParser : Type 0 where
  pub parse_args : List (List ℕ) → Option Arguments

-- "0.0.0.0", "off", "error", "warning", "info" and "debug".
abbrev pub any_text : List ℕ
any_text = 48 ∷ 46 ∷ 48 ∷ 46 ∷ 48 ∷ 46 ∷ 48 ∷ []

abbrev pub off_text : List ℕ
off_text = 111 ∷ 102 ∷ 102 ∷ []

abbrev pub error_text : List ℕ
error_text = 101 ∷ 114 ∷ 114 ∷ 111 ∷ 114 ∷ []

abbrev pub warning_text : List ℕ
warning_text = 119 ∷ 97 ∷ 114 ∷ 110 ∷ 105 ∷ 110 ∷ 103 ∷ []

abbrev pub info_text : List ℕ
info_text = 105 ∷ 110 ∷ 102 ∷ 111 ∷ []

abbrev pub debug_text : List ℕ
debug_text = 100 ∷ 101 ∷ 98 ∷ 117 ∷ 103 ∷ []

-- The `default_value` of each option.
abbrev pub default_text : TextOption → List ℕ
default_text listen_ip = any_text
default_text username = []
default_text password = []
default_text dns_ip = auto_text
default_text log_level = off_text

abbrev pub default_port : PortOption → ℕ
default_port listen_port = 1080
default_port dns_port = 53

-- `parser.get`: what was given, or the default.
abbrev pub get_text : Arguments → TextOption → List ℕ
get_text args o = elim (args.text o) [ some value ↦ value | none ↦ default_text o ]

abbrev pub get_number : Arguments → PortOption → ℕ
get_number args o = elim (args.port o) [ some value ↦ value | none ↦ default_port o ]

-- `LogLevel` of src/core/src/sockspp/core/log.hpp, and the test of its macros.
pub data LogLevel : Type 0 where
  off error warning info debug : LogLevel

abbrev pub severity : LogLevel → ℕ
severity off = 0
severity error = 1
severity warning = 2
severity info = 3
severity debug = 4

abbrev pub is_logged : LogLevel → LogLevel → Bool
is_logged level threshold = leb (severity level) (severity threshold)

unfoldable pub to_log_level : List ℕ → LogLevel
to_log_level text =
    if bytes_eq text error_text
    then error
    else if bytes_eq text warning_text
    then warning
    else if bytes_eq text info_text
    then info
    else if bytes_eq text debug_text
    then debug
    else off

unfoldable pub params_of : Arguments → ServerParams
params_of args = record {
  listen_ip = get_text args listen_ip;
  listen_port = get_number args listen_port;
  username = get_text args username;
  password = get_text args password;
  dns_ip = get_text args dns_ip;
  dns_port = get_number args dns_port;
  client_tcp_nodelay = args.flag client_tcp_nodelay;
  client_tcp_keepalive = args.flag client_tcp_keepalive;
  remote_tcp_nodelay = args.flag remote_tcp_nodelay;
  remote_tcp_keepalive = args.flag remote_tcp_keepalive;
}

-- `parse_params`, and the log level that it sets; `none` is `std::exit(-1)`.
unfoldable pub parse_params : ArgumentParser → List (List ℕ) → Option (ServerParams × LogLevel)
unfolding params_of to_log_level
parse_params parser argv = elim (parser.parse_args argv) [
  | none ↦ none
  | some args ↦ some (params_of args, to_log_level (get_text args log_level))
]
