-- ===== src/Cli/Main/Exits.antt =====
-- How a run of the program of src/server_cli/src/cli.cxx begins and ends.
use sockspp.Base.{ℕ, bytes_eq, ◌≡◌, refl, ◌⊎◌, ap, ◌∙◌, Option, none, some, List, []}
use sockspp.Core.Enums.{AuthMethod}
use sockspp.System.{Platform}
use sockspp.Server.Params.{ServerParams, get_auth_method}
use sockspp.Server.Setup.{first_nameserver, get_dns_nameservers, server_params}
use sockspp.Server.Loop.{Server, Poll, Crash}
use sockspp.Server.Loop.Ends.{CrashesIn}
use sockspp.Server.Loop.Startup.Opening.{Ends, Starts, IsStartup}
use sockspp.Cli.{
  get_text, get_number, default_text, TextOption, PortOption, Arguments, ArgumentParser, LogLevel,
  any_text, params_of, parse_params, to_log_level,
}
use sockspp.Cli.Main.{Exit, returned, aborted}

-- The process returned 0 from a server with no session and no listening socket left, or an
-- exception of the opening ended it, or the loop of the server that was opened came to a batch whose
-- events ended it so.
abbrev pub EndsWell : Platform → ServerParams → Server → List Poll → Exit → Type 0
EndsWell pf params v polls e =
    ((v' : Server) × (e ≡ returned 0 v') × (v'.sessions ≡ []) × (v'.socket ≡ none))
    ⊎ ((c : Crash) × (e ≡ aborted c) × IsStartup c)
    ⊎ ((c : Crash) × (e ≡ aborted c)
        × (started : Server) × Starts pf params v started
        × CrashesIn pf params started polls c)

default_taken :
    (args : Arguments) (o : TextOption) → args.text o ≡ none → get_text args o ≡ default_text o
default_taken args o h = rw (get_text, h) refl

-- Without options the server listens at 0.0.0.0 and port 1080, asks for no authentication, logs
-- nothing, and resolves names with the system's first nameserver at port 53.
pub parse_params-defaults :
    (parser : ArgumentParser) (argv : List (List ℕ)) (resolv_conf : Option (List ℕ))
    (args : Arguments)
    → parser.parse_args argv ≡ some args
    → ((o : TextOption) → args.text o ≡ none)
    → ((o : PortOption) → args.port o ≡ none)
    → (p : ServerParams) × (parse_params parser argv ≡ some (p, LogLevel.off))
      × (p.listen_ip ≡ any_text)
      × (p.listen_port ≡ 1080)
      × (get_auth_method p ≡ AuthMethod.no_auth)
      × ((server_params resolv_conf p).dns_ip ≡ first_nameserver (get_dns_nameservers resolv_conf))
      × (p.dns_port ≡ 53)
unfolding parse_params params_of get_auth_method server_params to_log_level bytes_eq
parse_params-defaults parser argv resolv_conf args parsed texts ports =
    let name = default_taken args TextOption.username (texts TextOption.username) in
    let word = default_taken args TextOption.password (texts TextOption.password) in
    let dns = default_taken args TextOption.dns_ip (texts TextOption.dns_ip) in
    let p = params_of args in
    (
      p,
      rw (parse_params, parsed, get_text, texts TextOption.log_level) refl,
      default_taken args TextOption.listen_ip (texts TextOption.listen_ip),
      rw (get_number, ports PortOption.listen_port) refl,
      ap (λ (u : List ℕ). get_auth_method (record p { username = u })) name
          ∙ ap (λ (u : List ℕ). get_auth_method (record p { username = []; password = u })) word,
      ap (λ (ip : List ℕ). (server_params resolv_conf (record p { dns_ip = ip })).dns_ip) dns,
      rw (get_number, ports PortOption.dns_port) refl,
    )
