-- ===== src/Cli/Main.antt =====
-- `sockspp_main` of src/server_cli/src/cli.cxx. The handler of SIGINT runs at any time, also inside
-- a batch, and is not modelled; a poll that it interrupts is one of the results of a poll.
pub mod Exits
use sockspp.Base.{ℕ, Option, none, some, List, []}
use sockspp.System.{Fd, Platform}
use sockspp.Server.Params.{ServerParams}
use sockspp.Server.Setup.{server_params}
use sockspp.Server.Loop.{Server, Poll, Crash, Result, done, crash}
use sockspp.Server.Loop.Startup.{serve_all}
use sockspp.Cli.{ArgumentParser, LogLevel, parse_params}

-- How the process ends: `sockspp_main` returned, `std::exit` was called, or an exception or an
-- undefined access.
pub data Exit : Type 0 where
  returned : ℕ → Server → Exit
  exited : Exit
  aborted : Crash → Exit

-- `g_server->serve()`, and the return.
abbrev pub exit_of : Result Server → Exit
exit_of (crash c) = aborted c
exit_of (done v) = returned 0 v

-- `new Server`: its socket holds whatever descriptor the memory held, until `serve` assigns it.
abbrev pub new_server : Fd → Server
new_server fd = record { socket = fd; sessions = []; next_id = 0; log = [] }

unfoldable pub sockspp_main :
    Platform → ArgumentParser → Option (List ℕ) → Fd → List (List ℕ) → List Poll → Exit
unfolding parse_params server_params serve_all
sockspp_main pf parser resolv_conf fd argv polls = elim (parse_params parser argv) [
  | none ↦ exited
  | some (params, level) ↦
      exit_of (serve_all pf (server_params resolv_conf params) (new_server fd) polls)
]
