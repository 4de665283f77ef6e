-- ===== src/Examples/Programs.antt =====
-- Runs of the program from its command line.
use sockspp.Base.{false, none, some}
use sockspp.Cli.{Arguments, ArgumentParser}

-- Nothing was given.
abbrev no_arguments : Arguments
no_arguments = record { text = λ o. none; port = λ o. none; flag = λ o. false }

abbrev lenient : ArgumentParser
lenient = record { parse_args = λ argv. some no_arguments }
