-- ===== src/Core/Event.antt =====
-- src/core/src/sockspp/core/poller/event.hpp: the four flags of an event, one field for each bit.
use sockspp.Base.{Bool, true, false}

pub record Flags : Type 0 where
  pub read : Bool
  pub write : Bool
  pub closed : Bool
  pub error : Bool

abbrev pub read_closed : Flags
read_closed = record { read = true; write = false; closed = true; error = false }

abbrev pub write_closed : Flags
write_closed = record { read = false; write = true; closed = true; error = false }

abbrev pub only_closed : Flags
only_closed = record { read = false; write = false; closed = true; error = false }

abbrev pub only_read : Flags
only_read = record { read = true; write = false; closed = false; error = false }

abbrev pub only_error : Flags
only_error = record { read = false; write = false; closed = false; error = true }
