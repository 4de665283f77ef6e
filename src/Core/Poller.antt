-- ===== src/Core/Poller.antt =====
-- `EpollPoller` of src/core/src/sockspp/core/poller/epoll_poller.hpp and `Event` of event.hpp, over
-- the system's epoll, which is a parameter: `create` is epoll_create1, `ctl` epoll_ctl on the set of
-- the poller, `wait` epoll_wait. `P` is the type of the pointers that events carry.
pub mod Watched
use sockspp.Base.{ℕ, Bool, true, false, ◌==◌, map, Option, none, some, List, ◌++◌, length}
use sockspp.System.{Fd, CtlOp}
use sockspp.Core.Event.{Flags}

pub record Event (P : Type 0) : Type 0 where
  pub fd : Fd
  pub flags : Flags
  pub ptr : P

-- `epoll_event`.
pub record EpollEvent (P : Type 0) : Type 0 where
  pub events : Flags
  pub data_ptr : P

-- An answer of epoll_ctl is 0 or an error; of epoll_wait the events, or -1.
pub record Epoll (P K : Type 0) : Type 0 where
  pub create : Option K
  pub ctl : K → CtlOp → Fd → Option (EpollEvent P) → ℕ × K
  pub wait : K → ℕ → ℕ → Option (List (EpollEvent P))

-- `POLL_BATCH`.
abbrev pub poll_batch : ℕ
poll_batch = 512

module _ {P K : Type 0} (epoll : Epoll P K) where
  -- `EpollPoller()`: no poller is an exception.
  abbrev pub new_poller : Option K
  new_poller = epoll.create

  abbrev pub is_zero : ℕ × K → Bool × K
  is_zero (res, k) = (res == 0, k)

  abbrev pub register_event : Event P → K → Bool × K
  register_event event k = is_zero (
      epoll.ctl k CtlOp.add event.fd (some (record { events = event.flags; data_ptr = event.ptr })))

  abbrev pub update_event : Event P → K → Bool × K
  update_event event k = is_zero (
      epoll.ctl k CtlOp.modify event.fd
        (some (record { events = event.flags; data_ptr = event.ptr })))

  abbrev pub remove_event : Fd → K → Bool × K
  remove_event fd k = is_zero (epoll.ctl k CtlOp.delete fd none)

  abbrev pub ctl_op : Bool → CtlOp
  ctl_op is_mod = elim is_mod [ true ↦ CtlOp.modify | false ↦ CtlOp.add ]

  abbrev pub set_event : Fd → P → Flags → Bool → K → Bool × K
  set_event fd ptr flags is_mod k =
      is_zero (epoll.ctl k (ctl_op is_mod) fd (some (record { events = flags; data_ptr = ptr })))

  abbrev pub to_event : EpollEvent P → Event P
  to_event event = record { fd = some 0; flags = event.events; ptr = event.data_ptr }

  -- `poll`: the number of events, `none` for -1, and the vector with them behind what it held.
  unfoldable pub poll : List (Event P) → ℕ → K → Option ℕ × List (Event P)
  poll out_events timeout k = elim (epoll.wait k poll_batch timeout) [
    | none ↦ (none, out_events)
    | some events ↦ (some (length events), out_events ++ map to_event events)
  ]
