-- ===== src/Core/Poller/Watched.antt =====
-- What a poller watches after the calls of src/core/src/sockspp/core/poller/epoll_poller.hpp, by the
-- documented behaviour of epoll_ctl and epoll_wait.
use mathlib.Core.Path.{fun_ext, subst}
use sockspp.Base.{
  ℕ, ◌≤◌, ◌≡◌, refl, ap, ◌∙◌, Bool, true, false, Bool-cases, Option-cases, suc, inl, inr, arith,
  ◌==◌, if◌then◌else◌, map, Option, none, some, List, [], ◌∷◌, ◌++◌, length,
}
use sockspp.System.{Fd, CtlOp}
use sockspp.Core.Event.{Flags}
use sockspp.Core.Poller.{
  Epoll, EpollEvent, Event, register_event, update_event, remove_event, set_event, ctl_op, poll,
  poll_batch, to_event,
}

abbrev same_fd : Fd → Fd → Bool
same_fd none none = true
same_fd none (some b) = false
same_fd (some a) none = false
same_fd (some a) (some b) = a == b

-- What is watched of each descriptor.
abbrev pub Watch : Type 0 → Type 0
Watch P = Fd → Option (EpollEvent P)

pub data CtlCommand (P : Type 0) : Type 0 where
  register update : Event P → CtlCommand P
  remove : Fd → CtlCommand P
  set : Fd → P → Flags → Bool → CtlCommand P

module _ {P : Type 0} where
  -- An entry is written for a descriptor, or taken away.
  abbrev pub enter : Fd → Option (EpollEvent P) → Watch P → Watch P
  enter fd entry w g = if same_fd g fd then entry else w g

  abbrev pub entry_of : Event P → EpollEvent P
  entry_of event = record { events = event.flags; data_ptr = event.ptr }

  -- What a command that returns true does to the entries.
  abbrev pub commanded : CtlCommand P → Watch P → Watch P
  commanded (register event) w = enter event.fd (some (entry_of event)) w
  commanded (update event) w = enter event.fd (some (entry_of event)) w
  commanded (remove fd) w = enter fd none w
  commanded (set fd ptr flags is_mod) w =
      enter fd (some (record { events = flags; data_ptr = ptr })) w

  -- The pointer of an event is that of an entry.
  abbrev pub IsWatched : Watch P → Event P → Type 0
  IsWatched w e =
      (fd : Fd) × (entry : EpollEvent P) × (w fd ≡ some entry) × (entry.data_ptr ≡ e.ptr)

  abbrev pub AllWatched : Watch P → List (Event P) → Type 0
  AllWatched w [] = Unit
  AllWatched w (e ∷ es) = IsWatched w e × AllWatched w es

length-map {ℓ} : {A B : Type ℓ} (f : A → B) (xs : List A) → length (map f xs) ≡ length xs
length-map f [] = refl
length-map f (x ∷ xs) = ap suc (length-map f xs)

module _ {P K : Type 0} (epoll : Epoll P K) (interest : K → Watch P) where
  abbrev pub command : CtlCommand P → K → Bool × K
  command (register event) k = register_event epoll event k
  command (update event) k = update_event epoll event k
  command (remove fd) k = remove_event epoll fd k
  command (set fd ptr flags is_mod) k = set_event epoll fd ptr flags is_mod k

  abbrev pub command_all : List (CtlCommand P) → K → K
  command_all [] k = k
  command_all (c ∷ cs) k = command_all cs (command c k).1

  -- The entries after some commands, from what each of them returned.
  abbrev pub watched : List (CtlCommand P) → K → Watch P → Watch P
  watched [] k w = w
  watched (c ∷ cs) k w = watched cs (command c k).1 (if (command c k).0 then commanded c w else w)

  -- epoll_ctl enters what it is given if it returns 0 and else changes nothing; epoll_wait returns
  -- at most as many events as there is room for, each with the pointer of an entry.
  pub record IsEpoll : Type 0 where
    pub entered :
        (k : K) (op : CtlOp) (fd g : Fd) (entry : Option (EpollEvent P))
        → ((epoll.ctl k op fd entry).0 == 0) ≡ true
        → interest (epoll.ctl k op fd entry).1 g ≡ enter fd entry (interest k) g
    pub refused :
        (k : K) (op : CtlOp) (fd g : Fd) (entry : Option (EpollEvent P))
        → ((epoll.ctl k op fd entry).0 == 0) ≡ false
        → interest (epoll.ctl k op fd entry).1 g ≡ interest k g
    pub reported :
        (k : K) (room timeout : ℕ) (events : List (EpollEvent P))
        → epoll.wait k room timeout ≡ some events
        → (length events ≤ room) × AllWatched (interest k) (map (to_event epoll) events)

  module _ (lawful : IsEpoll) where
    ctl_lem :
        (k : K) (op : CtlOp) (fd g : Fd) (entry : Option (EpollEvent P))
        → let (res, k') = epoll.ctl k op fd entry in
          interest k' g ≡ (if res == 0 then enter fd entry (interest k) else interest k) g
    ctl_lem k op fd g entry = elim (Bool-cases ((epoll.ctl k op fd entry).0 == 0)) [
      | inl done ↦ rw done (lawful.entered k op fd g entry done)
      | inr failed ↦ rw failed (lawful.refused k op fd g entry failed)
    ]

    command_lem :
        (c : CtlCommand P) (k : K) (g : Fd)
        → interest (command c k).1 g
          ≡ (if (command c k).0 then commanded c (interest k) else interest k) g
    command_lem (register event) k g = ctl_lem k CtlOp.add event.fd g (some (entry_of event))
    command_lem (update event) k g = ctl_lem k CtlOp.modify event.fd g (some (entry_of event))
    command_lem (remove fd) k g = ctl_lem k CtlOp.delete fd g none
    command_lem (set fd ptr flags is_mod) k g =
        ctl_lem k (ctl_op epoll is_mod) fd g (some (record { events = flags; data_ptr = ptr }))

    -- After any calls, what is watched is what those that returned true entered or took away.
    command_all_lem :
        (cs : List (CtlCommand P)) (k : K) → interest (command_all cs k) ≡ watched cs k (interest k)
    command_all_lem [] k = refl
    command_all_lem (c ∷ cs) k =
        command_all_lem cs (command c k).1
        ∙ ap (watched cs (command c k).1) (fun_ext λ g. command_lem c k g)

    -- After any calls, the vector that poll fills keeps what it held, and each of at most 512 events
    -- behind it carries a pointer that one of the calls that returned true entered, or that was
    -- watched before, and that none took away or replaced since.
    poll_lem :
        (cs : List (CtlCommand P)) (k : K) (out_events : List (Event P)) (timeout n : ℕ)
        → (poll epoll out_events timeout (command_all cs k)).0 ≡ some n
        → (es : List (Event P)) × ((poll epoll out_events timeout (command_all cs k)).1
            ≡ out_events ++ es)
          × (length es ≡ n)
          × (n ≤ 512)
          × AllWatched (watched cs k (interest k)) es
    unfolding poll
    poll_lem cs k out_events timeout n polled =
        elim (Option-cases (epoll.wait (command_all cs k) poll_batch timeout)) [
          | inl e ↦ absurd (ground (arith, e))
          | inr (events, e) ↦
              let (room, all) = lawful.reported (command_all cs k) poll_batch timeout events e in
              let same : length events ≡ n = ground (arith, e) in
              (
                map (to_event epoll) events,
                rw (poll, e) refl,
                length-map (to_event epoll) events ∙ same,
                omega (arith, room, same),
                subst (λ w. AllWatched w (map (to_event epoll) events)) (command_all_lem cs k) all,
              )
        ]
