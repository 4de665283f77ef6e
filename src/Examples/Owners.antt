-- ===== src/Examples/Owners.antt =====
-- The objects of class `Socket` at work.
use sockspp.Base.{◌+◌, ◌≡◌, refl, arith, some, List, [], ◌∷◌}
use sockspp.Core.Socket.Ownership.{
  Owners, Op, constructs, moves, assigns, detaches, closes, destroys_session_socket, step, run,
  end_of_scope, nobody,
}
use sockspp.Core.Socket.Ownership.Account.{held, count, obtained, given, scope_closes_all}

-- Three sockets: the first is moved, gets the second's descriptor, closes it and is destroyed; the
-- third gives its own away.
abbrev handed_on : List Op
handed_on =
    constructs (some 5)
    ∷ constructs (some 6)
    ∷ moves 0
    ∷ assigns 0 1
    ∷ closes 0
    ∷ destroys_session_socket 0
    ∷ constructs (some 7)
    ∷ detaches 3
    ∷ []

abbrev at_the_end : Owners
at_the_end = end_of_scope (run handed_on nobody)

scope_closes_all_example :
    (held 5 at_the_end.sockets ≡ 0)
    × (count 5 at_the_end.closed + given 5 handed_on nobody ≡ obtained 5 handed_on)
unfolding step
scope_closes_all_example =
    scope_closes_all handed_on 5 (tt, (tt, (tt, ((omega arith, refl), (tt, (tt, (tt, (tt, tt))))))))

-- The first descriptor is closed once, the given one never.
closed_once : count 5 at_the_end.closed ≡ 1
unfolding step
closed_once = refl

not_closed : count 7 at_the_end.closed ≡ 0
unfolding step
not_closed = refl
