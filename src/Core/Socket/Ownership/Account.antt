-- ===== src/Core/Socket/Ownership/Account.antt =====
-- The account of the descriptors of src/core/src/sockspp/core/socket.hpp's objects: what was
-- obtained is held by an object, closed, or given to the caller of `detach`.
use sockspp.Base.{
  ℕ, zero, suc, length, get_or, drop, ◌+◌, ◌<◌, ◌≡◌, refl, ap, arith, ◌==◌, if◌then◌else◌, none,
  some, List, [], ◌∷◌, ◌++◌,
}
use sockspp.System.{Fd}
use sockspp.Core.Socket.Ownership.{
  Owners, fd_at, put, close_fd, move_construct, detach, assign, close_socket, destroy_socket, Op,
  constructs, moves, assigns, detaches, closes, destroys, destroys_session_socket, step, run,
  destroy_all, end_of_scope, nobody,
}

-- How often a descriptor stands in a member, in the objects and in a list.
abbrev pub owns : ℕ → Fd → ℕ
owns d none = 0
owns d (some e) = if e == d then 1 else 0

abbrev pub held : ℕ → List Fd → ℕ
held d [] = 0
held d (x ∷ xs) = owns d x + held d xs

abbrev pub count : ℕ → List ℕ → ℕ
count d [] = 0
count d (x ∷ xs) = owns d (some x) + count d xs

-- What an operation gets from the system, and what it gives to its caller.
abbrev pub obtained_by : ℕ → Op → ℕ
obtained_by d (constructs fd) = owns d fd
obtained_by d (moves i) = 0
obtained_by d (assigns i j) = 0
obtained_by d (detaches i) = 0
obtained_by d (closes i) = 0
obtained_by d (destroys i) = 0
obtained_by d (destroys_session_socket i) = 0

abbrev pub given_by : ℕ → Op → Owners → ℕ
given_by d (constructs fd) p = 0
given_by d (moves i) p = 0
given_by d (assigns i j) p = 0
given_by d (detaches i) p = owns d (fd_at p i)
given_by d (closes i) p = 0
given_by d (destroys i) p = 0
given_by d (destroys_session_socket i) p = 0

abbrev pub obtained : ℕ → List Op → ℕ
obtained d [] = 0
obtained d (op ∷ ops) = obtained_by d op + obtained d ops

abbrev pub given : ℕ → List Op → Owners → ℕ
given d [] p = 0
given d (op ∷ ops) p = given_by d op p + given d ops (step op p)

-- An object of the program that is assigned to has no descriptor when it gets the new one, by
-- itself or because it is assigned to itself.
abbrev IsEmptyTarget : Op → Owners → Type 0
IsEmptyTarget (constructs fd) p = Unit
IsEmptyTarget (moves i) p = Unit
IsEmptyTarget (assigns i j) p = (i < length p.sockets) × (fd_at (detach j p) i ≡ none)
IsEmptyTarget (detaches i) p = Unit
IsEmptyTarget (closes i) p = Unit
IsEmptyTarget (destroys i) p = Unit
IsEmptyTarget (destroys_session_socket i) p = Unit

abbrev pub AllEmptyTargets : List Op → Owners → Type 0
AllEmptyTargets [] p = Unit
AllEmptyTargets (op ∷ ops) p = IsEmptyTarget op p × AllEmptyTargets ops (step op p)

abbrev total : ℕ → Owners → ℕ
total d p = held d p.sockets + count d p.closed

held-append : (d : ℕ) (xs : List Fd) (fd : Fd) → held d (xs ++ fd ∷ []) ≡ held d xs + owns d fd
held-append d [] fd = omega arith
held-append d (x ∷ xs) fd = omega (arith, held-append d xs fd)

length-put : (xs : List Fd) (i : ℕ) (fd : Fd) → length (put xs i fd) ≡ length xs
length-put [] i fd = refl
length-put (x ∷ xs) zero fd = refl
length-put (x ∷ xs) (suc i) fd = omega (arith, length-put xs i fd)

held-put :
    (d : ℕ) (xs : List Fd) (i : ℕ) (fd : Fd)
    → i < length xs
    → held d (put xs i fd) + owns d (get_or xs i none) ≡ held d xs + owns d fd
held-put d [] i fd lt = omega arith
held-put d (x ∷ xs) zero fd lt = omega arith
held-put d (x ∷ xs) (suc i) fd lt = omega (arith, held-put d xs i fd (omega arith))

held-put-none :
    (d : ℕ) (xs : List Fd) (i : ℕ) → held d (put xs i none) + owns d (get_or xs i none) ≡ held d xs
held-put-none d [] i = refl
held-put-none d (x ∷ xs) zero = omega arith
held-put-none d (x ∷ xs) (suc i) = omega (arith, held-put-none d xs i)

count-close_fd : (d : ℕ) (fd : Fd) (xs : List ℕ) → count d (close_fd fd xs) ≡ owns d fd + count d xs
count-close_fd d none xs = omega arith
count-close_fd d (some e) xs = refl

get_or-append :
    (xs : List Fd) (i : ℕ) (fd : Fd)
    → fd ≡ get_or xs i none
    → get_or (xs ++ fd ∷ []) i none ≡ get_or xs i none
get_or-append [] zero fd e = e
get_or-append [] (suc i) fd e = refl
get_or-append (x ∷ xs) zero fd e = refl
get_or-append (x ∷ xs) (suc i) fd e = get_or-append xs i fd e

closes_account : (d i : ℕ) (p : Owners) → total d (close_socket i p) ≡ total d p
closes_account d i p =
    omega (arith, held-put-none d p.sockets i, count-close_fd d (fd_at p i) p.closed)

moves_account : (d i : ℕ) (p : Owners) → total d (move_construct i p) ≡ total d p
moves_account d i p =
    let appended = get_or-append p.sockets i (fd_at p i) refl in
    omega (
      arith,
      held-put-none d (p.sockets ++ fd_at p i ∷ []) i,
      held-append d p.sockets (fd_at p i),
      ap (owns d) appended,
    )

-- An assignment to an object that has another descriptor than the one it gets loses it.
assign_loses :
    (d i j : ℕ) (p : Owners)
    → i < length p.sockets
    → total d (assign i j p) + owns d (fd_at (detach j p) i) ≡ total d p
assign_loses d i j p lt = omega (
  arith,
  held-put d (put p.sockets j none) i (fd_at p j) (rw length-put lt),
  held-put-none d p.sockets j,
)

step_account :
    (d : ℕ) (op : Op) (p : Owners)
    → IsEmptyTarget op p
    → total d (step op p) + given_by d op p ≡ total d p + obtained_by d op
unfolding step
step_account d (constructs fd) p h = omega (arith, held-append d p.sockets fd)
step_account d (moves i) p h = omega (arith, moves_account d i p)
step_account d (assigns i j) p (lt, free) = omega (arith, assign_loses d i j p lt, ap (owns d) free)
step_account d (detaches i) p h = omega (arith, held-put-none d p.sockets i)
step_account d (closes i) p h = omega (arith, closes_account d i p)
step_account d (destroys i) p h = omega (arith, closes_account d i p)
step_account d (destroys_session_socket i) p h =
    omega (arith, closes_account d i p, closes_account d i (close_socket i p))

run_account :
    (ops : List Op) (p : Owners) (d : ℕ)
    → AllEmptyTargets ops p
    → total d (run ops p) + given d ops p ≡ total d p + obtained d ops
run_account [] p d h = refl
run_account (op ∷ ops) p d (h, rest) =
    omega (arith, step_account d op p h, run_account ops (step op p) d rest)

destroy_all_account : (n : ℕ) (p : Owners) (d : ℕ) → total d (destroy_all n p) ≡ total d p
destroy_all_account zero p d = refl
destroy_all_account (suc n) p d =
    omega (arith, destroy_all_account n (destroy_socket n p) d, closes_account d n p)

held-drop-put :
    (d : ℕ) (xs : List Fd) (i : ℕ) → held d (drop i (put xs i none)) ≡ held d (drop (suc i) xs)
held-drop-put d [] zero = refl
held-drop-put d [] (suc i) = refl
held-drop-put d (x ∷ xs) zero = omega arith
held-drop-put d (x ∷ xs) (suc i) = held-drop-put d xs i

held-drop-length : (d : ℕ) (xs : List Fd) → held d (drop (length xs) xs) ≡ 0
held-drop-length d [] = refl
held-drop-length d (x ∷ xs) = held-drop-length d xs

destroyed_hold_nothing :
    (n : ℕ) (p : Owners) (d : ℕ)
    → held d (drop n p.sockets) ≡ 0
    → held d (destroy_all n p).sockets ≡ 0
destroyed_hold_nothing zero p d h = h
destroyed_hold_nothing (suc n) p d h =
    destroyed_hold_nothing n (destroy_socket n p) d (rw (held-drop-put d p.sockets n, h) refl)

-- Objects of class Socket that are made from descriptors, moved, assigned to, closed, detached and
-- destroyed in any order, of which every assignment goes to an object without a descriptor: at the
-- end of their scope no object holds a descriptor any more, and each descriptor was closed exactly
-- as often as it was obtained, less the times that detach gave it to the caller.
pub scope_closes_all :
    (ops : List Op) (d : ℕ)
    → AllEmptyTargets ops nobody
    → let p = end_of_scope (run ops nobody) in
      (held d p.sockets ≡ 0) × (count d p.closed + given d ops nobody ≡ obtained d ops)
scope_closes_all ops d h = (
  ends,
  omega (arith, run_account ops nobody d h, destroy_all_account (length p.sockets) p d, ends),
)
  where
    p : Owners
    p = run ops nobody

    ends : held d (end_of_scope p).sockets ≡ 0
    ends = destroyed_hold_nothing (length p.sockets) p d (held-drop-length d p.sockets)
