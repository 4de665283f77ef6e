-- ===== src/Core/Exceptions.antt =====
-- src/core/src/sockspp/core/exceptions.hpp: what an exception of the core library says. `strerror` is
-- an argument. An error number is not negative.

use sockspp.Base.{ℕ, ◌^◌, ◌<◌, ◌≡◌, arith, ◌==◌, if◌then◌else◌, List, [], ◌∷◌, ◌++◌}
use sockspp.Core.SocketInfo.Text.{digits, reads, reads-digits}

pub record Exception : Type 0 where
  pub message : List ℕ
  pub place : List ℕ
  pub code : ℕ

abbrev what : Exception → List ℕ
what e = e.message

-- "\nWhere: ", "\nCode: ".
abbrev where_label : List ℕ
where_label = 10 ∷ 87 ∷ 104 ∷ 101 ∷ 114 ∷ 101 ∷ 58 ∷ 32 ∷ []

abbrev code_label : List ℕ
code_label = 10 ∷ 67 ∷ 111 ∷ 100 ∷ 101 ∷ 58 ∷ 32 ∷ []

-- `std::to_string`, for the numbers below 2^64.
abbrev number_text : ℕ → List ℕ
number_text n = digits 20 n

abbrev place_text : List ℕ → List ℕ
place_text [] = []
place_text (c ∷ cs) = where_label ++ (c ∷ cs)

-- `Exception::full_message`.
unfoldable full_message : Exception → List ℕ
full_message e =
    (e.message ++ place_text e.place)
    ++ (if e.code == 0 then [] else code_label ++ number_text e.code)

-- The classes that take their text and their code from `sockerrno`: the same constructor each.
data SystemError : Type 0 where
  io poller_creation socket_creation socket_bind socket_accept socket_connection : SystemError

abbrev system_exception : (ℕ → List ℕ) → ℕ → SystemError → List ℕ → Exception
system_exception strerror sockerrno error place = record {
  message = strerror sockerrno;
  place = place;
  code = sockerrno;
}

-- "Couldn't allocate " and " bytes of memory".
abbrev allocate_text : List ℕ
allocate_text =
    67 ∷ 111 ∷ 117 ∷ 108 ∷ 100 ∷ 110 ∷ 39 ∷ 116 ∷ 32 ∷ 97 ∷ 108 ∷ 108 ∷ 111 ∷ 99 ∷ 97 ∷ 116 ∷ 101
    ∷ 32 ∷ []

abbrev bytes_text : List ℕ
bytes_text =
    32 ∷ 98 ∷ 121 ∷ 116 ∷ 101 ∷ 115 ∷ 32 ∷ 111 ∷ 102 ∷ 32 ∷ 109 ∷ 101 ∷ 109 ∷ 111 ∷ 114 ∷ 121 ∷ []

abbrev memory_allocation_exception : ℕ → List ℕ → Exception
memory_allocation_exception allocation_size place = record {
  message = allocate_text ++ (number_text allocation_size ++ bytes_text);
  place = place;
  code = 0;
}

-- The full message of an exception with a code ends in it: the digits read as the code again.
full_message_code :
    (e : Exception)
    → 0 < e.code
    → e.code < 10 ^ 20
    → (digits_of : List ℕ) × ((full_message e
          ≡ (e.message ++ place_text e.place) ++ (code_label ++ digits_of))
        × (reads 0 digits_of ≡ e.code))
unfolding full_message
full_message_code e some_code lt = (number_text e.code, (ground arith, reads-digits 20 e.code lt))
