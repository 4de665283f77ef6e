-- ===== src/Core/Regex.antt =====
-- Regular expressions as `std::regex_match` reads them, for the patterns of
-- src/core/src/sockspp/core/utils.cxx: the whole text has to match, and `\b` stands between a
-- letter, digit or underscore and anything else.
pub mod Language
use sockspp.Base.{
  ℕ, zero, suc, Bool, true, false, not, ◌&&◌, ◌||◌, leb, if◌then◌else◌, Option, none, some, List,
  [], ◌∷◌,
}

-- A class is a list of ranges of character codes.
pub data Regex : Type 0 where
  nothing boundary : Regex
  class : List (ℕ × ℕ) → Regex
  seq alt : Regex → Regex → Regex

-- `r{n}` and `r{n,n+extra}`.
abbrev pub times : ℕ → Regex → Regex
times zero r = nothing
times (suc n) r = seq r (times n r)

abbrev pub up_to : ℕ → Regex → Regex
up_to zero r = nothing
up_to (suc n) r = alt (seq r (up_to n r)) nothing

abbrev pub between : ℕ → ℕ → Regex → Regex
between n extra r = seq (times n r) (up_to extra r)

abbrev pub char : ℕ → Regex
char c = class ((c, c) ∷ [])

unfoldable pub in_class : List (ℕ × ℕ) → ℕ → Bool
in_class [] c = false
in_class ((lo, hi) ∷ rest) c = leb lo c && leb c hi || in_class rest c

-- `[0-9A-Z_a-z]`.
unfoldable pub is_word : Option ℕ → Bool
unfolding in_class
is_word none = false
is_word (some c) = in_class ((48, 57) ∷ (65, 90) ∷ (95, 95) ∷ (97, 122) ∷ []) c

-- The character in front of a text, and after it.
abbrev pub first : List ℕ → Option ℕ
first [] = none
first (c ∷ t) = some c

abbrev pub at_boundary : Option ℕ → Option ℕ → Bool
at_boundary before after = if is_word before then not (is_word after) else is_word after

-- Whether `r` matches a prefix of the text and `k` accepts what is left; `before` is the character
-- in front of the text.
unfoldable pub accepts : Regex → Option ℕ → List ℕ → (Option ℕ → List ℕ → Bool) → Bool
unfolding in_class is_word
accepts nothing before s k = k before s
accepts boundary before s k = if at_boundary before (first s) then k before s else false
accepts (class ranges) before [] k = false
accepts (class ranges) before (c ∷ s) k = if in_class ranges c then k (some c) s else false
accepts (seq r r') before s k = accepts r before s (λ b t. accepts r' b t k)
accepts (alt r r') before s k = accepts r before s k || accepts r' before s k

-- `std::regex_match`.
unfoldable pub regex_match : List ℕ → Regex → Bool
unfolding accepts
regex_match text r = accepts r none text (λ before rest. elim rest [ [] ↦ true | c ∷ s ↦ false ])
