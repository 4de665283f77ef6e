-- ===== src/Core/Utils/Groups.antt =====
-- `is_ipv6_address` of src/core/src/sockspp/core/utils.cxx: what the word boundaries of the pattern
-- leave out.
use mathlib.Core.Path.{subst}
use sockspp.Base.{ℕ, ◌≡◌, sym, ap, ◌∙◌, inl, inr, arith, true, Bool-cases, Option, none, List, ◌++◌}
use sockspp.Core.Regex.{times, Regex, boundary, seq, alt, is_word}
use sockspp.Core.Regex.Language.{last-append, Matches, next, last, regex_match_iff}
use sockspp.Core.Utils.{
  group, group_colon, short_head, short_tail, full_pattern, short_pattern, is_ipv6_address,
}

-- What begins with a word boundary begins with a letter, a digit or an underscore.
starts_bounded :
    (r : Regex) (text : List ℕ)
    → Matches (seq boundary r) none text none
    → is_word (next text none) ≡ true
unfolding Matches is_word
starts_bounded r text (u, v, e, (eu, w), m) =
    subst (λ t. is_word (next t none) ≡ true) (sym (e ∙ ap (λ x. x ++ v) eu)) w

-- What ends with a word boundary ends with such a character.
EndsBounded : Regex → Type 0
EndsBounded r =
    (before : Option ℕ) (t : List ℕ) → Matches r before t none → is_word (last before t) ≡ true

boundary-EndsBounded : EndsBounded boundary
unfolding EndsBounded Matches is_word
boundary-EndsBounded before t (e, w) = elim (Bool-cases (is_word before)) [
  | inl h ↦ subst (λ x. is_word (last before x) ≡ true) (sym e) h
  | inr h ↦ ground arith
]

seq-EndsBounded : (r r' : Regex) → EndsBounded r' → EndsBounded (seq r r')
unfolding EndsBounded Matches
seq-EndsBounded r r' h before t (u, v, e, m, m') =
    subst (λ b. is_word b ≡ true) (sym (ap (last before) e ∙ last-append before u v))
      (h (last before u) v m')

full-EndsBounded : EndsBounded full_pattern
full-EndsBounded =
    seq-EndsBounded _ _ (seq-EndsBounded _ _ (seq-EndsBounded _ _ boundary-EndsBounded))

short-EndsBounded : EndsBounded short_pattern
short-EndsBounded = seq-EndsBounded _ _ (
    seq-EndsBounded _ _ (
      seq-EndsBounded _ _
        (seq-EndsBounded _ _ (seq-EndsBounded _ _ (seq-EndsBounded _ _ boundary-EndsBounded)))))

-- An address that the pattern accepts begins and ends with a letter, a digit or an underscore. So
-- the forms that begin or end with "::" are refused, the loopback and the unspecified address
-- among them.
pub is_ipv6_address-bounded :
    (text : List ℕ)
    → is_ipv6_address text ≡ true
    → (is_word (next text none) ≡ true) × (is_word (last none text) ≡ true)
unfolding is_ipv6_address Matches EndsBounded
is_ipv6_address-bounded text h =
    elim ((regex_match_iff text (alt full_pattern short_pattern)).0 h) [
      | inl m ↦ (
        starts_bounded (seq (times 7 group_colon) (seq group boundary)) text m,
        full-EndsBounded none text m,
      )
      | inr m ↦ (starts_bounded (seq short_head short_tail) text m, short-EndsBounded none text m)
    ]
