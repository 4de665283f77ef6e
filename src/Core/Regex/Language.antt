-- ===== src/Core/Regex/Language.antt =====
-- What `regex_match` decides: the language of a regular expression, by its parts.
use mathlib.Core.List.{append_assoc, append-nil}
use mathlib.Core.Path.{subst}
use sockspp.Base.{
  ℕ, ◌≡◌, refl, ◌⊎◌, inl, inr, ◌↔◌, arith, ap, sym, ◌∙◌, Bool, true, false, ◌||◌, if◌then◌else◌,
  Option, none, some, List, [], ◌∷◌, ◌++◌,
}
use sockspp.Core.Regex.{
  Regex, nothing, boundary, class, seq, alt, in_class, first, at_boundary, accepts, regex_match,
}

-- The character in front of what follows a text.
abbrev pub last : Option ℕ → List ℕ → Option ℕ
last before [] = before
last before (c ∷ t) = last (some c) t

-- The character after a text that `after` follows.
abbrev pub next : List ℕ → Option ℕ → Option ℕ
next [] after = after
next (c ∷ t) after = some c

-- The text is in the language of `r`, between these characters.
unfoldable pub Matches : Regex → Option ℕ → List ℕ → Option ℕ → Type 0
Matches nothing before t after = t ≡ []
Matches boundary before t after = (t ≡ []) × (at_boundary before after ≡ true)
Matches (class ranges) before t after = (c : ℕ) × (t ≡ c ∷ []) × (in_class ranges c ≡ true)
Matches (seq r r') before t after =
    (u : List ℕ) × (v : List ℕ) × (t ≡ u ++ v)
    × Matches r before u (next v after)
    × Matches r' (last before u) v after
Matches (alt r r') before t after = Matches r before t after ⊎ Matches r' before t after

-- Some prefix is in the language, and `k` accepts the rest.
abbrev Splits : Regex → Option ℕ → List ℕ → (Option ℕ → List ℕ → Bool) → Type 0
Splits r before s k =
    (u : List ℕ) × (v : List ℕ) × (s ≡ u ++ v)
    × Matches r before u (first v)
    × (k (last before u) v ≡ true)

first-append : (u v : List ℕ) → next u (first v) ≡ first (u ++ v)
first-append [] v = refl
first-append (c ∷ u) v = refl

pub last-append : (before : Option ℕ) (u v : List ℕ) → last before (u ++ v) ≡ last (last before u) v
last-append before [] v = refl
last-append before (c ∷ u) v = last-append (some c) u v

or_true : (a b : Bool) → (a || b) ≡ true → (a ≡ true) ⊎ (b ≡ true)
or_true false b h = inr h
or_true true b h = inl refl

or_intro : (a b : Bool) → (a ≡ true) ⊎ (b ≡ true) → (a || b) ≡ true
or_intro false b (inl h) = ground arith
or_intro false b (inr h) = h
or_intro true b h = refl

if_true : (a b : Bool) → (if a then b else false) ≡ true → (a ≡ true) × (b ≡ true)
if_true false b h = ground arith
if_true true b h = (refl, h)

if_intro : (a b : Bool) → a ≡ true → b ≡ true → (if a then b else false) ≡ true
if_intro false b e h = ground arith
if_intro true b e h = h

sound :
    (r : Regex) (before : Option ℕ) (s : List ℕ) (k : Option ℕ → List ℕ → Bool)
    → accepts r before s k ≡ true
    → Splits r before s k
unfolding accepts Matches
sound nothing before s k h = ([], s, refl, refl, h)
sound boundary before s k h =
    let (e, h') = if_true (at_boundary before (first s)) (k before s) h in
    ([], s, refl, (refl, e), h')
sound (class ranges) before [] k h = ground arith
sound (class ranges) before (c ∷ s) k h =
    let (e, h') = if_true (in_class ranges c) (k (some c) s) h in
    (c ∷ [], s, refl, (c, refl, e), h')
sound (seq r r') before s k h =
    let (u, v, e, m, h1) = sound r before s _ h in
    let (u', v', e', m', h') = sound r' (last before u) v k h1 in
    (
      u ++ u',
      v',
      e ∙ ap (λ x. u ++ x) e' ∙ sym (append_assoc u u' v'),
      (u, u', refl, subst (Matches r before u) (ap first e' ∙ sym (first-append u' v')) m, m'),
      subst (λ b. k b v' ≡ true) (sym (last-append before u u')) h',
    )
sound (alt r r') before s k h = elim (or_true (accepts r before s k) (accepts r' before s k) h) [
  | inl h1 ↦ let (u, v, e, m, h') = sound r before s k h1 in (u, v, e, inl m, h')
  | inr h1 ↦ let (u, v, e, m, h') = sound r' before s k h1 in (u, v, e, inr m, h')
]

complete :
    (r : Regex) (before : Option ℕ) (u v : List ℕ) (k : Option ℕ → List ℕ → Bool)
    → Matches r before u (first v)
    → k (last before u) v ≡ true
    → accepts r before (u ++ v) k ≡ true
unfolding accepts Matches
complete nothing before u v k e h = rw e (rw e at h)
complete boundary before u v k (e, b) h =
    rw e (if_intro (at_boundary before (first v)) (k before v) b (rw e at h))
complete (class ranges) before u v k (c, e, i) h =
    rw e (if_intro (in_class ranges c) (k (some c) v) i (rw e at h))
complete (seq r r') before u v k (u1, u2, e, m, m') h =
    let h2 : k (last (last before u1) u2) v ≡ true =
      subst (λ b. k b v ≡ true) (ap (last before) e ∙ last-append before u1 u2) h in
    let m2 = subst (Matches r before u1) (first-append u2 v) m in
    subst (λ x. accepts r before x (λ b t. accepts r' b t k) ≡ true)
      (sym (append_assoc u1 u2 v) ∙ ap (λ x. x ++ v) (sym e))
      (complete r before u1 (u2 ++ v) (λ b t. accepts r' b t k) m2
        (complete r' (last before u1) u2 v k m' h2))
complete (alt r r') before u v k (inl m) h = or_intro _ _ (inl (complete r before u v k m h))
complete (alt r r') before u v k (inr m) h = or_intro _ _ (inr (complete r' before u v k m h))

-- `regex_match` accepts exactly the language.
pub regex_match_iff :
    (text : List ℕ) (r : Regex) → (regex_match text r ≡ true) ↔ Matches r none text none
unfolding regex_match
regex_match_iff text r = (forth, back)
  where
    ends : Option ℕ → List ℕ → Bool
    ends before rest = elim rest [ [] ↦ true | c ∷ s ↦ false ]

    only :
        (u v : List ℕ) (b : Option ℕ)
        → ends b v ≡ true
        → text ≡ u ++ v
        → Matches r none u (first v)
        → Matches r none text none
    only u [] b h e m = subst (λ t. Matches r none t none) (sym (e ∙ append-nil u)) m
    only u (c ∷ v) b h e m = ground arith

    forth : regex_match text r ≡ true → Matches r none text none
    forth h = let (u, v, e, m, h') = sound r none text _ h in only u v (last none u) h' e m

    back : Matches r none text none → regex_match text r ≡ true
    back m =
        subst (λ t. accepts r none t ends ≡ true) (append-nil text)
          (complete r none text [] ends m refl)
