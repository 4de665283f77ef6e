-- ===== src/Core/Utils/Octets.antt =====
-- One number of an IPv4 address, as the pattern of src/core/src/sockspp/core/utils.cxx reads it.
use mathlib.Core.Path.{subst}
use sockspp.Base.{
  Bool-cases, sym, ℕ, ◌+◌, ◌*◌, ◌-◌, ◌≤◌, ◌≡◌, refl, ap, ◌∙◌, ◌⊎◌, inl, inr, arith, true, leb,
  Option, some, List, [], ◌∷◌, ◌++◌,
}
use sockspp.Core.Regex.{Regex, class, seq, up_to, char, in_class}
use sockspp.Core.Regex.Language.{Matches, next, last}
use sockspp.Core.Utils.{digit, octet}

abbrev pub IsDigit : ℕ → Type 0
IsDigit c = (48 ≤ c) × (c ≤ 57)

-- One to three digits of a number up to 255; leading zeros are allowed.
abbrev pub IsOctet : List ℕ → Type 0
IsOctet (a ∷ []) = IsDigit a
IsOctet (a ∷ b ∷ []) = IsDigit a × IsDigit b
IsOctet (a ∷ b ∷ c ∷ []) =
    IsDigit a × IsDigit b × IsDigit c × (100 * (a - 48) + 10 * (b - 48) + (c - 48) ≤ 255)
IsOctet _ = ⊥

-- A class in front of the rest, and an optional class.
pub class_first :
    (cs : List (ℕ × ℕ)) (r : Regex) (b : Option ℕ) (t : List ℕ) (n : Option ℕ)
    → Matches (seq (class cs) r) b t n
    → (c : ℕ) × (v : List ℕ) × (t ≡ c ∷ v) × (in_class cs c ≡ true) × Matches r (some c) v n
unfolding Matches
class_first cs r b t n (u, v, e, (c, e', i), m) =
    (c, v, e ∙ ap (λ x. x ++ v) e', i, subst (λ (x : List ℕ). Matches r (last b x) v n) e' m)

class_optional :
    (cs : List (ℕ × ℕ)) (b : Option ℕ) (t : List ℕ) (n : Option ℕ)
    → Matches (up_to 1 (class cs)) b t n
    → (t ≡ []) ⊎ ((c : ℕ) × (t ≡ c ∷ []) × (in_class cs c ≡ true))
unfolding Matches
class_optional cs b t n (inl (u, v, e, (c, e', i), e2)) = inr (c, rw (e, e', e2) refl, i)
class_optional cs b t n (inr e) = inl e

class_seq :
    (cs : List (ℕ × ℕ)) (r : Regex) (b : Option ℕ) (c : ℕ) (v : List ℕ) (n : Option ℕ)
    → in_class cs c ≡ true
    → Matches r (some c) v n
    → Matches (seq (class cs) r) b (c ∷ v) n
unfolding Matches
class_seq cs r b c v n i m = (c ∷ [], v, refl, (c, refl, i), m)

class_once :
    (cs : List (ℕ × ℕ)) (b : Option ℕ) (c : ℕ) (n : Option ℕ)
    → in_class cs c ≡ true
    → Matches (up_to 1 (class cs)) b (c ∷ []) n
unfolding Matches
class_once cs b c n i = inl (c ∷ [], [], refl, (c, refl, i), refl)

-- A range is a class of its own.
pub in_range : (lo hi c : ℕ) → lo ≤ c → c ≤ hi → in_class ((lo, hi) ∷ []) c ≡ true
unfolding in_class
in_range lo hi c h h' = ground arith

pub range_bounds : (lo hi c : ℕ) → in_class ((lo, hi) ∷ []) c ≡ true → (lo ≤ c) × (c ≤ hi)
unfolding in_class
range_bounds lo hi c h = ground arith

-- The tails of the long alternatives.
abbrev low_digit : Regex
low_digit = class ((48, 53) ∷ [])

abbrev tail_five : Regex
tail_five = seq (char 53) low_digit

abbrev tail_less : Regex
tail_less = seq (class ((48, 52) ∷ [])) digit

-- The alternatives of the pattern.
short_octet :
    (b : Option ℕ) (u v : List ℕ) (x : ℕ) (n : Option ℕ)
    → Matches (up_to 1 (class ((48, 49) ∷ []))) b u (some x)
    → IsDigit x
    → Matches (up_to 1 digit) (some x) v n
    → Matches octet b (u ++ x ∷ v) n
unfolding Matches
short_octet b u v x n m (lo, hi) m' = inr (
    inr (
      u,
      x ∷ v,
      refl,
      m,
      class_seq ((48, 57) ∷ []) (up_to 1 digit) (last b u) x v n (in_range 48 57 x lo hi) m',
    ))

long_octet :
    (b : Option ℕ) (x y z : ℕ) (n : Option ℕ)
    → IsOctet (x ∷ y ∷ z ∷ [])
    → Matches octet b (x ∷ y ∷ z ∷ []) n
unfolding Matches
long_octet b x y z n (dx, dy, dz, small) = elim (Bool-cases (leb x 49)) [
  | inl e ↦
      short_octet b (x ∷ []) (z ∷ []) y n
        (class_once ((48, 49) ∷ []) b x (some y) (in_range 48 49 x (ground arith) (ground arith)))
        dy (class_once ((48, 57) ∷ []) (some y) z n (in_range 48 57 z (dz.0) (dz.1)))
  | inr e ↦ elim (Bool-cases (leb y 52)) [
    | inl e' ↦ inr (
        inl (
          class_seq ((50, 50) ∷ []) tail_less b x (y ∷ z ∷ []) n
            (in_range 50 50 x (ground arith) (ground arith))
            (class_seq ((48, 52) ∷ []) digit (some x) y (z ∷ []) n
              (in_range 48 52 y (dy.0) (ground arith)) (z, refl, in_range 48 57 z (dz.0) (dz.1)))))
    | inr e' ↦ inl (
        class_seq ((50, 50) ∷ []) tail_five b x (y ∷ z ∷ []) n
          (in_range 50 50 x (ground arith) (ground arith))
          (class_seq ((53, 53) ∷ []) low_digit (some x) y (z ∷ []) n
            (in_range 53 53 y (ground arith) (ground arith))
            (z, refl, in_range 48 53 z (dz.0) (ground arith))))
  ]
]

pub octet_complete : (b : Option ℕ) (t : List ℕ) (n : Option ℕ) → IsOctet t → Matches octet b t n
unfolding Matches
octet_complete b (x ∷ []) n h = short_octet b [] [] x n (inr refl) h (inr refl)
octet_complete b (x ∷ y ∷ []) n (hx, hy) =
    short_octet b [] (y ∷ []) x n (inr refl) hx
      (class_once ((48, 57) ∷ []) (some x) y n (in_range 48 57 y (hy.0) (hy.1)))
octet_complete b (x ∷ y ∷ z ∷ []) n h = long_octet b x y z n h
octet_complete b [] n h = absurd h
octet_complete b (x ∷ y ∷ z ∷ w ∷ t) n h = absurd h

short_sound :
    (u : List ℕ) (x : ℕ) (v : List ℕ)
    → (u ≡ []) ⊎ ((c : ℕ) × (u ≡ c ∷ []) × (in_class ((48, 49) ∷ []) c ≡ true))
    → IsDigit x
    → (v ≡ []) ⊎ ((c : ℕ) × (v ≡ c ∷ []) × (in_class ((48, 57) ∷ []) c ≡ true))
    → IsOctet (u ++ x ∷ v)
short_sound u x v (inl e) h (inl e') = rw (e, e') h
short_sound u x v (inl e) h (inr (d, e', i)) = let bd = range_bounds 48 57 d i in rw (e, e') (h, bd)
short_sound u x v (inr (c, e, i)) h (inl e') =
    let bc = range_bounds 48 49 c i in rw (e, e') (ground arith)
short_sound u x v (inr (c, e, i)) h (inr (d, e', i')) =
    let bc = range_bounds 48 49 c i in let bd = range_bounds 48 57 d i' in rw (e, e') (ground arith)

pub octet_sound : (b : Option ℕ) (t : List ℕ) (n : Option ℕ) → Matches octet b t n → IsOctet t
unfolding Matches
octet_sound b t n (inl m) =
    let (x, t1, e, ix, m1) = class_first ((50, 50) ∷ []) tail_five b t n m in
    let (y, t2, e1, iy, (z, e2, iz)) = class_first ((53, 53) ∷ []) low_digit (some x) t1 n m1 in
    let bx = range_bounds 50 50 x ix in
    let by = range_bounds 53 53 y iy in
    let bz = range_bounds 48 53 z iz in
    subst IsOctet (sym (e ∙ ap (λ w. x ∷ w) (e1 ∙ ap (λ w. y ∷ w) e2))) (ground arith)
octet_sound b t n (inr (inl m)) =
    let (x, t1, e, ix, m1) = class_first ((50, 50) ∷ []) tail_less b t n m in
    let (y, t2, e1, iy, (z, e2, iz)) = class_first ((48, 52) ∷ []) digit (some x) t1 n m1 in
    let bx = range_bounds 50 50 x ix in
    let by = range_bounds 48 52 y iy in
    let bz = range_bounds 48 57 z iz in
    subst IsOctet (sym (e ∙ ap (λ w. x ∷ w) (e1 ∙ ap (λ w. y ∷ w) e2))) (ground arith)
octet_sound b t n (inr (inr (u, v, e, m, m'))) =
    let (x, t1, e1, ix, m1) = class_first ((48, 57) ∷ []) (up_to 1 digit) (last b u) v n m' in
    let bx = range_bounds 48 57 x ix in
    subst IsOctet (sym (e ∙ ap (λ w. u ++ w) e1)) (
      short_sound u x t1 (class_optional _ b u (next v n) m) bx (class_optional _ (some x) t1 n m1))
