-- ===== src/Core/Utils/Dotted.antt =====
-- `is_ipv4_address` of src/core/src/sockspp/core/utils.cxx: four numbers and three dots.
use mathlib.Core.Path.{subst}
use mathlib.Core.List.{append_assoc, append-nil}
use sockspp.Base.{
  ℕ, ◌≡◌, refl, sym, ap, ◌∙◌, ◌↔◌, arith, true, Option, none, some, List, [], ◌∷◌, ◌++◌,
}
use sockspp.Core.Regex.{in_class, is_word, at_boundary}
use sockspp.Core.Regex.Language.{Matches, next, last, regex_match_iff}
use sockspp.Core.Utils.{dotted_octet, ipv4_pattern, is_ipv4_address}
use sockspp.Core.Utils.Octets.{IsOctet, octet_sound, octet_complete, range_bounds, in_range}

-- Four numbers from 0 to 255, each of one to three digits, between dots.
abbrev pub dotted : List ℕ → List ℕ → List ℕ → List ℕ → List ℕ
dotted a b c d = a ++ 46 ∷ (b ++ 46 ∷ (c ++ 46 ∷ d))

pub IsDotted : List ℕ → Type 0
IsDotted text =
    (a : List ℕ) × (b : List ℕ) × (c : List ℕ) × (d : List ℕ) × (text ≡ dotted a b c d)
    × IsOctet a
    × IsOctet b
    × IsOctet c
    × IsOctet d

dot_sound :
    (b : Option ℕ) (t : List ℕ) (n : Option ℕ)
    → Matches dotted_octet b t n
    → (o : List ℕ) × (t ≡ o ++ 46 ∷ []) × IsOctet o
unfolding Matches
dot_sound b t n (u, v, e, m, (c, e', i)) =
    let bc = range_bounds 46 46 c i in
    let same : c ≡ 46 = omega arith in
    (u, e ∙ ap (λ x. u ++ x) (e' ∙ ap (λ x. x ∷ []) same), octet_sound b u (next v n) m)

dot_complete :
    (b : Option ℕ) (o : List ℕ) (n : Option ℕ) → IsOctet o → Matches dotted_octet b (o ++ 46 ∷ []) n
unfolding Matches
dot_complete b o n h = (
  o,
  46 ∷ [],
  refl,
  octet_complete b o (some 46) h,
  (46, refl, in_range 46 46 46 (omega arith) (omega arith)),
)

glue :
    (a b c d : List ℕ)
    → ((a ++ 46 ∷ []) ++ ((b ++ 46 ∷ []) ++ ((c ++ 46 ∷ []) ++ []))) ++ (d ++ []) ≡ dotted a b c d
glue a b c d = simp (append_assoc, append-nil)

-- The pieces that the pattern cuts a text into, put together.
joined :
    (a b c o : List ℕ) {text u v u1 v1 t1 w1 t2 w2 t3 w3 w : List ℕ}
    → text ≡ u ++ v
    → u ≡ []
    → v ≡ u1 ++ v1
    → u1 ≡ t1 ++ w1
    → w1 ≡ t2 ++ w2
    → w2 ≡ t3 ++ w3
    → w3 ≡ []
    → v1 ≡ o ++ w
    → w ≡ []
    → t1 ≡ a ++ 46 ∷ []
    → t2 ≡ b ++ 46 ∷ []
    → t3 ≡ c ++ 46 ∷ []
    → text ≡ dotted a b c o
joined a b c o e eu e1 f1 f2 f3 f4 g g' ea eb ec =
    rw (e, eu, e1, f1, f2, f3, f4, g, g', ea, eb, ec) (glue _ _ _ _)

-- A number begins and ends with a digit, so there is a word boundary on each side.
octet_boundary : (o rest : List ℕ) → IsOctet o → at_boundary none (next (o ++ rest) none) ≡ true
unfolding is_word in_class
octet_boundary (x ∷ []) rest h = ground arith
octet_boundary (x ∷ y ∷ []) rest h = ground arith
octet_boundary (x ∷ y ∷ z ∷ []) rest h = ground arith
octet_boundary [] rest h = absurd h
octet_boundary (x ∷ y ∷ z ∷ w ∷ t) rest h = absurd h

octet_end : (b : Option ℕ) (o : List ℕ) → IsOctet o → at_boundary (last b o) none ≡ true
unfolding is_word in_class
octet_end b (x ∷ []) h = ground arith
octet_end b (x ∷ y ∷ []) h = ground arith
octet_end b (x ∷ y ∷ z ∷ []) h = ground arith
octet_end b [] h = absurd h
octet_end b (x ∷ y ∷ z ∷ w ∷ t) h = absurd h

pattern_sound : (text : List ℕ) → Matches ipv4_pattern none text none → IsDotted text
unfolding Matches IsDotted
pattern_sound text
      (
        u,
        v,
        e,
        (eu, _),
        (
          u1,
          v1,
          e1,
          (t1, w1, f1, m1, (t2, w2, f2, m2, (t3, w3, f3, m3, f4))),
          (o, w, g, m, (g', _)),
        ),
      ) =
    let b1 = last none u in
    let after = next v1 none in
    let (a, ea, ha) = dot_sound b1 t1 (next w1 after) m1 in
    let (b, eb, hb) = dot_sound (last b1 t1) t2 (next w2 after) m2 in
    let (c, ec, hc) = dot_sound (last (last b1 t1) t2) t3 (next w3 after) m3 in
    let hd = octet_sound (last b1 u1) o (next w none) m in
    let none_left : w3 ≡ [] = f4 in
    (a, b, c, o, joined a b c o e eu e1 f1 f2 f3 none_left g g' ea eb ec, ha, hb, hc, hd)

pattern_complete : (text : List ℕ) → IsDotted text → Matches ipv4_pattern none text none
unfolding Matches IsDotted
pattern_complete text (a, b, c, d, e, ha, hb, hc, hd) =
    let two = (c ++ 46 ∷ []) ++ [] in
    let one = (b ++ 46 ∷ []) ++ two in
    let three = (a ++ 46 ∷ []) ++ one in
    let b1 = last none (a ++ 46 ∷ []) in
    let b2 = last b1 (b ++ 46 ∷ []) in
    let all : text ≡ three ++ d = e ∙ simp (append_assoc, append-nil) in
    (
      [],
      text,
      refl,
      (refl, subst (λ t. at_boundary none (next t none) ≡ true) (sym e) (octet_boundary a _ ha)),
      (
        three,
        d,
        all,
        (
          a ++ 46 ∷ [],
          one,
          refl,
          dot_complete none a (next one (next d none)) ha,
          (
            b ++ 46 ∷ [],
            two,
            refl,
            dot_complete b1 b (next two (next d none)) hb,
            (c ++ 46 ∷ [], [], refl, dot_complete b2 c (next d none) hc, refl),
          ),
        ),
        (
          d,
          [],
          sym (append-nil d),
          octet_complete (last none three) d none hd,
          (refl, octet_end _ d hd),
        ),
      ),
    )

-- The pattern accepts a text exactly if it is four numbers from 0 to 255 between dots, each of one
-- to three digits, so with leading zeros too.
pub is_ipv4_address_iff : (text : List ℕ) → (is_ipv4_address text ≡ true) ↔ IsDotted text
unfolding is_ipv4_address
is_ipv4_address_iff text =
    let (forth, back) = regex_match_iff text ipv4_pattern in
    (λ h. pattern_sound text (forth h), λ h. back (pattern_complete text h))
