-- ===== src/Server/Setup/Nameservers.antt =====
-- `get_dns_nameservers` of src/server/src/sockspp/server/utils.cxx on a file that is written line by
-- line.
use sockspp.Base.{
  ℕ, ◌≡◌, ◌≢◌, refl, ap, ◌∙◌, arith, false, Bool-cases, inl, inr, ◌==◌, some, List, [], ◌∷◌, ◌++◌,
}
use sockspp.Server.Setup.{
  nameserver_text, lines, starts_with, nameserver_lines, get_dns_nameservers,
}

-- A line of the file: a nameserver's, or one that begins otherwise.
pub data Entry : Type 0 where
  nameserver other : List ℕ → Entry

abbrev pub HasNoFeed : List ℕ → Type 0
HasNoFeed [] = Unit
HasNoFeed (c ∷ text) = (c ≢ 10) × HasNoFeed text

abbrev pub IsLine : Entry → Type 0
IsLine (nameserver address) = HasNoFeed address
IsLine (other line) = HasNoFeed line × (starts_with line nameserver_text ≡ false)

abbrev pub AreLines : List Entry → Type 0
AreLines [] = Unit
AreLines (e ∷ es) = IsLine e × AreLines es

abbrev pub line_of : Entry → List ℕ
line_of (nameserver address) = nameserver_text ++ address
line_of (other line) = line

abbrev pub print_lines : List Entry → List ℕ
print_lines [] = []
print_lines (e ∷ es) = line_of e ++ 10 ∷ print_lines es

abbrev pub addresses_of : List Entry → List (List ℕ)
addresses_of [] = []
addresses_of (nameserver address ∷ es) = address ∷ addresses_of es
addresses_of (other line ∷ es) = addresses_of es

lines-feed : (line rest : List ℕ) → HasNoFeed line → lines (line ++ 10 ∷ rest) ≡ line ∷ lines rest
unfolding lines
lines-feed [] rest h = refl
lines-feed (c ∷ line) rest (n, h) = elim (Bool-cases (c == 10)) [
  | inl e ↦ ground arith
  | inr e ↦ rw (e, lines-feed line rest h) refl
]

line-HasNoFeed : (e : Entry) → IsLine e → HasNoFeed (line_of e)
line-HasNoFeed (nameserver address) h = ground arith
line-HasNoFeed (other line) h = h.0

lines_of : List Entry → List (List ℕ)
lines_of [] = []
lines_of (e ∷ es) = line_of e ∷ lines_of es

lines-print : (es : List Entry) → AreLines es → lines (print_lines es) ≡ lines_of es
unfolding lines_of lines
lines-print [] h = refl
lines-print (e ∷ es) (h, hs) =
    lines-feed (line_of e) (print_lines es) (line-HasNoFeed e h)
    ∙ ap (λ (ls : List (List ℕ)). line_of e ∷ ls) (lines-print es hs)

addresses_lem : (es : List Entry) → AreLines es → nameserver_lines (lines_of es) ≡ addresses_of es
unfolding lines_of nameserver_lines starts_with
addresses_lem [] h = refl
addresses_lem (nameserver address ∷ es) (h, hs) =
    ap (λ (ls : List (List ℕ)). address ∷ ls) (addresses_lem es hs)
addresses_lem (other line ∷ es) ((n, different), hs) = rw different (addresses_lem es hs)

-- The nameservers of a file whose lines end in line feeds: what follows "nameserver " in each line
-- that begins so, in the order of the lines and unchanged; all other lines are passed over.
pub get_dns_nameservers-print :
    (es : List Entry) → AreLines es → get_dns_nameservers (some (print_lines es)) ≡ addresses_of es
unfolding get_dns_nameservers
get_dns_nameservers-print es h = ap nameserver_lines (lines-print es h) ∙ addresses_lem es h
