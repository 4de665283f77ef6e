-- ===== src/Base/Memory.antt =====
-- Byte-addressed memory: an array of `uint8_t` whose every index holds a byte, `memcpy`, and the
-- 16-bit loads and stores of a little-endian host with the C library's `htons`.
use Prim.Native.Nat.{ℕ, zero, suc, ◌+◌, ◌-◌, ◌*◌, ◌/◌, ◌%◌, ◌≤◌, ◌<◌}
use mathlib.Core.Path.{◌≡◌, refl, sym, ap, ◌∙◌}
use mathlib.Core.Bool.{◌&&◌}
use mathlib.Core.List.{List, [], ◌∷◌, ◌++◌}
use native.Mathlib.Nat.{suc-add}
use native.Mathlib.Omega.{arith}
use sockspp.Base.Tests.{ltb, leb, ◌==◌, if◌then◌else◌}
use sockspp.Base.Lists.{length, take, get_or, length-append, get_or-skip, take-append}

abbrev pub Mem : Type 0
Mem = ℕ → ℕ

-- Bytes `p`, `p + 1`, …, `p + n - 1`.
unfoldable pub slice : Mem → ℕ → ℕ → List ℕ
slice m p zero = []
slice m p (suc n) = m p ∷ slice m (p + 1) n

abbrev pub write : Mem → ℕ → ℕ → Mem
write m p v i = if i == p then v else m i

-- `memcpy(m + p, s + q, n)` from another array.
abbrev pub copy : Mem → ℕ → Mem → ℕ → ℕ → Mem
copy m p s q n i = if leb p i && ltb i (p + n) then s (q + (i - p)) else m i

-- An array that begins with a byte string.
abbrev pub of_bytes : List ℕ → Mem → Mem
of_bytes bs rest i = if ltb i (length bs) then get_or bs i 0 else rest i

-- Host order is little-endian: the byte at the lower address is the low one.
abbrev pub load16 : Mem → ℕ → ℕ
load16 m p = m p + 256 * m (p + 1)

abbrev pub store16 : Mem → ℕ → ℕ → Mem
store16 m p v = write (write m p (v % 256)) (p + 1) (v / 256)

abbrev pub htons : ℕ → ℕ
htons v = v / 256 + 256 * (v % 256)

pub length-slice : (m : Mem) (p n : ℕ) → length (slice m p n) ≡ n
unfolding slice
length-slice m p zero = refl
length-slice m p (suc n) = ap suc (length-slice m (p + 1) n)

-- Two arrays that agree on a range have the same bytes there.
pub slice_ext :
    (m s : Mem) (p q n : ℕ) → ((i : ℕ) → i < n → m (p + i) ≡ s (q + i)) → slice m p n ≡ slice s q n
unfolding slice
slice_ext m s p q zero h = refl
slice_ext m s p q (suc n) h =
    ground (arith, h 0, slice_ext m s (p + 1) (q + 1) n (λ i lt. ground (arith, h (i + 1))))

pub slice-append : (m : Mem) (p n k : ℕ) → slice m p (n + k) ≡ slice m p n ++ slice m (p + n) k
unfolding slice
slice-append m p zero k = ground arith
slice-append m p (suc n) k =
    let split : slice m (p + 1) (n + k) ≡ slice m (p + 1) n ++ slice m (p + 1 + n) k =
      slice-append m (p + 1) n k in
    rw suc-add (ground (arith, split))

pub take-slice : (m : Mem) (p n k : ℕ) → n ≤ k → take n (slice m p k) ≡ slice m p n
unfolding slice
take-slice m p zero k h = refl
take-slice m p (suc n) zero h = absurd (omega arith)
take-slice m p (suc n) (suc k) h = ground (arith, take-slice m (p + 1) n k)

-- What is sent from an array that begins with a byte string is that string.
pub slice-of_bytes : (bs : List ℕ) (rest : Mem) → slice (of_bytes bs rest) 0 (length bs) ≡ bs
unfolding slice
slice-of_bytes [] rest = refl
slice-of_bytes (b ∷ bs) rest =
    let shift : slice (of_bytes (b ∷ bs) rest) 1 (length bs)
        ≡ slice (of_bytes bs (λ i. rest (suc i))) 0 (length bs) =
      slice_ext (of_bytes (b ∷ bs) rest) (of_bytes bs (λ i. rest (suc i))) 1 0 (length bs)
        (λ i lt. ground arith) in
    ground (arith, shift, slice-of_bytes bs (λ i. rest (suc i)))

pub of_bytes_skip :
    (xs ys : List ℕ) (rest : Mem) (i : ℕ)
    → i < length ys
    → of_bytes (xs ++ ys) rest (length xs + i) ≡ get_or ys i 0
of_bytes_skip xs ys rest i lt = ground (arith, length-append xs ys, get_or-skip xs ys i 0)

-- A byte string in the middle of what the array begins with, between two others.
pub slice_between :
    (xs ys zs : List ℕ) (rest : Mem)
    → slice (of_bytes (xs ++ (ys ++ zs)) rest) (length xs) (length ys) ≡ ys
slice_between xs ys zs rest =
    let tail = ys ++ zs in
    let total = length-append ys zs in
    slice_ext (of_bytes (xs ++ tail) rest) (of_bytes tail rest) (length xs) 0 (length ys)
      (λ i lt. ground (arith, of_bytes_skip xs tail rest i, total))
    ∙ sym (take-slice (of_bytes tail rest) 0 (length ys) (length tail) (omega (arith, total)))
    ∙ ap (take (length ys)) (slice-of_bytes tail rest)
    ∙ take-append ys zs

-- The byte before a byte string, and the string.
pub byte_between :
    (xs : List ℕ) (y : ℕ) (ys : List ℕ) (rest : Mem) (p : ℕ)
    → p ≡ length xs
    → of_bytes (xs ++ y ∷ ys) rest p ≡ y
byte_between xs y ys rest p at = rw at (ground (arith, of_bytes_skip xs (y ∷ ys) rest 0))

pub slice_last :
    (xs : List ℕ) (y : ℕ) (ys : List ℕ) (rest : Mem) (p : ℕ)
    → p ≡ suc (length xs)
    → slice (of_bytes (xs ++ y ∷ ys) rest) p (length ys) ≡ ys
slice_last xs y ys rest p at =
    slice_ext (of_bytes (xs ++ y ∷ ys) rest) (of_bytes ys rest) p 0 (length ys)
      (λ i lt. ground (arith, of_bytes_skip xs (y ∷ ys) rest (suc i)))
    ∙ slice-of_bytes ys rest

pub htons-htons : (v : ℕ) → v < 65536 → htons (htons v) ≡ v
htons-htons v h = omega arith
