-- ===== src/Base/Text.antt =====
-- Byte strings (`std::string`, `char *` with its length): the searches and cuts of the C++ library
-- that the sources use.
use Prim.Native.Char.{code}
use Prim.Native.Nat.{ℕ, zero, suc, ◌+◌}
use Prim.Native.String.{String}
use mathlib.Core.Bool.{Bool, true, false, ◌&&◌, ◌||◌}
use mathlib.Core.List.{List, [], ◌∷◌, ◌++◌}
use mathlib.Core.Option
use mathlib.Core.Option.{Option, none, some}
use mathlib.Core.Path.{◌≡◌, refl}
use native.Mathlib.Omega.{arith}
use libkolibre_xmlreader.Base.Tests.{◌==◌, if◌then◌else◌}
use libkolibre_xmlreader.Base.Lists.{length, take, drop}

abbrev pub Bytes : Type 0
Bytes = List ℕ

-- The code points of a literal: its bytes, since every literal here is ASCII.
abbrev pub codes : String → Bytes
codes String.[] = []
codes (String.◌∷◌ c s) = code c ∷ codes s

-- `a == b` of `std::string`.
abbrev pub bytes_eq : Bytes → Bytes → Bool
bytes_eq [] [] = true
bytes_eq [] (y ∷ ys) = false
bytes_eq (x ∷ xs) [] = false
bytes_eq (x ∷ xs) (y ∷ ys) = x == y && bytes_eq xs ys

-- `memcmp (s, p, length p) == 0`, where `s` has that many bytes; false where it is shorter.
abbrev pub starts_with : Bytes → Bytes → Bool
starts_with [] s = true
starts_with (p ∷ ps) [] = false
starts_with (p ∷ ps) (x ∷ xs) = x == p && starts_with ps xs

abbrev pub contains_byte : ℕ → Bytes → Bool
contains_byte c [] = false
contains_byte c (x ∷ xs) = x == c || contains_byte c xs

-- `s.find (p)`; `none` stands for `npos`.
abbrev pub find : Bytes → Bytes → Option ℕ
find p [] = if starts_with p [] then some 0 else none
find p (x ∷ xs) = if starts_with p (x ∷ xs) then some 0 else Option.map suc (find p xs)

-- `s.find (p, pos)`.
abbrev pub find_from : Bytes → ℕ → Bytes → Option ℕ
find_from p pos s = Option.map (λ i. pos + i) (find p (drop pos s))

-- `s.find_first_of (set)` and `s.find_first_of (set, pos)`.
abbrev pub find_first_of : Bytes → Bytes → Option ℕ
find_first_of set [] = none
find_first_of set (x ∷ xs) =
    if contains_byte x set then some 0 else Option.map suc (find_first_of set xs)

abbrev pub find_first_of_from : Bytes → ℕ → Bytes → Option ℕ
find_first_of_from set pos s = Option.map (λ i. pos + i) (find_first_of set (drop pos s))

-- `s.substr (pos, len)`, for a position inside the string.
abbrev pub substr : ℕ → ℕ → Bytes → Bytes
substr pos len s = take len (drop pos s)

-- What a `char *` shows of a block of bytes: all up to the first NUL.
abbrev pub c_str : Bytes → Bytes
c_str [] = []
c_str (zero ∷ xs) = []
c_str (suc c ∷ xs) = suc c ∷ c_str xs

pub bytes_eq_refl : (s : Bytes) → bytes_eq s s ≡ true
bytes_eq_refl [] = refl
bytes_eq_refl (x ∷ xs) = ground (arith, bytes_eq_refl xs)

pub bytes_eq_sound : (s t : Bytes) → bytes_eq s t ≡ true → s ≡ t
bytes_eq_sound [] [] h = refl
bytes_eq_sound [] (y ∷ ys) h = cc
bytes_eq_sound (x ∷ xs) [] h = cc
bytes_eq_sound (x ∷ xs) (y ∷ ys) h = ground (arith, bytes_eq_sound xs ys)

-- A byte that does not stand in the front is found behind it.
pub find-append :
    (c : ℕ) (xs ys : Bytes)
    → contains_byte c xs ≡ false
    → find (c ∷ []) (xs ++ c ∷ ys) ≡ some (length xs)
find-append c [] ys h = ground arith
find-append c (x ∷ xs) ys h = ground (arith, find-append c xs ys)

pub find-none : (c : ℕ) (xs : Bytes) → contains_byte c xs ≡ false → find (c ∷ []) xs ≡ none
find-none c [] h = refl
find-none c (x ∷ xs) h = ground (arith, find-none c xs)

-- So is a text that begins with such a byte.
pub find_text-append :
    (c : ℕ) (p xs ys : Bytes)
    → contains_byte c xs ≡ false
    → starts_with (c ∷ p) ys ≡ true
    → find (c ∷ p) (xs ++ ys) ≡ some (length xs)
find_text-append c p [] [] h s = absurd (cc)
find_text-append c p [] (y ∷ ys) h s = rw s
find_text-append c p (x ∷ xs) ys h s = ground (arith, find_text-append c p xs ys)

pub find_first_of-append :
    (set xs : Bytes) (c : ℕ) (ys : Bytes)
    → find_first_of set xs ≡ none
    → contains_byte c set ≡ true
    → find_first_of set (xs ++ c ∷ ys) ≡ some (length xs)
find_first_of-append set [] c ys h e = rw e
find_first_of-append set (x ∷ xs) c ys h e = ground (arith, find_first_of-append set xs c ys)

pub contains_byte-append :
    (c : ℕ) (xs ys : Bytes)
    → contains_byte c (xs ++ ys) ≡ (contains_byte c xs || contains_byte c ys)
contains_byte-append c [] ys = refl
contains_byte-append c (x ∷ xs) ys = ground (arith, contains_byte-append c xs ys)

-- Text with no NUL is read whole.
pub c_str-whole : (s : Bytes) → contains_byte 0 s ≡ false → c_str s ≡ s
c_str-whole [] h = refl
c_str-whole (zero ∷ xs) h = cc
c_str-whole (suc c ∷ xs) h = ground (arith, c_str-whole xs)
