-- ===== src/Handler/Map.antt =====
-- `std::map<std::string, CacheObject *>`, as src/DataStreamHandler.cpp uses it: a list of entries in
-- the order of their keys.
pub mod Order
use libkolibre_xmlreader.Base.{
  ℕ, ◌+◌, ◌<◌, ◌≡◌, ◌≢◌, refl, sym, ap, ◌∙◌, ◌⊎◌, inl, inr, Bool, true, false, not, ◌&&◌, ◌||◌,
  Option, none, some, List, [], ◌∷◌, ◌++◌, ltb, ◌==◌, if◌then◌else◌, Bytes, bytes_eq, bytes_eq_refl,
  bytes_eq_sound, arith, Bool-cases,
}

abbrev pub Entry : Type 0
Entry = Bytes × ℕ

abbrev pub HttpCache : Type 0
HttpCache = List Entry

-- `<` of `std::string`.
unfoldable pub bytes_lt : Bytes → Bytes → Bool
bytes_lt s [] = false
bytes_lt [] (y ∷ ys) = true
bytes_lt (x ∷ xs) (y ∷ ys) = if x == y then bytes_lt xs ys else ltb x y

-- `find`, `insert` of a pair, which keeps an entry that is there, and `erase` of an entry.
unfoldable pub lookup : Bytes → HttpCache → Option ℕ
lookup k [] = none
lookup k ((j, a) ∷ m) = if bytes_eq j k then some a else lookup k m

unfoldable pub insert : Bytes → ℕ → HttpCache → HttpCache
unfolding bytes_lt
insert k a [] = (k, a) ∷ []
insert k a ((j, b) ∷ m) =
    if bytes_eq j k
    then (j, b) ∷ m
    else if bytes_lt k j
    then (k, a) ∷ (j, b) ∷ m
    else (j, b) ∷ insert k a m

unfoldable pub erase : Bytes → HttpCache → HttpCache
erase k [] = []
erase k ((j, a) ∷ m) = if bytes_eq j k then m else (j, a) ∷ erase k m
