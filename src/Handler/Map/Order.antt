-- ===== src/Handler/Map/Order.antt =====
-- The order of the keys in the map of src/DataStreamHandler.cpp, and the laws of its operations.
use libkolibre_xmlreader.Base.{
  ℕ, ◌≡◌, refl, ◌⊎◌, inl, inr, true, false, none, some, [], ◌∷◌, ◌++◌, ◌==◌, Bytes, bytes_eq,
  bytes_eq_refl, bytes_eq_sound, arith, Bool-cases,
}
use libkolibre_xmlreader.Handler.Map.{Entry, HttpCache, bytes_lt, lookup, insert, erase}

pub bytes_lt_irrefl : (s : Bytes) → bytes_lt s s ≡ false
unfolding bytes_lt
bytes_lt_irrefl [] = refl
bytes_lt_irrefl (x ∷ xs) = ground (arith, bytes_lt_irrefl xs)

pub bytes_lt_trans :
    (s t u : Bytes) → bytes_lt s t ≡ true → bytes_lt t u ≡ true → bytes_lt s u ≡ true
unfolding bytes_lt
bytes_lt_trans s [] u h k = cc
bytes_lt_trans s (y ∷ ys) [] h k = cc
bytes_lt_trans [] (y ∷ ys) (z ∷ zs) h k = refl
bytes_lt_trans (x ∷ xs) (y ∷ ys) (z ∷ zs) h k = ground (arith, bytes_lt_trans xs ys zs)

pub bytes_lt_total :
    (s t : Bytes) → bytes_eq t s ≡ false → bytes_lt s t ≡ false → bytes_lt t s ≡ true
unfolding bytes_lt
bytes_lt_total [] [] e h = cc
bytes_lt_total [] (y ∷ ys) e h = cc
bytes_lt_total (x ∷ xs) [] e h = refl
bytes_lt_total (x ∷ xs) (y ∷ ys) e h = ground (arith, bytes_lt_total xs ys)

bytes_lt-eq : (s t : Bytes) → bytes_lt s t ≡ true → bytes_eq t s ≡ false
bytes_lt-eq s t h = elim (Bool-cases (bytes_eq t s)) [
  | inr e ↦ e
  | inl e ↦ cc (rw (bytes_eq_sound t s e) at h, bytes_lt_irrefl s)
]

-- Every key of the map is behind `k`, and the keys rise.
abbrev pub Above : Bytes → HttpCache → Type 0
Above k [] = Unit {0}
Above k ((j, a) ∷ m) = (bytes_lt k j ≡ true) × Above k m

abbrev pub IsSorted : HttpCache → Type 0
IsSorted [] = Unit {0}
IsSorted ((k, a) ∷ m) = Above k m × IsSorted m

Above-trans : (i k : Bytes) (m : HttpCache) → bytes_lt i k ≡ true → Above k m → Above i m
Above-trans i k [] h u = tt
Above-trans i k ((j, a) ∷ m) h u = (bytes_lt_trans i k j h u.0, Above-trans i k m h u.1)

Above-lookup : (k : Bytes) (m : HttpCache) → Above k m → lookup k m ≡ none
unfolding lookup
Above-lookup k [] u = refl
Above-lookup k ((j, a) ∷ m) u = ground (arith, bytes_lt-eq k j u.0, Above-lookup k m u.1)

Above-insert :
    (i k : Bytes) (a : ℕ) (m : HttpCache) → bytes_lt i k ≡ true → Above i m → Above i (insert k a m)
unfolding insert
Above-insert i k a [] h u = (h, tt)
Above-insert i k a ((j, b) ∷ m) h u = ground (arith, Above-insert i k a m h u.1)

Above-erase : (i k : Bytes) (m : HttpCache) → Above i m → Above i (erase k m)
unfolding erase
Above-erase i k [] u = tt
Above-erase i k ((j, b) ∷ m) u = ground (arith, Above-erase i k m u.1)

pub insert-IsSorted : (k : Bytes) (a : ℕ) (m : HttpCache) → IsSorted m → IsSorted (insert k a m)
unfolding insert
insert-IsSorted k a [] s = (tt, tt)
insert-IsSorted k a ((j, b) ∷ m) s =
    ground (
      arith,
      bytes_lt_total k j,
      Above-trans k j m,
      Above-insert j k a m,
      insert-IsSorted k a m s.1,
    )

pub erase-IsSorted : (k : Bytes) (m : HttpCache) → IsSorted m → IsSorted (erase k m)
unfolding erase
erase-IsSorted k [] s = tt
erase-IsSorted k ((j, b) ∷ m) s = ground (arith, Above-erase j k m s.0, erase-IsSorted k m s.1)

pub lookup-erase : (k : Bytes) (m : HttpCache) → IsSorted m → lookup k (erase k m) ≡ none
unfolding lookup erase
lookup-erase k [] s = refl
lookup-erase k ((j, b) ∷ m) s = elim (Bool-cases (bytes_eq j k)) [
  | inl e ↦
      rw (e, erase) (let p : Above k m = rw (bytes_eq_sound j k e) at s.0 in Above-lookup k m p)
  | inr e ↦ rw (e, erase) (rw (e, lookup) (lookup-erase k m s.1))
]

pub lookup-insert :
    (k : Bytes) (a : ℕ) (m : HttpCache)
    → (lookup k m ≡ none) ⊎ (lookup k m ≡ some a)
    → lookup k (insert k a m) ≡ some a
unfolding lookup insert
lookup-insert k a [] h = ground (arith, bytes_eq_refl k)
lookup-insert k a ((j, b) ∷ m) h = ground (arith, bytes_eq_refl k, lookup-insert k a m)

-- An entry for another object can be taken out.
pub lookup-remove :
    (k : Bytes) (item : ℕ) (front : HttpCache) (j : Bytes) (a : ℕ) (back : HttpCache)
    → (a == item) ≡ false
    → lookup k (front ++ (j, a) ∷ back) ≡ some item
    → lookup k (front ++ back) ≡ some item
unfolding lookup
lookup-remove k item [] j a back h e = ground arith
lookup-remove k item ((i, b) ∷ front) j a back h e =
    ground (arith, lookup-remove k item front j a back h)

Above-remove :
    (k : Bytes) (front : HttpCache) (e : Entry) (back : HttpCache)
    → Above k (front ++ e ∷ back)
    → Above k (front ++ back)
Above-remove k [] e back u = u.1
Above-remove k (x ∷ front) e back u = (u.0, Above-remove k front e back u.1)

pub remove-IsSorted :
    (front : HttpCache) (e : Entry) (back : HttpCache)
    → IsSorted (front ++ e ∷ back)
    → IsSorted (front ++ back)
remove-IsSorted [] e back s = s.1
remove-IsSorted (x ∷ front) e back s =
    (Above-remove x.0 front e back s.0, remove-IsSorted front e back s.1)
