-- ===== src/Handler/Objects.antt =====
-- The documents that the map of src/DataStreamHandler.cpp points to: each is there, and no two
-- entries share one.
use libkolibre_xmlreader.Base.{
  ℕ, ◌≡◌, inl, inr, false, some, [], ◌∷◌, ◌++◌, ◌==◌, Bytes, bytes_eq, arith, Bool-cases,
}
use libkolibre_xmlreader.Cache.Object.{CacheObject}
use libkolibre_xmlreader.Handler.{Heap, removed}
use libkolibre_xmlreader.Handler.Map.{Entry, HttpCache, bytes_lt, lookup, insert, erase}

abbrev pub IsLive : {Z : Type 0} → Heap Z → ℕ → Type 0
IsLive {Z} heap a = (o : CacheObject Z) × (heap a ≡ some o)

abbrev pub AllLive : {Z : Type 0} → Heap Z → HttpCache → Type 0
AllLive heap [] = Unit {0}
AllLive heap ((k, a) ∷ m) = IsLive heap a × AllLive heap m

-- No entry points to `a`.
abbrev pub Unused : ℕ → HttpCache → Type 0
Unused a [] = Unit {0}
Unused a ((k, b) ∷ m) = ((a == b) ≡ false) × Unused a m

abbrev pub AreDistinct : HttpCache → Type 0
AreDistinct [] = Unit {0}
AreDistinct ((k, a) ∷ m) = Unused a m × AreDistinct m

pub Unused-insert :
    (a : ℕ) (k : Bytes) (b : ℕ) (m : HttpCache)
    → (a == b) ≡ false
    → Unused a m
    → Unused a (insert k b m)
unfolding insert
Unused-insert a k b [] e u = (e, tt)
Unused-insert a k b ((j, c) ∷ m) e u = ground (arith, Unused-insert a k b m e u.1)

pub Unused-erase : (a : ℕ) (k : Bytes) (m : HttpCache) → Unused a m → Unused a (erase k m)
unfolding erase
Unused-erase a k [] u = tt
Unused-erase a k ((j, c) ∷ m) u = ground (arith, Unused-erase a k m u.1)

pub sym_ne : (a b : ℕ) → (a == b) ≡ false → (b == a) ≡ false
sym_ne a b h = ground arith

pub insert-AreDistinct :
    (k : Bytes) (a : ℕ) (m : HttpCache) → Unused a m → AreDistinct m → AreDistinct (insert k a m)
unfolding insert
insert-AreDistinct k a [] u d = (tt, tt)
insert-AreDistinct k a ((j, b) ∷ m) u d =
    ground (arith, sym_ne a b, Unused-insert b k a m, insert-AreDistinct k a m u.1 d.1)

pub erase-AreDistinct : (k : Bytes) (m : HttpCache) → AreDistinct m → AreDistinct (erase k m)
unfolding erase
erase-AreDistinct k [] d = tt
erase-AreDistinct k ((j, b) ∷ m) d =
    ground (arith, Unused-erase b k m d.0, erase-AreDistinct k m d.1)

pub Unused-lookup :
    (b : ℕ) (k : Bytes) (a : ℕ) (m : HttpCache)
    → Unused b m
    → lookup k m ≡ some a
    → (b == a) ≡ false
unfolding lookup
Unused-lookup b k a [] u e = cc
Unused-lookup b k a ((j, c) ∷ m) u e = ground (arith, Unused-lookup b k a m u.1)

-- The entry that was found is the only one for its document.
pub Unused-erase_found :
    (k : Bytes) (a : ℕ) (m : HttpCache) → lookup k m ≡ some a → AreDistinct m → Unused a (erase k m)
unfolding lookup erase
Unused-erase_found k a [] e d = tt
Unused-erase_found k a ((j, b) ∷ m) e d = elim (Bool-cases (bytes_eq j k)) [
  | inl hit ↦ rw (hit, erase) (let same : b ≡ a = ground arith in rw same at d.0)
  | inr miss ↦
      rw (miss, erase)
        (
          sym_ne b a (Unused-lookup b k a m d.0 (rw (miss, lookup) at e)),
          Unused-erase_found k a m (rw (miss, lookup) at e) d.1,
        )
]

module _ {Z : Type 0} where
  pub insert-AllLive :
      (heap : Heap Z) (k : Bytes) (a : ℕ) (m : HttpCache)
      → IsLive heap a
      → AllLive heap m
      → AllLive heap (insert k a m)
  unfolding insert
  insert-AllLive heap k a [] v l = (v, tt)
  insert-AllLive heap k a ((j, b) ∷ m) v l = elim (Bool-cases (bytes_eq j k)) [
    | inl hit ↦ rw (hit, insert) l
    | inr miss ↦
        rw (miss, insert)
          (elim (Bool-cases (bytes_lt k j)) [
            | inl before ↦ rw (before, insert) (v, l)
            | inr behind ↦ rw (behind, insert) (l.0, insert-AllLive heap k a m v l.1)
          ])
  ]

  pub erase-AllLive :
      (heap : Heap Z) (k : Bytes) (m : HttpCache) → AllLive heap m → AllLive heap (erase k m)
  unfolding erase
  erase-AllLive heap k [] l = tt
  erase-AllLive heap k ((j, b) ∷ m) l = elim (Bool-cases (bytes_eq j k)) [
    | inl hit ↦ rw (hit, erase) l.1
    | inr miss ↦ rw (miss, erase) (l.0, erase-AllLive heap k m l.1)
  ]

  pub removed-AllLive :
      (heap : Heap Z) (a : ℕ) (m : HttpCache)
      → Unused a m
      → AllLive heap m
      → AllLive (removed heap a) m
  removed-AllLive heap a [] u l = tt
  removed-AllLive heap a ((k, b) ∷ m) u l =
      ((l.0.0, rw u.0 l.0.1), removed-AllLive heap a m u.1 l.1)

  pub remove-AllLive :
      (heap : Heap Z) (front : HttpCache) (e : Entry) (back : HttpCache)
      → AllLive heap (front ++ e ∷ back)
      → AllLive heap (front ++ back)
  remove-AllLive heap [] e back l = l.1
  remove-AllLive heap (x ∷ front) e back l = (l.0, remove-AllLive heap front e back l.1)

Unused-remove :
    (a : ℕ) (front : HttpCache) (e : Entry) (back : HttpCache)
    → Unused a (front ++ e ∷ back)
    → Unused a (front ++ back)
Unused-remove a [] e back u = u.1
Unused-remove a (x ∷ front) e back u = (u.0, Unused-remove a front e back u.1)

Unused-middle :
    (b : ℕ) (front : HttpCache) (k : Bytes) (a : ℕ) (back : HttpCache)
    → Unused b (front ++ (k, a) ∷ back)
    → (b == a) ≡ false
Unused-middle b [] k a back u = u.0
Unused-middle b (x ∷ front) k a back u = Unused-middle b front k a back u.1

-- With one entry taken out, nothing points to its document.
pub remove-AreDistinct :
    (front : HttpCache) (k : Bytes) (a : ℕ) (back : HttpCache)
    → AreDistinct (front ++ (k, a) ∷ back)
    → AreDistinct (front ++ back) × Unused a (front ++ back)
remove-AreDistinct [] k a back d = (d.1, d.0)
remove-AreDistinct ((j, b) ∷ front) k a back d =
    let (p, q) = remove-AreDistinct front k a back d.1 in
    (
      (Unused-remove b front (k, a) back d.0, p),
      (sym_ne b a (Unused-middle b front k a back d.0), q),
    )
