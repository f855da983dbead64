-- ===== src/Handler/Evict.antt =====
-- What checkCacheSize of src/DataStreamHandler.cpp evicts.
use native.Mathlib.Decide.{dec_lt}
use libkolibre_xmlreader.Base.{
  ℕ, ◌≤◌, ◌<◌, ◌≡◌, refl, sym, ap, ◌∙◌, ◌⊎◌, inl, inr, Bool, true, false, some, [], ◌∷◌, ◌++◌, ltb,
  ◌==◌, Bytes, arith, Bool-cases, Option-cases, ltb→lt,
}
use libkolibre_xmlreader.Base.Outcome.{Outcome, done, bind-eq-done}
use libkolibre_xmlreader.Cache.Object.{CacheObject, get_state, sub64}
use libkolibre_xmlreader.Handler.{
  Heap, removed, delete, is_busy, cache_size, Eviction, visit, retreat, evict, arrive, shrink,
  max_cache_size,
}
use libkolibre_xmlreader.Handler.Map.{Entry, HttpCache}

module _ {Z : Type 0} (item : ℕ) where
  -- An entry that is never evicted: the one that was just added, or one whose document is in use.
  abbrev pub IsPinned : Heap Z → ℕ → Type 0
  IsPinned heap a =
      ((a == item) ≡ true)
      ⊎ ((o : CacheObject Z) × (heap a ≡ some o) × (is_busy (get_state o) ≡ true))

  abbrev pub AllPinned : Heap Z → HttpCache → Type 0
  AllPinned heap [] = Unit {0}
  AllPinned heap ((k, a) ∷ m) = IsPinned heap a × AllPinned heap m

  abbrev untouched : HttpCache → Heap Z → ℕ → Eviction Z
  untouched m heap size = record { size = size; kept = m; heap = heap; erased = false }

  abbrev without : HttpCache → Heap Z → ℕ → ℕ → CacheObject Z → Bool → Eviction Z
  without m heap size a o erased = record {
    size = sub64 size o.buffer_size;
    kept = m;
    heap = removed heap a;
    erased = erased;
  }

  -- What the loop has done to the entries `m` of a heap, from a size on. Either nothing, and then the
  -- size was low enough or no entry could go; or it evicted one entry, another than the new one and
  -- not in use, and then the size is low enough or the iterator is not valid.
  pub data Evicts (m : HttpCache) (heap : Heap Z) (size : ℕ) (e : Eviction Z) : Type 0 where
    none_evicted :
        e ≡ untouched m heap size
        → (max_cache_size < size → AllPinned heap m)
        → Evicts m heap size e
    one_evicted :
        (front : HttpCache) (k : Bytes) (a : ℕ) (back : HttpCache) (o : CacheObject Z)
        (erased : Bool)
        → m ≡ front ++ (k, a) ∷ back
        → e ≡ without (front ++ back) heap size a o erased
        → (a == item) ≡ false
        → heap a ≡ some o
        → is_busy (get_state o) ≡ false
        → (sub64 size o.buffer_size ≤ max_cache_size) ⊎ (erased ≡ true)
        → Evicts m heap size e

  visit-Evicts :
      (k : Bytes) (a : ℕ) (m : HttpCache) (heap : Heap Z) (size : ℕ) (e : Eviction Z)
      → AllPinned heap m
      → visit item (k, a) (untouched m heap size) ≡ done e
      → Evicts ((k, a) ∷ m) heap size e
  unfolding visit delete
  visit-Evicts k a m heap size e p h = elim (Option-cases (heap a)) [
    | inl dead ↦ cc (rw (dead, visit) at h)
    | inr (o, live) ↦ elim (Bool-cases (a == item)) [
      | inl same ↦ none_evicted (ground arith) (λ _. (inl same, p))
      | inr other ↦ elim (Bool-cases (is_busy (get_state o))) [
        | inl used ↦ none_evicted (ground arith) (λ _. (inr (o, live, used), p))
        | inr free ↦ one_evicted [] k a m o true refl (ground arith) other live free (inr refl)
      ]
    ]
  ]

  retreat-untouched :
      (k : Bytes) (a : ℕ) (m : HttpCache) (heap : Heap Z) (size : ℕ) (e : Eviction Z)
      → (max_cache_size < size → AllPinned heap m)
      → retreat item (k, a) (untouched m heap size) ≡ done e
      → Evicts ((k, a) ∷ m) heap size e
  unfolding retreat
  retreat-untouched k a m heap size e p h = elim (Bool-cases (ltb max_cache_size size)) [
    | inl big ↦ visit-Evicts k a m heap size e (p (ltb→lt _ _ big)) (rw (big, retreat) at h)
    | inr small ↦
        let h' : done (untouched ((k, a) ∷ m) heap size) ≡ done e = rw (small, retreat) at h in
        none_evicted (cc) (λ b. absurd (ground arith))
  ]

  -- Behind an eviction the loop either is done, or cannot go on.
  retreat-without :
      (k : Bytes) (a : ℕ) (m : HttpCache) (heap : Heap Z) (size b : ℕ) (o : CacheObject Z)
      (erased : Bool) (e : Eviction Z)
      → (sub64 size o.buffer_size ≤ max_cache_size) ⊎ (erased ≡ true)
      → retreat item (k, a) (without m heap size b o erased) ≡ done e
      → (e ≡ without ((k, a) ∷ m) heap size b o erased)
        × (sub64 size o.buffer_size ≤ max_cache_size)
  unfolding retreat
  retreat-without k a m heap size b o erased e d h =
      elim (Bool-cases (ltb max_cache_size (sub64 size o.buffer_size))) [
        | inl big ↦ elim d [
          | inl le ↦ absurd (omega (arith, le, ltb→lt _ _ big))
          | inr er ↦ cc (rw (big, er, retreat) at h)
        ]
        | inr small ↦
            let h' : done (without ((k, a) ∷ m) heap size b o erased) ≡ done e =
              rw (small, retreat) at h in
            (cc, ground arith)
      ]

  retreat-Evicts :
      (k : Bytes) (a : ℕ) (m : HttpCache) (heap : Heap Z) (size : ℕ) (e e' : Eviction Z)
      → Evicts m heap size e
      → retreat item (k, a) e ≡ done e'
      → Evicts ((k, a) ∷ m) heap size e'
  retreat-Evicts k a m heap size e e' (none_evicted u p) h =
      retreat-untouched k a m heap size e' p (rw u at h)
  retreat-Evicts k a m heap size e e' (one_evicted front j b back o erased em ee ne l f d) h =
      let (q, small) = retreat-without k a (front ++ back) heap size b o erased e' d (rw ee at h) in
      one_evicted ((k, a) ∷ front) j b back o erased (ap (◌∷◌ (k, a)) em) q ne l f (inl small)

  evict-Evicts :
      (m : HttpCache) (heap : Heap Z) (size : ℕ) (e : Eviction Z)
      → evict item m (untouched [] heap size) ≡ done e
      → Evicts m heap size e
  unfolding evict
  evict-Evicts [] heap size e h = none_evicted (cc) (λ _. tt)
  evict-Evicts ((k, a) ∷ m) heap size e h =
      let (e1, h1, h2) =
        bind-eq-done (evict item m (untouched [] heap size)) (retreat item (k, a)) h in
      retreat-Evicts k a m heap size e1 e (evict-Evicts m heap size e1 h1) h2

  abbrev pub PinnedTail : Heap Z → HttpCache → Type 0
  PinnedTail heap [] = Unit {0}
  PinnedTail heap (entry ∷ rest) = AllPinned heap rest

  -- What checkCacheSize has done to a map whose documents take `size` bytes. Either nothing, and then
  -- the size was low enough or no entry but the first could go; or it deleted the document of one
  -- entry, another than the new one and not in use, and took the entry out, after which the size is
  -- low enough.
  pub data Shrinks (cache : HttpCache) (heap : Heap Z) (size : ℕ) (cache' : HttpCache)
      (heap' : Heap Z) : Type 0 where
    kept_all :
        cache' ≡ cache
        → heap' ≡ heap
        → (size ≤ max_cache_size) ⊎ PinnedTail heap cache
        → Shrinks cache heap size cache' heap'
    deleted_one :
        (front : HttpCache) (k : Bytes) (a : ℕ) (back : HttpCache) (o : CacheObject Z)
        → cache ≡ front ++ (k, a) ∷ back
        → cache' ≡ front ++ back
        → (a == item) ≡ false
        → heap a ≡ some o
        → is_busy (get_state o) ≡ false
        → heap' ≡ removed heap a
        → sub64 size o.buffer_size ≤ max_cache_size
        → Shrinks cache heap size cache' heap'

  arrive-untouched :
      (entry : Entry) (rest : HttpCache) (heap : Heap Z) (size : ℕ)
      → arrive entry (untouched rest heap size) ≡ done (entry ∷ rest, heap)
  unfolding arrive
  arrive-untouched entry rest heap size = elim (Bool-cases (ltb max_cache_size size)) [
    | inl big ↦ rw (big, arrive) refl
    | inr small ↦ rw (small, arrive) refl
  ]

  arrive-without :
      (entry : Entry) (m : HttpCache) (heap : Heap Z) (size a : ℕ) (o : CacheObject Z)
      (erased : Bool) (r : HttpCache × Heap Z)
      → (sub64 size o.buffer_size ≤ max_cache_size) ⊎ (erased ≡ true)
      → arrive entry (without m heap size a o erased) ≡ done r
      → (r ≡ (entry ∷ m, removed heap a)) × (sub64 size o.buffer_size ≤ max_cache_size)
  unfolding arrive
  arrive-without entry m heap size a o erased r d h =
      elim (Bool-cases (ltb max_cache_size (sub64 size o.buffer_size))) [
        | inl big ↦ elim d [
          | inl le ↦ absurd (omega (arith, le, ltb→lt _ _ big))
          | inr er ↦ cc (rw (big, er, arrive) at h)
        ]
        | inr small ↦
            let h' : ◌≡◌ {A = Outcome (HttpCache × Heap Z)} (done (entry ∷ m, removed heap a))
                (done r) =
              rw (small, arrive) at h in
            (cc, ground arith)
      ]

  arrive-Shrinks :
      (entry : Entry) (rest : HttpCache) (heap : Heap Z) (size : ℕ) (e : Eviction Z)
      (r : HttpCache × Heap Z)
      → Evicts rest heap size e
      → arrive entry e ≡ done r
      → Shrinks (entry ∷ rest) heap size r.0 r.1
  arrive-Shrinks entry rest heap size e r (none_evicted u p) h =
      let q : done (entry ∷ rest, heap) ≡ done r =
        sym (arrive-untouched entry rest heap size) ∙ (rw u at h) in
      let q' : r ≡ (entry ∷ rest, heap) = cc in
      kept_all (ap (λ (x : HttpCache × Heap Z). x.0) q') (ap (λ (x : HttpCache × Heap Z). x.1) q')
        (low_or_pinned p)
    where
      low_or_pinned :
          (max_cache_size < size → AllPinned heap rest)
          → (size ≤ max_cache_size) ⊎ AllPinned heap rest
      low_or_pinned f = elim (dec_lt max_cache_size size) [
        | yes big ↦ inr (f big)
        | no low ↦ inl (omega arith)
      ]
  arrive-Shrinks entry rest heap size e r (one_evicted front k a back o erased em ee ne l f d) h =
      let (q, small) = arrive-without entry (front ++ back) heap size a o erased r d (rw ee at h) in
      deleted_one (entry ∷ front) k a back o (ap (◌∷◌ entry) em)
        (ap (λ (x : HttpCache × Heap Z). x.0) q) ne l f (ap (λ (x : HttpCache × Heap Z). x.1) q)
        small

  -- Where checkCacheSize returns, for a map whose documents take `size` bytes in all, it has left map
  -- and documents as they were, and then the size was low enough, or no entry but the first could go;
  -- or it has deleted the document of one entry, another than the new document and not in use, and
  -- taken out the entry, and then the size is low enough.
  pub shrink-Shrinks :
      (cache : HttpCache) (heap : Heap Z) (size : ℕ) (r : HttpCache × Heap Z)
      → cache_size heap cache ≡ done size
      → shrink item cache heap ≡ done r
      → Shrinks cache heap size r.0 r.1
  unfolding shrink
  shrink-Shrinks [] heap size r n h =
      let q : r ≡ ([], heap) = cc in
      kept_all (ap (λ (x : HttpCache × Heap Z). x.0) q) (ap (λ (x : HttpCache × Heap Z). x.1) q)
        (inr tt)
  shrink-Shrinks (entry ∷ rest) heap size r n h =
      let (e, h1, h2) =
        bind-eq-done (evict item rest (untouched [] heap size)) (arrive entry) (rw n at h) in
      arrive-Shrinks entry rest heap size e r (evict-Evicts rest heap size e h1) h2
