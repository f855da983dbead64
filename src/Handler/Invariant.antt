-- ===== src/Handler/Invariant.antt =====
-- The invariant of the map of cached documents in src/DataStreamHandler.cpp.
use libkolibre_xmlreader.Base.{
  ℕ, ◌+◌, ◌≡◌, refl, sym, subst, ap, ◌∙◌, inl, inr, true, false, none, some, [], ◌∷◌, ◌++◌, ◌==◌,
  if◌then◌else◌, Bytes, arith, Bool-cases, Option-cases,
}
use libkolibre_xmlreader.Base.Outcome.{Outcome, done, fault, ◌>>=◌, bind-eq-done}
use libkolibre_xmlreader.Cache.Object.{CacheObject, get_state}
use libkolibre_xmlreader.Handler.{
  Heap, DataStreamHandler, at, removed, delete, is_busy, cache_size, shrink, check_cache_size,
  insert_object, add_at, add_cache_object,
}
use libkolibre_xmlreader.Handler.Evict.{Shrinks, kept_all, deleted_one, shrink-Shrinks}
use libkolibre_xmlreader.Handler.Map.{HttpCache, lookup, insert, erase}
use libkolibre_xmlreader.Handler.Map.Order.{
  IsSorted, insert-IsSorted, erase-IsSorted, remove-IsSorted,
}
use libkolibre_xmlreader.Handler.Objects.{
  Unused-lookup, sym_ne, IsLive, AllLive, Unused, AreDistinct, insert-AreDistinct,
  erase-AreDistinct, Unused-erase, Unused-erase_found, insert-AllLive, erase-AllLive,
  removed-AllLive, remove-AllLive, remove-AreDistinct,
}

-- The keys rise, every entry points to a document that is there, and no two to the same one.
pub record IsOwned {Z : Type 0} (cache : HttpCache) (heap : Heap Z) : Type 0 where
  pub sorted : IsSorted cache
  pub live : AllLive heap cache
  pub distinct : AreDistinct cache

module _ {Z : Type 0} where
  -- Live documents can be measured.
  pub cache_size-done :
      (heap : Heap Z) (cache : HttpCache)
      → AllLive heap cache
      → (n : ℕ) × (cache_size heap cache ≡ done n)
  unfolding cache_size
  cache_size-done heap [] l = (0, refl)
  cache_size-done heap ((k, a) ∷ m) l =
      let (n, e) = cache_size-done heap m l.1 in
      (
        l.0.0.buffer_size + n,
        ap
              (λ x. elim x [ none ↦ fault | some o ↦ done o ] >>= λ o.
                cache_size heap m >>= λ i. done (o.buffer_size + i))
              l.0.1
            ∙ ap (λ x. x >>= λ i. done (l.0.0.buffer_size + i)) e,
      )

  pub Shrinks-IsOwned :
      {item : ℕ} {cache : HttpCache} {heap : Heap Z} {size : ℕ} {cache' : HttpCache}
      {heap' : Heap Z}
      → Shrinks item cache heap size cache' heap'
      → IsOwned cache heap
      → IsOwned cache' heap'
  Shrinks-IsOwned (kept_all ec eh l) v = rw (ec, eh) v
  Shrinks-IsOwned {heap = h} (deleted_one front k a back o ec ec' ne l f eh s) v =
      let d : AreDistinct (front ++ (k, a) ∷ back) = rw ec at v.distinct in
      let (d', u) = remove-AreDistinct front k a back d in
      rw (ec', eh)
        (record {
          sorted = remove-IsSorted front (k, a) back (rw ec at v.sorted);
          live =
              removed-AllLive h a (front ++ back) u
                (remove-AllLive h front (k, a) back (rw ec at v.live));
          distinct = d';
        })

  pub insert-IsOwned :
      (url : Bytes) (item : ℕ) (cache : HttpCache) (heap : Heap Z)
      → IsOwned cache heap
      → IsLive heap item
      → Unused item cache
      → IsOwned (insert url item cache) heap
  insert-IsOwned url item cache heap v l u = record {
    sorted = insert-IsSorted url item cache v.sorted;
    live = insert-AllLive heap url item cache l v.live;
    distinct = insert-AreDistinct url item cache u v.distinct;
  }

  pub replaced-IsOwned :
      (url : Bytes) (a : ℕ) (cache : HttpCache) (heap : Heap Z)
      → IsOwned cache heap
      → lookup url cache ≡ some a
      → IsOwned (erase url cache) (removed heap a)
  replaced-IsOwned url a cache heap v e = record {
    sorted = erase-IsSorted url cache v.sorted;
    live =
        removed-AllLive heap a (erase url cache) (Unused-erase_found url a cache e v.distinct)
          (erase-AllLive heap url cache v.live);
    distinct = erase-AreDistinct url cache v.distinct;
  }

  -- The new document: it is there, and the map has no entry for it.
  abbrev pub IsNew : ℕ → DataStreamHandler Z → Type 0
  IsNew item h = IsLive h.heap item × Unused item h.http_cache

  -- What the end of addCacheObject does to the map and the documents.
  pub insert_object-Shrinks :
      (url : Bytes) (item : ℕ) (h h' : DataStreamHandler Z)
      → AllLive h.heap (insert url item h.http_cache)
      → insert_object url item h ≡ done h'
      → (n : ℕ) × (cache_size h.heap (insert url item h.http_cache) ≡ done n)
        × Shrinks item (insert url item h.http_cache) h.heap n h'.http_cache h'.heap
  unfolding insert_object check_cache_size
  insert_object-Shrinks url item h h' l e =
      let (n, en) = cache_size-done h.heap (insert url item h.http_cache) l in
      let (r, er, e') = bind-eq-done (shrink item (insert url item h.http_cache) h.heap) _ e in
      let q : record h { http_cache = r.0; heap = r.1 } ≡ h' = cc in
      (
        n,
        en,
        subst
            (λ (x : DataStreamHandler Z).
              Shrinks item (insert url item h.http_cache) h.heap n x.http_cache x.heap)
            q (shrink-Shrinks item (insert url item h.http_cache) h.heap n r en er),
      )

  pub insert_object-IsOwned :
      (url : Bytes) (item : ℕ) (h h' : DataStreamHandler Z)
      → IsOwned h.http_cache h.heap
      → IsNew item h
      → insert_object url item h ≡ done h'
      → IsOwned h'.http_cache h'.heap
  insert_object-IsOwned url item h h' v (l, u) e =
      let w = insert-IsOwned url item h.http_cache h.heap v l u in
      let (n, en, s) = insert_object-Shrinks url item h h' w.live e in Shrinks-IsOwned s w

  -- The map after the entry for `url` was replaced.
  abbrev pub without_entry : Bytes → ℕ → DataStreamHandler Z → DataStreamHandler Z
  without_entry url a h = record h { heap = removed h.heap a; http_cache = erase url h.http_cache }

  pub without_entry-IsNew :
      (url : Bytes) (a item : ℕ) (h : DataStreamHandler Z)
      → (a == item) ≡ false
      → IsNew item h
      → IsNew item (without_entry url a h)
  without_entry-IsNew url a item h ne (l, u) =
      ((l.0, ground (arith, ne, l.1)), Unused-erase item url h.http_cache u)

  -- addCacheObject, where it returns: it inserts the new document, in a map and a heap in which
  -- the entry that it replaces is gone, or it deletes the new document.
  pub data Adds (url : Bytes) (item : ℕ) (h h' : DataStreamHandler Z) : Type 0 where
    added :
        (lookup url h.http_cache ≡ none) → insert_object url item h ≡ done h' → Adds url item h h'
    replaced :
        (a : ℕ)
        → (lookup url h.http_cache ≡ some a)
        → (a == item) ≡ false
        → insert_object url item (without_entry url a h) ≡ done h'
        → Adds url item h h'
    refused :
        (a : ℕ) (o : CacheObject Z)
        → (lookup url h.http_cache ≡ some a)
        → h.heap a ≡ some o
        → is_busy (get_state o) ≡ true
        → h' ≡ record h { heap = removed h.heap item }
        → Adds url item h h'

  -- The branches for an entry that is found, and is not for the new document itself.
  found_object : ℕ → Bytes → ℕ → DataStreamHandler Z → CacheObject Z → Outcome (DataStreamHandler Z)
  unfolding delete
  found_object a url item h o =
      if is_busy (get_state o)
      then (delete h.heap item >>= λ heap. done (record h { heap = heap }))
      else (delete h.heap a >>= λ heap.
          insert_object url item (record h { heap = heap; http_cache = erase url h.http_cache }))

  add_at-found :
      (url : Bytes) (a item : ℕ) (h : DataStreamHandler Z)
      → (a == item) ≡ false
      → add_at (some a) url item h ≡ (at h.heap a >>= found_object a url item h)
  unfolding add_at found_object
  add_at-found url a item h ne =
      ap (λ b. if b then insert_object url item h else (at h.heap a >>= found_object a url item h))
        ne

  pub at-live : (heap : Heap Z) (a : ℕ) (o : CacheObject Z) → heap a ≡ some o → at heap a ≡ done o
  at-live heap a o e = ap (λ x. elim x [ none ↦ fault | some o ↦ done o ]) e

  pub delete-live :
      (heap : Heap Z) (a : ℕ) (o : CacheObject Z)
      → heap a ≡ some o
      → delete heap a ≡ done (removed heap a)
  unfolding delete
  delete-live heap a o e =
      ap (λ (x : Outcome (CacheObject Z)). x >>= λ _. done (removed heap a)) (at-live heap a o e)

  found_object-busy :
      (url : Bytes) (a item : ℕ) (h : DataStreamHandler Z) (o : CacheObject Z)
      → IsLive h.heap item
      → is_busy (get_state o) ≡ true
      → found_object a url item h o ≡ done (record h { heap = removed h.heap item })
  unfolding found_object
  found_object-busy url a item h o l b = rw (b) (
      ap (λ (x : Outcome (Heap Z)). x >>= λ heap. done (record h { heap = heap }))
        (delete-live h.heap item l.0 l.1))

  found_object-free :
      (url : Bytes) (a item : ℕ) (h : DataStreamHandler Z) (o : CacheObject Z)
      → h.heap a ≡ some o
      → is_busy (get_state o) ≡ false
      → found_object a url item h o ≡ insert_object url item (without_entry url a h)
  unfolding found_object
  found_object-free url a item h o l b = rw (b) (
      ap
        (λ (x : Outcome (Heap Z)). x >>= λ heap.
          insert_object url item (record h { heap = heap; http_cache = erase url h.http_cache }))
        (delete-live h.heap a o l))

  add_at-Adds :
      (url : Bytes) (a item : ℕ) (h h' : DataStreamHandler Z)
      → lookup url h.http_cache ≡ some a
      → (a == item) ≡ false
      → add_at (some a) url item h ≡ done h'
      → IsLive h.heap item
      → Adds url item h h'
  add_at-Adds url a item h h' found ne e l =
      let (o, lo, eo) =
        bind-eq-done (at h.heap a) (found_object a url item h)
          (sym (add_at-found url a item h ne) ∙ e) in
      let live : h.heap a ≡ some o = ground (arith, lo) in
      elim (Bool-cases (is_busy (get_state o))) [
        | inl used ↦
            let q = sym (found_object-busy url a item h o l used) ∙ eo in
            refused a o found live used (cc)
        | inr free ↦ replaced a found ne (sym (found_object-free url a item h o live free) ∙ eo)
      ]

  pub add_cache_object-Adds :
      (url : Bytes) (item : ℕ) (h h' : DataStreamHandler Z)
      → IsNew item h
      → add_cache_object url item h ≡ done h'
      → Adds url item h h'
  unfolding add_cache_object add_at
  add_cache_object-Adds url item h h' (l, u) e = elim (Option-cases (lookup url h.http_cache)) [
    | inl absent ↦ added absent (rw (absent, add_at) at e)
    | inr (a, found) ↦
        add_at-Adds url a item h h' found
          (sym_ne item a (Unused-lookup item url a h.http_cache u found)) (rw (found) at e) l
  ]
