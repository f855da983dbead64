-- ===== src/Handler/Answers.antt =====
-- addCacheObject and getCacheObject of src/DataStreamHandler.cpp together: what the map holds
-- after a document was added, and what is found.
use libkolibre_xmlreader.Base.{
  ℕ, ◌<◌, ◌≡◌, refl, ap, ◌∙◌, ◌⊎◌, inl, inr, true, false, not, ◌&&◌, none, some, [], ◌∷◌, ◌++◌, ltb,
  ◌==◌, if◌then◌else◌, Bytes, arith,
}
use libkolibre_xmlreader.Base.Outcome.{Outcome, done, fault, ◌>>=◌}
use libkolibre_xmlreader.Cache.Object.{CacheObject, get_state, sub64}
use libkolibre_xmlreader.Handler.{
  Heap, DataStreamHandler, Eviction, removed, delete, is_busy, cache_size, visit, retreat, evict,
  arrive, shrink, insert_object, add_cache_object, get_at, get_cache_object, max_cache_size,
}
use libkolibre_xmlreader.Handler.Evict.{Shrinks, kept_all, deleted_one}
use libkolibre_xmlreader.Handler.Map.{Entry, HttpCache, lookup}
use libkolibre_xmlreader.Handler.Map.Order.{lookup-insert, lookup-erase, lookup-remove}
use libkolibre_xmlreader.Handler.Objects.{removed-AllLive}
use libkolibre_xmlreader.Handler.Invariant.{
  IsOwned, IsNew, added, replaced, refused, add_cache_object-Adds, insert_object-IsOwned,
  insert_object-Shrinks, insert-IsOwned, without_entry, without_entry-IsNew, replaced-IsOwned,
  at-live, delete-live,
}

module _ {Z : Type 0} where
  -- In a map whose entries point to documents that are there, each to its own, a new document can be
  -- added: when addCacheObject returns, the keys still rise, and the entries still point to
  -- documents that are there, each to its own.
  pub add_cache_object-IsOwned :
      (url : Bytes) (item : ℕ) (h h' : DataStreamHandler Z)
      → IsOwned h.http_cache h.heap
      → IsNew item h
      → add_cache_object url item h ≡ done h'
      → IsOwned h'.http_cache h'.heap
  add_cache_object-IsOwned url item h h' v n e = elim (add_cache_object-Adds url item h h' n e) [
    | added absent w ↦ insert_object-IsOwned url item h h' v n w
    | replaced a found ne w ↦
        insert_object-IsOwned url item (without_entry url a h) h'
          (replaced-IsOwned url a h.http_cache h.heap v found)
          (without_entry-IsNew url a item h ne n) w
    | refused a o found live used w ↦ rw (w) (record {
      sorted = v.sorted;
      live = removed-AllLive h.heap item h.http_cache n.1 v.live;
      distinct = v.distinct;
    })
  ]

  Shrinks-lookup :
      {item : ℕ} {cache : HttpCache} {heap : Heap Z} {size : ℕ} {cache' : HttpCache}
      {heap' : Heap Z} (url : Bytes)
      → Shrinks item cache heap size cache' heap'
      → lookup url cache ≡ some item
      → (lookup url cache' ≡ some item) × (heap' item ≡ heap item)
  Shrinks-lookup url (kept_all ec eh l) f = (ap (lookup url) ec ∙ f, rw (eh) refl)
  Shrinks-lookup {item = i} {heap = h} url (deleted_one front k a back o ec ec' ne l b eh s) f =
      (rw (ec') (lookup-remove url i front k a back ne (rw ec at f)), rw (eh) (ground (arith, ne)))

  get-lookup :
      (url : Bytes) (item : ℕ) (o : CacheObject Z) (h : DataStreamHandler Z)
      → (lookup url h.http_cache ≡ some item) × (h.heap item ≡ some o)
      → get_cache_object url h ≡ done (if is_busy (get_state o) then none else some item)
  unfolding get_cache_object get_at
  get-lookup url item o h (f, l) = rw (f) (
      ap
        (λ (x : Outcome (CacheObject Z)).
          x >>= λ o. done (if is_busy (get_state o) then none else some item))
        (at-live h.heap item o l))

  insert_object-get :
      (url : Bytes) (item : ℕ) (o : CacheObject Z) (h h' : DataStreamHandler Z)
      → IsOwned h.http_cache h.heap
      → IsNew item h
      → h.heap item ≡ some o
      → lookup url h.http_cache ≡ none
      → insert_object url item h ≡ done h'
      → get_cache_object url h' ≡ done (if is_busy (get_state o) then none else some item)
  insert_object-get url item o h h' v n l absent e =
      let w = insert-IsOwned url item h.http_cache h.heap v n.0 n.1 in
      let (_, _, s) = insert_object-Shrinks url item h h' w.live e in
      let (f, k) = Shrinks-lookup url s (lookup-insert url item h.http_cache (inl absent)) in
      get-lookup url item o h' (f, k ∙ l)

  -- After a new document was added for a URL whose entry, if there was one, is not in use,
  -- getCacheObject answers with the new document, or with NULL where that is itself in use. The
  -- conditions are that the map was sound, that the new document is there and in no entry, and that
  -- addCacheObject returns.
  pub get_cache_object-add_cache_object :
      (url : Bytes) (item : ℕ) (o : CacheObject Z) (h h' : DataStreamHandler Z)
      → IsOwned h.http_cache h.heap
      → IsNew item h
      → h.heap item ≡ some o
      → ((a : ℕ) (p : CacheObject Z)
          → lookup url h.http_cache ≡ some a
          → h.heap a ≡ some p
          → is_busy (get_state p) ≡ false)
      → add_cache_object url item h ≡ done h'
      → get_cache_object url h' ≡ done (if is_busy (get_state o) then none else some item)
  get_cache_object-add_cache_object url item o h h' v n l idle e =
      elim (add_cache_object-Adds url item h h' n e) [
        | added absent w ↦ insert_object-get url item o h h' v n l absent w
        | replaced a found ne w ↦
            insert_object-get url item o (without_entry url a h) h'
              (replaced-IsOwned url a h.http_cache h.heap v found)
              (without_entry-IsNew url a item h ne n) (ground (arith, ne, l))
              (lookup-erase url h.http_cache v.sorted) w
        | refused a p found live used w ↦ cc (idle a p found live, used)
      ]

module _ {Z : Type 0} (item : ℕ) (k : Bytes) (a : ℕ) (o : CacheObject Z) (heap : Heap Z)
    (size : ℕ) where
  abbrev start : Eviction Z
  start = record { size = size; kept = []; heap = heap; erased = false }

  abbrev gone : Eviction Z
  gone = record { size = sub64 size o.buffer_size; kept = []; heap = removed heap a; erased = true }

  evict_last :
      (a == item) ≡ false
      → heap a ≡ some o
      → is_busy (get_state o) ≡ false
      → ltb max_cache_size size ≡ true
      → evict item ((k, a) ∷ []) start ≡ done gone
  unfolding evict retreat visit
  evict_last ne l b big =
      ap (λ t. if t then visit item (k, a) start else done (record start { kept = (k, a) ∷ [] }))
        big
      ∙ ap (λ (x : Outcome (CacheObject Z)). x >>= leave) (at-live heap a o l)
      ∙ rw (ne, b) (ap (λ (x : Outcome (Heap Z)). x >>= forget) (delete-live heap a o l))
    where
      forget : Heap Z → Outcome (Eviction Z)
      forget heap' =
          done (record { size = sub64 size o.buffer_size; kept = []; heap = heap'; erased = true })

      leave : CacheObject Z → Outcome (Eviction Z)
      leave o' =
          if not (a == item) && not (is_busy (get_state o'))
          then (delete heap a >>= λ heap'.
              done (record {
                size = sub64 size o'.buffer_size;
                kept = [];
                heap = heap';
                erased = true;
              }))
          else done (record start { kept = (k, a) ∷ []; erased = false })

  evict_over :
      (front : HttpCache)
      → evict item ((k, a) ∷ []) start ≡ done gone
      → ltb max_cache_size (sub64 size o.buffer_size) ≡ true
      → (evict item (front ++ (k, a) ∷ []) start ≡ done gone)
        ⊎ (evict item (front ++ (k, a) ∷ []) start ≡ fault)
  unfolding evict retreat
  evict_over [] e big = inl e
  evict_over (x0 ∷ front) e big = elim (evict_over front e big) [
    | inl q ↦
        inr (ap (λ (x : Outcome (Eviction Z)). x >>= retreat item x0) q ∙ rw (big, retreat) refl)
    | inr q ↦ inr (ap (λ (x : Outcome (Eviction Z)). x >>= retreat item x0) q)
  ]

  -- At most one document goes: when the last document of the map is evicted, at an entry that is not
  -- the first, and the documents that are left still take more than the maximum, the loop of
  -- checkCacheSize moves the iterator of the erased entry, which has no defined behaviour.
  pub shrink_erased :
      (entry : Entry) (front : HttpCache)
      → cache_size heap (entry ∷ front ++ (k, a) ∷ []) ≡ done size
      → (a == item) ≡ false
      → heap a ≡ some o
      → is_busy (get_state o) ≡ false
      → max_cache_size < size
      → max_cache_size < sub64 size o.buffer_size
      → shrink item (entry ∷ front ++ (k, a) ∷ []) heap ≡ fault
  unfolding shrink arrive
  shrink_erased entry front n ne l b over still =
      let big : ltb max_cache_size (sub64 size o.buffer_size) ≡ true = ground arith in
      ap (λ (x : Outcome ℕ). x >>= evicting) n
      ∙ elim (evict_over front (evict_last ne l b (ground arith)) big) [
        | inl q ↦ ap (λ (x : Outcome (Eviction Z)). x >>= arrive entry) q ∙ rw (big, arrive) refl
        | inr q ↦ ap (λ (x : Outcome (Eviction Z)). x >>= arrive entry) q
      ]
    where
      evicting : ℕ → Outcome (HttpCache × Heap Z)
      evicting n =
          evict item (front ++ (k, a) ∷ [])
            (record { size = n; kept = []; heap = heap; erased = false })
          >>= arrive entry
