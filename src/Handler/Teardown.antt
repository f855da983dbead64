-- ===== src/Handler/Teardown.antt =====
-- The one instance of src/DataStreamHandler.cpp: Instance, DestroyInstance, the constructor and the
-- destructor. The set-up of curl's multi and share handles is left out.
use libkolibre_xmlreader.Base.{
  ℕ, ◌≡◌, refl, ap, ◌∙◌, Bool, false, none, some, [], ◌∷◌, ◌==◌, ◌||◌, if◌then◌else◌, Bytes, arith,
}
use libkolibre_xmlreader.Base.Outcome.{Outcome, done, fault, ◌>>=◌}
use libkolibre_xmlreader.Handler.{Heap, DataStreamHandler, at, removed}
use libkolibre_xmlreader.Handler.Map.{HttpCache}
use libkolibre_xmlreader.Handler.Invariant.{IsOwned}
use libkolibre_xmlreader.Handler.Objects.{AllLive, AreDistinct, removed-AllLive}

-- pinstance, and what it points to.
pub data Instance (Z : Type 0) : Type 0 where
  null deleted : Instance Z
  present : DataStreamHandler Z → Instance Z

module _ {Z : Type 0} where
  -- The constructor; the text is the name and the version of the package.
  unfoldable pub new_handler : Bytes → Heap Z → DataStreamHandler Z
  new_handler name heap = record {
    http_cache = [];
    heap = heap;
    free_handles = [];
    multi = [];
    useragent = name;
    timeout = 30;
    debugmode = false;
  }

  -- Instance; the result is the pointer, which is used at once.
  unfoldable pub get_instance : Bytes → Heap Z → Instance Z → Outcome (DataStreamHandler Z)
  unfolding new_handler
  get_instance name heap null = done (new_handler name heap)
  get_instance name heap deleted = fault
  get_instance name heap (present h) = done h

  -- The loop of the destructor over the map: each document is looked at and deleted.
  unfoldable pub delete_documents : HttpCache → Heap Z → Outcome (Heap Z)
  delete_documents [] heap = done heap
  delete_documents ((url, a) ∷ rest) heap =
      at heap a >>= λ o. delete_documents rest (removed heap a)

  -- The destructor, as far as it concerns the heap.
  unfoldable pub destroy_handler : DataStreamHandler Z → Outcome (Heap Z)
  unfolding delete_documents
  destroy_handler h = delete_documents h.http_cache h.heap

  -- DestroyInstance: `delete pinstance`, which is not set to NULL.
  unfoldable pub destroy_instance : Instance Z → Outcome (Instance Z)
  unfolding destroy_handler
  destroy_instance null = done null
  destroy_instance deleted = fault
  destroy_instance (present h) = destroy_handler h >>= λ heap. done deleted

-- Whether an entry of the map points there.
abbrev pub points : HttpCache → ℕ → Bool
points [] b = false
points ((url, a) ∷ rest) b = a == b || points rest b

module _ {Z : Type 0} where
  delete_documents-done :
      (cache : HttpCache) (heap : Heap Z)
      → AllLive heap cache
      → AreDistinct cache
      → (heap' : Heap Z) × (delete_documents cache heap ≡ done heap')
        × ((b : ℕ) → heap' b ≡ (if points cache b then none else heap b))
  unfolding delete_documents
  delete_documents-done [] heap l d = (heap, refl, λ b. refl)
  delete_documents-done ((url, a) ∷ rest) heap l d =
      let (h, e, f) =
        delete_documents-done rest (removed heap a) (removed-AllLive heap a rest d.0 l.1) d.1 in
      (
        h,
        ap
              (λ x. elim x [ none ↦ fault | some o ↦ done o ] >>= λ o.
                delete_documents rest (removed heap a))
              l.0.1
            ∙ e,
        λ b. f b ∙ ground arith,
      )

  -- The destructor of a handler whose documents are owned deletes each document of the map, once, and
  -- no other.
  pub destroy_handler-IsOwned :
      (h : DataStreamHandler Z)
      → IsOwned h.http_cache h.heap
      → (heap : Heap Z) × (destroy_handler h ≡ done heap)
        × ((b : ℕ) → heap b ≡ (if points h.http_cache b then none else h.heap b))
        × (destroy_instance (present h) ≡ done deleted)
  unfolding destroy_instance
  destroy_handler-IsOwned h v =
      let (heap, e, f) = delete_documents-done h.http_cache h.heap v.live v.distinct in
      (heap, e, f, ap (λ w. w >>= λ heap. done deleted) e)
