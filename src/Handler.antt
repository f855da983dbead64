-- ===== src/Handler.antt =====
-- src/DataStreamHandler.h and src/DataStreamHandler.cpp: the map of cached documents and the free
-- curl handles.
--
-- The map holds pointers, so the documents stand in a heap: an address that holds nothing is one
-- whose object was deleted. `std::map` keeps its entries in the order of their keys. The options that
-- newStream sets on a curl handle are left out, but for the user agent and the times; so is logging.
pub mod Map
pub mod Evict
pub mod Objects
pub mod Invariant
pub mod Answers
pub mod Handles
pub mod Locks
pub mod Teardown
use libkolibre_xmlreader.Base.{
  ℕ, zero, suc, ◌+◌, ◌-◌, Bool, true, false, not, ◌&&◌, ◌||◌, Option, none, some, List, [], ◌∷◌,
  ◌++◌, ltb, ◌==◌, if◌then◌else◌, Bytes, codes,
}
use libkolibre_xmlreader.Base.Outcome.{Outcome, done, fault, spins, ◌>>=◌}
use libkolibre_xmlreader.Cache.Object.{CacheObject, CacheState, empty, full, busy, get_state, sub64}
use Map.{Entry, HttpCache, lookup, insert, erase}

-- MAX_CACHE_SIZE
abbrev pub max_cache_size : ℕ
max_cache_size = 4194304

abbrev pub Heap : Type 0 → Type 0
Heap Z = ℕ → Option (CacheObject Z)

pub record DataStreamHandler (Z : Type 0) : Type 0 where
  pub http_cache : HttpCache
  pub heap : Heap Z
  -- The free easy handles, the first in the queue first, and those of the multi handle.
  pub free_handles : List ℕ
  pub multi : List ℕ
  pub useragent : Bytes
  pub timeout : ℕ
  pub debugmode : Bool

module _ {Z : Type 0} where
  -- What a pointer points to.
  abbrev pub at : Heap Z → ℕ → Outcome (CacheObject Z)
  at heap a = elim (heap a) [ none ↦ fault | some o ↦ done o ]

  abbrev pub removed : Heap Z → ℕ → Heap Z
  removed heap a b = if a == b then none else heap b

  -- `delete`
  pub delete : Heap Z → ℕ → Outcome (Heap Z)
  delete heap a = at heap a >>= λ _. done (removed heap a)

abbrev pub is_busy : CacheState → Bool
is_busy busy = true
is_busy _ = false

module _ {Z : Type 0} where
  -- The first loop of checkCacheSize.
  unfoldable pub cache_size : Heap Z → HttpCache → Outcome ℕ
  cache_size heap [] = done 0
  cache_size heap ((k, a) ∷ rest) =
      at heap a >>= λ o. cache_size heap rest >>= λ n. done (o.buffer_size + n)

-- The state of the second loop, which goes from the end of the map to its beginning: the entries
-- behind the iterator that are left, and whether the iterator's own entry was erased.
pub record Eviction (Z : Type 0) : Type 0 where
  pub size : ℕ
  pub kept : HttpCache
  pub heap : Heap Z
  pub erased : Bool

module _ {Z : Type 0} where
  -- The body of the loop, at an entry that is not the first.
  pub visit : ℕ → Entry → Eviction Z → Outcome (Eviction Z)
  unfolding delete get_state
  visit item (k, a) e = at e.heap a >>= λ o.
      if not (a == item) && not (is_busy (get_state o))
      then (delete e.heap a >>= λ heap.
          done (record {
            size = sub64 e.size o.buffer_size;
            kept = e.kept;
            heap = heap;
            erased = true;
          }))
      else done (record e { kept = (k, a) ∷ e.kept; erased = false })

  -- `cacheSize > MAX_CACHE_SIZE && --itHttpCache != HttpCache.begin()`, then the body: an iterator
  -- whose entry was erased cannot be moved. Once the size is low enough the rest stays.
  pub retreat : ℕ → Entry → Eviction Z → Outcome (Eviction Z)
  unfolding visit
  retreat item entry e =
      if ltb max_cache_size e.size
      then (if e.erased then fault else visit item entry e)
      else done (record e { kept = entry ∷ e.kept })

  pub evict : ℕ → HttpCache → Eviction Z → Outcome (Eviction Z)
  unfolding retreat
  evict item [] e = done e
  evict item (entry ∷ rest) e = evict item rest e >>= retreat item entry

  -- The last time that the condition is computed, at the first entry.
  pub arrive : Entry → Eviction Z → Outcome (HttpCache × Heap Z)
  arrive entry e =
      if ltb max_cache_size e.size && e.erased then fault else done (entry ∷ e.kept, e.heap)

  unfoldable pub shrink : ℕ → HttpCache → Heap Z → Outcome (HttpCache × Heap Z)
  unfolding evict arrive cache_size
  shrink item [] heap = done ([], heap)
  shrink item (entry ∷ rest) heap = cache_size heap (entry ∷ rest) >>= λ size.
      evict item rest (record { size = size; kept = []; heap = heap; erased = false })
      >>= arrive entry

  unfoldable pub check_cache_size : ℕ → DataStreamHandler Z → Outcome (DataStreamHandler Z)
  unfolding shrink
  check_cache_size item h = shrink item h.http_cache h.heap >>= λ (cache, heap).
      done (record h { http_cache = cache; heap = heap })

  -- The end of addCacheObject.
  pub insert_object : Bytes → ℕ → DataStreamHandler Z → Outcome (DataStreamHandler Z)
  unfolding check_cache_size insert
  insert_object url item h =
      check_cache_size item (record h { http_cache = insert url item h.http_cache })

  -- addCacheObject; it returns true in every case.
  pub add_at : Option ℕ → Bytes → ℕ → DataStreamHandler Z → Outcome (DataStreamHandler Z)
  unfolding insert_object delete erase get_state
  add_at none url item h = insert_object url item h
  add_at (some a) url item h =
      if a == item
      then insert_object url item h
      else (at h.heap a >>= λ o.
          if is_busy (get_state o)
          then (delete h.heap item >>= λ heap. done (record h { heap = heap }))
          else (delete h.heap a >>= λ heap.
              insert_object url item
                (record h { heap = heap; http_cache = erase url h.http_cache })))

  unfoldable pub add_cache_object : Bytes → ℕ → DataStreamHandler Z → Outcome (DataStreamHandler Z)
  unfolding add_at lookup
  add_cache_object url item h = add_at (lookup url h.http_cache) url item h

  pub get_at : Option ℕ → DataStreamHandler Z → Outcome (Option ℕ)
  unfolding get_state
  get_at none h = done none
  get_at (some a) h = at h.heap a >>= λ o. done (if is_busy (get_state o) then none else some a)

  -- getCacheObject; `none` is NULL.
  unfoldable pub get_cache_object : Bytes → DataStreamHandler Z → Outcome (Option ℕ)
  unfolding get_at lookup
  get_cache_object url h = get_at (lookup url h.http_cache) h
