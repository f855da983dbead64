-- ===== src/Tests/Documents.antt =====
-- Runs of addCacheObject and getCacheObject of src/DataStreamHandler.cpp at concrete inputs.
use libkolibre_xmlreader.Base.{
  true, ℕ, ◌≡◌, refl, false, none, some, [], ◌∷◌, ◌==◌, ◌||◌, if◌then◌else◌, codes, arith,
}
use libkolibre_xmlreader.Base.Outcome.{done, fault}
use libkolibre_xmlreader.Cache.Object.{CacheObject, full, new_object, get_state}
use libkolibre_xmlreader.Handler.{
  Heap, removed, DataStreamHandler, is_busy, shrink, add_cache_object, get_cache_object, cache_size,
}
use libkolibre_xmlreader.Handler.Map.{HttpCache, lookup, bytes_lt}
use libkolibre_xmlreader.Handler.Evict.{Shrinks, shrink-Shrinks}
use libkolibre_xmlreader.Handler.Invariant.{IsOwned}
use libkolibre_xmlreader.Handler.Answers.{
  add_cache_object-IsOwned, get_cache_object-add_cache_object, shrink_erased,
}
use libkolibre_xmlreader.Handler.Handles.{http_stream, open_stream, release_handle}
use libkolibre_xmlreader.Handler.Handles.Owners.{has, HasOwners, handles-HasOwners}
use libkolibre_xmlreader.Handler.Teardown.{
  deleted, present, points, destroy_handler, destroy_instance, destroy_handler-IsOwned,
}
use libkolibre_xmlreader.Tests.{plain}

-- Three documents at the addresses 1, 2 and 3, of `n` bytes each.
abbrev document : ℕ → CacheObject ℕ
document n = record (new_object plain []) { buffer_size = n; state = full }

abbrev three : ℕ → Heap ℕ
three n a = if a == 1 || (a == 2 || a == 3) then some (document n) else none

abbrev two_entries : HttpCache
two_entries = (codes "a", 1) ∷ (codes "b", 2) ∷ []

abbrev handler : DataStreamHandler ℕ
handler = record {
  http_cache = two_entries;
  heap = three 100;
  free_handles = [];
  multi = [];
  useragent = [];
  timeout = 0;
  debugmode = false;
}

handler-IsOwned : IsOwned handler.http_cache handler.heap
unfolding bytes_lt
handler-IsOwned = record {
  sorted = ((refl, tt), (tt, tt));
  live = ((document 100, refl), ((document 100, refl), tt));
  distinct = ((refl, tt), (tt, tt));
}

-- The document at 3 takes the place of that at 2.
abbrev replacing : DataStreamHandler ℕ
replacing = record handler {
  http_cache = (codes "a", 1) ∷ (codes "b", 3) ∷ [];
  heap = removed (three 100) 2;
}

replaces : add_cache_object (codes "b") 3 handler ≡ done replacing
unfolding add_cache_object
replaces = refl

add_cache_object-IsOwned_example : IsOwned replacing.http_cache replacing.heap
add_cache_object-IsOwned_example =
    add_cache_object-IsOwned (codes "b") 3 handler replacing handler-IsOwned
      ((document 100, refl), (refl, (refl, tt))) replaces

idle :
    (a : ℕ) (p : CacheObject ℕ)
    → lookup (codes "b") handler.http_cache ≡ some a
    → handler.heap a ≡ some p
    → is_busy (get_state p) ≡ false
unfolding get_state
idle a p e h = ground arith

get_cache_object-add_cache_object_example :
    get_cache_object (codes "b") replacing
    ≡ done (if is_busy (get_state (document 100)) then none else some 3)
get_cache_object-add_cache_object_example =
    get_cache_object-add_cache_object (codes "b") 3 (document 100) handler replacing handler-IsOwned
      ((document 100, refl), (refl, (refl, tt))) refl idle replaces

shrink-Shrinks_example :
    Shrinks 1 two_entries (three 3000000) 6000000 ((codes "a", 1) ∷ []) (removed (three 3000000) 2)
unfolding cache_size shrink
shrink-Shrinks_example =
    shrink-Shrinks 1 two_entries (three 3000000) 6000000
      ((codes "a", 1) ∷ [], removed (three 3000000) 2) refl refl

shrink_erased_example :
    shrink 1 ((codes "a", 1) ∷ (codes "b", 2) ∷ (codes "c", 3) ∷ []) (three 3000000) ≡ fault
unfolding cache_size get_state
shrink_erased_example =
    shrink_erased 1 (codes "c") 3 (document 3000000) (three 3000000) 9000000 (codes "a", 1)
      ((codes "b", 2) ∷ []) refl refl refl refl (omega arith) (omega arith)

-- One handle is free and one in use; a stream takes the free one.
abbrev idle_handle : DataStreamHandler ℕ
idle_handle = record handler { free_handles = 7 ∷ []; multi = 8 ∷ [] }

abbrev no_idle_handle : DataStreamHandler ℕ
no_idle_handle = record handler { free_handles = []; multi = 7 ∷ 8 ∷ [] }

idle_handle-HasOwners : HasOwners idle_handle.free_handles idle_handle.multi
idle_handle-HasOwners = record {
  free_once = (refl, tt);
  used_once = (refl, tt);
  apart = λ a e. ground (arith, e);
}

takes :
    open_stream true 9 (codes "http://c") false true idle_handle
    ≡ done (no_idle_handle, http_stream (codes "http://c") 7 none true)
unfolding open_stream get_cache_object
takes = refl

handles-HasOwners_example :
    HasOwners no_idle_handle.free_handles no_idle_handle.multi
    × ((a : ℕ)
        → has a no_idle_handle.multi ≡ true
        → HasOwners
            (release_handle a no_idle_handle).free_handles
            (release_handle a no_idle_handle).multi)
handles-HasOwners_example =
    handles-HasOwners true 9 (codes "http://c") false true idle_handle no_idle_handle
      (http_stream (codes "http://c") 7 none true) idle_handle-HasOwners refl refl takes

destroy_handler-IsOwned_example :
    (heap : Heap ℕ) × (destroy_handler handler ≡ done heap)
    × ((b : ℕ) → heap b ≡ (if points handler.http_cache b then none else handler.heap b))
    × (destroy_instance (present handler) ≡ done deleted)
destroy_handler-IsOwned_example = destroy_handler-IsOwned handler handler-IsOwned
