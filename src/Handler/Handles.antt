-- ===== src/Handler/Handles.antt =====
-- The easy handles of curl in src/DataStreamHandler.cpp: newStream, releaseHandle and the setters. A
-- handle is a number; the one that curl_easy_init gives is an argument. Of the options of a handle
-- those are kept that differ from stream to stream: none, beside what the stream itself sets.
pub mod Owners
use libkolibre_xmlreader.Base.{
  ℕ, Bool, true, false, ◌&&◌, Option, none, some, List, [], ◌∷◌, ◌++◌, ◌==◌, if◌then◌else◌, Bytes,
  codes, starts_with,
}
use libkolibre_xmlreader.Base.Outcome.{Outcome, done, ◌>>=◌}
use libkolibre_xmlreader.Handler.{DataStreamHandler, get_cache_object}

-- The stream that newStream makes: over HTTP, with its handle, from a file, or either through libtidy.
-- The document is the cached one, and the flag is that of useCache.
pub data Opened : Type 0 where
  http_stream : Bytes → ℕ → Option ℕ → Bool → Opened
  file_stream : Bytes → Option ℕ → Bool → Opened
  tidy_stream : Bytes → Opened → Opened

-- The first free handle, or a new one.
unfoldable pub take_handle : ℕ → List ℕ → ℕ × List ℕ
take_handle fresh [] = (fresh, [])
take_handle fresh (a ∷ rest) = (a, rest)

-- `tidy` where libtidy is there.
abbrev pub tidied : Bytes → Bool → Opened → Opened
tidied url tidy s = if tidy then tidy_stream url s else s

-- curl_multi_remove_handle
abbrev pub without : ℕ → List ℕ → List ℕ
without a [] = []
without a (b ∷ rest) = if a == b then rest else b ∷ without a rest

module _ {Z : Type 0} where
  unfoldable pub set_useragent : Bytes → DataStreamHandler Z → DataStreamHandler Z
  set_useragent useragent h = record h { useragent = useragent }

  unfoldable pub set_timeout : ℕ → DataStreamHandler Z → DataStreamHandler Z
  set_timeout timeout h = record h { timeout = timeout }

  unfoldable pub set_debugmode : Bool → DataStreamHandler Z → DataStreamHandler Z
  set_debugmode setting h = record h { debugmode = setting }

  -- `if (USE_CACHE && useCache) cacheObject = getCacheObject(url)`
  unfoldable pub cached_for : Bytes → Bool → DataStreamHandler Z → Outcome (Option ℕ)
  cached_for url use_cache h = if use_cache then get_cache_object url h else done none

  -- newStream; the first argument is whether libtidy is there.
  unfoldable pub open_stream :
      Bool → ℕ → Bytes → Bool → Bool → DataStreamHandler Z → Outcome (DataStreamHandler Z × Opened)
  unfolding take_handle cached_for
  open_stream have_libtidy fresh url tidy use_cache h =
      if starts_with (codes "http") url
      then (let (a, free) = take_handle fresh h.free_handles in
          cached_for url use_cache h >>= λ c. done (
            record h { free_handles = free; multi = a ∷ h.multi },
            tidied url (have_libtidy && tidy) (http_stream url a c use_cache),
          ))
      else (cached_for url use_cache h >>= λ c.
          done (h, tidied url (have_libtidy && tidy) (file_stream url c use_cache)))

  unfoldable pub release_handle : ℕ → DataStreamHandler Z → DataStreamHandler Z
  release_handle a h = record h {
    multi = without a h.multi;
    free_handles = h.free_handles ++ a ∷ [];
  }
