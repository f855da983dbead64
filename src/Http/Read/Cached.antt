-- ===== src/Http/Read/Cached.antt =====
-- Reading from the cached document after a response 304 (readBytes of src/HttpStream.cpp).
use libkolibre_xmlreader.Base.{
  ℕ, suc, ◌+◌, ◌≡◌, refl, ap, ◌∙◌, true, false, ◌&&◌, ◌==◌, none, List, [], ◌∷◌, ◌++◌,
  if◌then◌else◌, Bytes, length, take, take-all, arith,
}
use libkolibre_xmlreader.Base.Outcome.{Outcome, done, ◌>>=◌}
use libkolibre_xmlreader.Cache.Object.{CacheObject, reset_state}
use libkolibre_xmlreader.Cache.Object.Read.{read_bytes}
use libkolibre_xmlreader.Cache.Object.Unpack.{ReadsAll, ends as no_more, reads}
use libkolibre_xmlreader.Http.Error.{no_error, is_no_error}
use libkolibre_xmlreader.Http.Read.{
  Perform, Env, returned, failed, turn, read_loop, finish_read, conclude, from_cache, stream_read,
}
use libkolibre_xmlreader.Http.Read.Input.{http_input, given}
use libkolibre_xmlreader.Http.Stream.{HttpStream}
use libkolibre_xmlreader.Stream.{got, Serves, ends, serves}
use libkolibre_xmlreader.Http.Read.Condition.{begun, skipped}

-- The stream reads from its document.
pub record ReadsCache {Z : Type 0} (s : HttpStream Z) : Type 0 where
  pub in_use : s.use_cache ≡ true
  pub cached : s.stream_from_cache ≡ true
  pub no_error : s.error_code ≡ no_error

pub nonempty : (m : ℕ) → (suc m == 0) ≡ false
nonempty m = ground arith

module _ {Z : Type 0} (env : Env Z) where
  -- The stream with these bytes read from the document, which is `c` then.
  abbrev took : HttpStream Z → CacheObject Z → Bytes → HttpStream Z
  took s c bytes = record s {
    cache = if length bytes == 0 then reset_state env.zlib c else c;
    filled = s.filled ++ bytes;
    bytes_read = length bytes;
    total_bytes_read = s.total_bytes_read + length bytes;
  }

  abbrev pub behind : HttpStream Z → CacheObject Z → Bytes → HttpStream Z
  behind s c bytes = (conclude env (took s c bytes)).0

  from_cache-ReadsCache :
      (fuel n : ℕ) (s : HttpStream Z) (c : CacheObject Z) (bytes : Bytes)
      → ReadsCache s
      → s.bytes_to_read ≡ n
      → read_bytes env.zlib fuel s.cache n ≡ done (c, bytes)
      → from_cache env fuel s ≡ done (took s c bytes)
  unfolding from_cache
  from_cache-ReadsCache fuel n s c bytes v room runs =
      ap (λ b. if b && s.stream_from_cache then reading else done s) v.in_use
      ∙ ap (λ b. if b then reading else done s) v.cached
      ∙ ap
          (λ m. read_bytes env.zlib fuel s.cache m >>= λ (x : CacheObject Z × Bytes).
            done (took s x.0 x.1))
          room
      ∙ ap (λ m. m >>= λ (x : CacheObject Z × Bytes). done (took s x.0 x.1)) runs
    where
      reading : Outcome (HttpStream Z)
      reading = read_bytes env.zlib fuel s.cache s.bytes_to_read >>= λ (x : CacheObject Z × Bytes).
          done (took s x.0 x.1)

  -- The end of a read that streams from the cache.
  pub cached_read :
      (fuel n : ℕ) (script script' : List Perform) (s s' : HttpStream Z) (c : CacheObject Z)
      (bytes : Bytes)
      → read_loop env fuel script true n (begun n s) ≡ done (s', script', none)
      → ReadsCache s'
      → s'.bytes_to_read ≡ n
      → s'.filled ≡ []
      → read_bytes env.zlib fuel s'.cache n ≡ done (c, bytes)
      → (let i = http_input env fuel in
          i.read_bytes n (s, script) ≡ done ((behind s' c bytes, script'), got bytes))
  unfolding stream_read finish_read conclude
  cached_read fuel n script script' s s' c bytes loops v room fresh runs =
      ap (λ m. (m >>= finish_read env fuel) >>= λ x. done (given x)) loops
      ∙ ap
          (λ m. (m >>= λ s2. done ((conclude env s2).0, script', (conclude env s2).1)) >>= λ x.
            done (given x))
          (from_cache-ReadsCache fuel n s' c bytes v room runs)
      ∙ ap
          (λ e. done (
            given (
              behind s' c bytes,
              script',
              if is_no_error e then returned (length bytes) else failed,
            )))
          v.no_error
      ∙ ap (λ b. done ((behind s' c bytes, script'), got (take (length bytes) (b ++ bytes)))) fresh
      ∙ ap (λ b. done ((behind s' c bytes, script'), got b))
          (take-all (length bytes) bytes (omega arith))

  -- A read of a stream that reads from its document.
  next_read :
      (fuel n : ℕ) (script : List Perform) (s : HttpStream Z) (c : CacheObject Z) (bytes : Bytes)
      → ReadsCache s
      → read_bytes env.zlib (suc fuel) s.cache n ≡ done (c, bytes)
      → (let i = http_input env (suc fuel) in
          i.read_bytes n (s, script) ≡ done ((behind (begun n s) c bytes, script), got bytes))
  unfolding read_loop
  next_read fuel n script s c bytes v runs =
      cached_read (suc fuel) n script script s (begun n s) c bytes
        (ap
          (λ b.
            turn env (λ script b s. read_loop env fuel script b n s) fuel n b script (begun n s))
          (skipped n 0 true s.stream_from_cache v.cached))
        (record { in_use = v.in_use; cached = v.cached; no_error = v.no_error }) refl refl runs

  pub Serves-ReadsCache :
      (fuel n : ℕ) (script : List Perform) (s : HttpStream Z) (o : CacheObject Z)
      (pieces : List Bytes) (u : CacheObject Z)
      → ReadsCache s
      → s.cache ≡ o
      → ReadsAll env.zlib (suc fuel) n o pieces u
      → (t : HttpStream Z) × Serves (http_input env (suc fuel)) n (s, script) pieces (t, script)
  unfolding conclude
  Serves-ReadsCache fuel n script s o [] u v e (no_more {t = c} runs) = (
    _,
    ends (next_read fuel n script s c [] v (ap (λ x. read_bytes env.zlib (suc fuel) x n) e ∙ runs)),
  )
  Serves-ReadsCache fuel n script s o (piece ∷ pieces) u v e
        (reads {t = c} {x = x} {xs = xs} runs fits rows) =
      let (t, served) =
        Serves-ReadsCache fuel n script (behind (begun n s) c (x ∷ xs)) c pieces u
          (record { in_use = v.in_use; cached = v.cached; no_error = v.no_error })
          (ap (λ b. if b then reset_state env.zlib c else c) (nonempty (length xs))) rows in
      (
        t,
        serves
            (next_read fuel n script s c (x ∷ xs) v
              (ap (λ x. read_bytes env.zlib (suc fuel) x n) e ∙ runs))
            fits served,
      )
