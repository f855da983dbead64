-- ===== src/Tidy.antt =====
-- src/TidyStream.h and src/TidyStream.cpp: a stream that puts what another one reads through libtidy.
-- libtidy is a parameter, with the options that the source sets. The stream inside is any
-- InputStream; what its destructor does to the stream handler is a parameter too.
pub mod State
pub mod Modes
pub mod Pieces
pub mod Faults
unfoldable pub use State.*
use libkolibre_xmlreader.Base.{
  ℕ, zero, suc, ◌+◌, ◌-◌, ◌%◌, ◌^◌, Bool, true, false, Option, none, some, [], ◌∷◌, ◌++◌, ltb, ◌==◌,
  if◌then◌else◌, Bytes, codes, starts_with, length, take, drop,
}
use libkolibre_xmlreader.Base.Outcome.{Outcome, done, fault, spins, ◌>>=◌}
use libkolibre_xmlreader.Cache.Object.{CacheObject, new_object, reset_state, set_tidy_flag, sub64}
use libkolibre_xmlreader.Cache.Object.Read.{read_bytes}
use libkolibre_xmlreader.Cache.Object.Write.{write_bytes}
use libkolibre_xmlreader.Cache.Zlib.{Zlib}
use libkolibre_xmlreader.Handler.{DataStreamHandler, Heap, at, get_cache_object, add_cache_object}
use libkolibre_xmlreader.Http.Error.{ErrorCode, no_error}
use libkolibre_xmlreader.Stream.{Got, got, failed, raised, InputStream}

-- The arguments of writeBytes for a buffer of libtidy, whose pointer is NULL while it is empty.
abbrev pub buffer_of : Bytes → Option Bytes
buffer_of [] = none
buffer_of (x ∷ xs) = some (x ∷ xs)

module _ {S : Type 0} (i : InputStream S) where
  -- The loop of Perform that reads the stream to its end; an error that is thrown ends it too.
  -- `none`: the stream failed.
  unfoldable pub gather : ℕ → S → Bytes → Outcome (S × Option Bytes)
  gather zero s docbuf = spins
  gather (suc fuel) s docbuf = i.read_bytes 4096 s >>= λ (s', g). elim g [
    | failed ↦ done (s', none)
    | raised e ↦ done (s', some docbuf)
    | got bytes ↦ elim (length bytes == 0) [
      | true ↦ done (s', some docbuf)
      | false ↦ gather fuel s' (docbuf ++ bytes)
    ]
  ]

-- `(mode == TIDY) && !bTidied`
abbrev pub is_due : TidyMode → Bool → Bool
is_due tidy false = true
is_due _ _ = false

module _ {Z S T : Type 0} (z : Zlib Z) (lib : Libtidy T) (i : InputStream S)
    (close : S → DataStreamHandler Z → Outcome (DataStreamHandler Z)) where
  -- tidyParseBuffer, tidyCleanAndRepair and tidySaveBuffer
  unfoldable pub tidied_text : Bytes → Bytes
  tidied_text docbuf =
      let doc = lib.parse docbuf in lib.save (if lib.parsed doc then lib.repair doc else doc)

  -- The tidied text is written into the document at `a`, and that goes into the cache.
  unfoldable pub store_tidied :
      ℕ
      → ℕ
      → CacheObject Z
      → Bytes
      → TidyStream S
      → DataStreamHandler Z
      → Outcome (TidyStream S × DataStreamHandler Z)
  unfolding set_tidy_flag
  store_tidied fuel a o out t h = write_bytes z fuel o (buffer_of out) >>= λ (o1, n).
      let t' = record t { cache = some a; outbuf = some out } in
      if n == length out
      then (write_bytes z fuel o1 none >>= λ (o2, _).
          let h' = with_heap h (put h.heap a (set_tidy_flag (reset_state z o2) true)) in
          if t.use_cache
          then (add_cache_object t.url a h' >>= λ h2. done (t', h2))
          else done (t', h'))
      else done (t', with_heap h (put h.heap a o1))

  -- With a document of the cache: one that was tidied is read as it is.
  unfoldable pub tidy_document :
      ℕ
      → ℕ
      → CacheObject Z
      → Bool
      → Bytes
      → TidyStream S
      → DataStreamHandler Z
      → Outcome (TidyStream S × DataStreamHandler Z)
  unfolding store_tidied tidied_text
  tidy_document fuel a o true docbuf t h =
      done
        (record t { mode = cached; cache = some a; outbuf = some [] }, with_heap h (put h.heap a o))
  tidy_document fuel a o false docbuf t h = store_tidied fuel a o (tidied_text docbuf) t h

  -- With what getCacheObject answers; `fresh` is where a new document goes.
  unfoldable pub tidy_up :
      ℕ
      → ℕ
      → Option ℕ
      → Bytes
      → TidyStream S
      → DataStreamHandler Z
      → Outcome (TidyStream S × DataStreamHandler Z)
  unfolding tidy_document
  tidy_up fuel fresh none docbuf t h =
      store_tidied fuel fresh (new_object z t.url) (tidied_text docbuf) t h
  tidy_up fuel fresh (some a) docbuf t h = at h.heap a >>= λ o.
      let o' = reset_state z o in tidy_document fuel a o' o'.tidy_flag docbuf t h

  -- Perform behind its loop.
  unfoldable pub gathered :
      ℕ
      → ℕ
      → S
      → Option Bytes
      → TidyStream S
      → DataStreamHandler Z
      → Outcome (TidyStream S × DataStreamHandler Z × Bool)
  unfolding tidy_up
  gathered fuel fresh s none t h = close s h >>= λ h'. done (
    record t {
      error_msg = i.error_msg s;
      error_code = i.error_code s;
      inner = deleted;
      outbuf = some [];
    },
    h',
    false,
  )
  gathered fuel fresh s (some docbuf) t h = close s h >>= λ h1. get_cache_object t.url h1 >>= λ c.
      tidy_up fuel fresh c docbuf (record t { inner = absent }) h1 >>= λ (t', h2).
      done (record t' { tidied = true }, h2, true)

  -- Perform, in TIDY mode; the flag is what it returns.
  unfoldable pub perform :
      ℕ
      → ℕ
      → Inner S
      → TidyStream S
      → DataStreamHandler Z
      → Outcome (TidyStream S × DataStreamHandler Z × Bool)
  unfolding gather gathered
  perform fuel fresh absent t h = fault
  perform fuel fresh deleted t h = fault
  perform fuel fresh (present s) t h =
      gather i fuel s [] >>= λ (s', g). gathered fuel fresh s' g t h

  -- The part of readBytes behind Perform.
  unfoldable pub read_tidied :
      ℕ
      → Option Bytes
      → ℕ
      → TidyStream S
      → DataStreamHandler Z
      → Outcome (TidyStream S × DataStreamHandler Z × Got)
  read_tidied fuel none n t h = fault
  read_tidied fuel (some out) n t h =
      let left = length out - t.total_bytes_read in
      let bytes = if ltb left n then left else n in
      done (
        record t { total_bytes_read = t.total_bytes_read + bytes },
        h,
        got (take bytes (drop t.total_bytes_read out)),
      )

  unfoldable pub read_document :
      ℕ
      → Option ℕ
      → ℕ
      → TidyStream S
      → DataStreamHandler Z
      → Outcome (TidyStream S × DataStreamHandler Z × Got)
  read_document fuel none n t h = fault
  read_document fuel (some a) n t h = at h.heap a >>= λ o. read_bytes z fuel o n >>= λ (o', bytes).
      done (
        record t { total_bytes_read = t.total_bytes_read + length bytes },
        with_heap h (put h.heap a o'),
        got bytes,
      )

  unfoldable pub pass_through :
      Inner S
      → ℕ
      → TidyStream S
      → DataStreamHandler Z
      → Outcome (TidyStream S × DataStreamHandler Z × Got)
  pass_through absent n t h = fault
  pass_through deleted n t h = fault
  pass_through (present s) n t h = i.read_bytes n s >>= λ (s', g).
      let t' = record t { inner = present s' } in
      elim g [
        | raised e ↦ done (t', h, got [])
        | failed ↦
            done (record t' { error_msg = i.error_msg s'; error_code = i.error_code s' }, h, failed)
        | got bytes ↦
            done (record t' { total_bytes_read = t.total_bytes_read + length bytes }, h, got bytes)
      ]

  unfoldable pub read_mode :
      TidyMode
      → ℕ
      → ℕ
      → TidyStream S
      → DataStreamHandler Z
      → Outcome (TidyStream S × DataStreamHandler Z × Got)
  unfolding read_tidied read_document pass_through
  read_mode tidy fuel n t h = read_tidied fuel t.outbuf n t h
  read_mode cached fuel n t h = read_document fuel t.cache n t h
  read_mode passthrough fuel n t h = pass_through t.inner n t h

  -- With what Perform leaves and returns.
  abbrev pub read_performed :
      ℕ
      → ℕ
      → TidyStream S × DataStreamHandler Z × Bool
      → Outcome (TidyStream S × DataStreamHandler Z × Got)
  read_performed fuel n (t, h, true) = read_mode t.mode fuel n t h
  read_performed fuel n (t, h, false) = done (t, h, failed)

  -- By whether Perform is due.
  unfoldable pub read_when :
      Bool
      → ℕ
      → ℕ
      → ℕ
      → TidyStream S
      → DataStreamHandler Z
      → Outcome (TidyStream S × DataStreamHandler Z × Got)
  unfolding perform read_mode
  read_when true fuel fresh n t h = perform fuel fresh t.inner t h >>= λ r. read_performed fuel n r
  read_when false fuel fresh n t h = read_mode t.mode fuel n t h

  -- readBytes
  unfoldable pub read_tidy :
      ℕ
      → ℕ
      → ℕ
      → TidyStream S
      → DataStreamHandler Z
      → Outcome (TidyStream S × DataStreamHandler Z × Got)
  unfolding read_when
  read_tidy fuel fresh n t h = read_when (is_due t.mode t.tidied) fuel fresh n t h

  -- The buffer of libtidy is freed, which only Perform initialises.
  abbrev pub free_buffer : Option Bytes → DataStreamHandler Z → Outcome (DataStreamHandler Z)
  free_buffer none h = fault
  free_buffer (some out) h = done h

  abbrev pub destroy_mode :
      TidyMode → TidyStream S → DataStreamHandler Z → Outcome (DataStreamHandler Z)
  destroy_mode tidy t h = free_buffer t.outbuf h
  destroy_mode cached t h = elim t.cache [
    | none ↦ done h
    | some a ↦ at h.heap a >>= λ o. done (with_heap h (put h.heap a (reset_state z o)))
  ]
  destroy_mode passthrough t h = elim t.inner [
    | absent ↦ done h
    | deleted ↦ fault
    | present s ↦ close s h
  ]

  -- The destructor.
  unfoldable pub destroy_tidy : TidyStream S → DataStreamHandler Z → Outcome (DataStreamHandler Z)
  destroy_tidy t h = destroy_mode t.mode t h

  -- The stream as the reader sees it; its state has the stream handler.
  abbrev pub tidy_input : ℕ → ℕ → InputStream (TidyStream S × DataStreamHandler Z)
  tidy_input fuel fresh = record {
    read_bytes = λ n (t, h). read_tidy fuel fresh n t h >>= λ (t', h', g). done ((t', h'), g);
    use_cache = λ b (t, h). (record t { use_cache = b }, h);
    error_msg = λ (t, h). t.error_msg;
    error_code = λ (t, h). t.error_code;
  }
