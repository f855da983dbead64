-- ===== src/Http/Read.antt =====
-- HttpStream::readBytes. curl is not part of the repository: what it does is a script, with an entry
-- for each call of curl_multi_perform. Behind its end nothing is running any longer.
pub mod Input
pub mod Bodies
pub mod Heads
pub mod Opening
pub mod Condition
pub mod Script
pub mod Loop
pub mod Once
pub mod Download
pub mod Cached
pub mod Unchanged
pub mod Storing
use libkolibre_xmlreader.Base.{
  ℕ, zero, suc, ◌+◌, Bool, true, false, not, ◌&&◌, ◌||◌, Option, none, some, List, [], ◌∷◌, ◌++◌,
  ltb, ◌==◌, if◌then◌else◌, Bytes, length,
}
use libkolibre_xmlreader.Base.Outcome.{Outcome, done, spins, ◌>>=◌}
use libkolibre_xmlreader.Cache.Object.{CacheObject, reset_state}
use libkolibre_xmlreader.Cache.Object.Read.{read_bytes}
use libkolibre_xmlreader.Cache.Zlib.{Zlib}
use libkolibre_xmlreader.Http.Error.{XmlError, CurlCode, is_no_error}
use libkolibre_xmlreader.Http.Header.{header_callback}
use libkolibre_xmlreader.Http.Response.{again, redirected, throws, handle_result}
use libkolibre_xmlreader.Http.Stream.{HttpStream}
use libkolibre_xmlreader.Http.Transfer.{at_most, write_callback, serve_buffered}

-- A call that curl makes while it performs: a header line with the byte behind it, or received bytes.
pub data Callback : Type 0 where
  header : Bytes → ℕ → Callback
  body : Bytes → Callback

-- A message of curl_multi_info_read: that a transfer is done, with its result and the status code of
-- the response, or another one.
pub data Message : Type 0 where
  completed : CurlCode → ℕ → Message
  other : Message

pub record Perform : Type 0 where
  pub callbacks : List Callback
  -- The result is CURLM_CALL_MULTI_PERFORM.
  pub call_again : Bool
  pub running : ℕ
  pub messages : List Message

-- What is not under src/ or belongs to the stream handler, as readBytes uses it.
pub record Env (Z : Type 0) : Type 0 where
  pub zlib : Zlib Z
  pub strerror : CurlCode → Bytes
  pub get_cached : Bytes → Option (CacheObject Z)

-- `tryAgain` and `runningHandles` behind the loop over the messages, or what was thrown in it.
pub data Flow : Type 0 where
  proceed : Bool → ℕ → Flow
  thrown : XmlError → Flow

-- How readBytes ends: it returns a number, returns -1, or throws.
pub data ReadResult : Type 0 where
  returned : ℕ → ReadResult
  failed : ReadResult
  raised : XmlError → ReadResult

module _ {Z : Type 0} (env : Env Z) where
  run_callback : ℕ → Callback → HttpStream Z → Outcome (HttpStream Z)
  run_callback fuel (header line past) s = header_callback env.zlib line past s
  run_callback fuel (body bytes) s = write_callback env.zlib fuel bytes s >>= λ (s', n). done s'

  unfoldable pub run_callbacks : ℕ → List Callback → HttpStream Z → Outcome (HttpStream Z)
  unfolding run_callback
  run_callbacks fuel [] s = done s
  run_callbacks fuel (c ∷ rest) s = run_callback fuel c s >>= run_callbacks fuel rest

  -- The loop over curl's messages; `n` is `runningHandles`, `b` is `tryAgain`.
  pub handle_messages : List Message → Bool → ℕ → ℕ → HttpStream Z → Outcome (HttpStream Z × Flow)
  handle_messages [] b n max_to_read s = done (s, proceed b n)
  handle_messages (other ∷ rest) b n max_to_read s = handle_messages rest b n max_to_read s
  handle_messages (completed result code ∷ rest) b n max_to_read s =
      handle_result env.zlib env.strerror env.get_cached result code max_to_read s >>= λ (s', v).
      elim v [
        | again b' ↦ handle_messages rest b' n max_to_read s'
        | redirected ↦ handle_messages rest true 1 max_to_read s'
        | throws e ↦ done (s', thrown e)
      ]

  -- One call of curl_multi_perform and its messages.
  pub perform : ℕ → Perform → ℕ → HttpStream Z → Outcome (HttpStream Z × Flow)
  unfolding run_callbacks handle_messages
  perform fuel p max_to_read s =
      run_callbacks fuel p.callbacks s
      >>= handle_messages p.messages p.call_again p.running max_to_read

  -- The condition of the loop.
  abbrev pub wants_more : Bool → HttpStream Z → Bool
  wants_more b s = ltb 0 s.bytes_to_read && (b || s.bytes_read == 0) && not s.stream_from_cache

  -- What goes on behind the messages: nothing, after an error or when nothing is running any longer.
  abbrev pub after_flow :
      (List Perform → Bool → HttpStream Z → Outcome (HttpStream Z × List Perform × Option XmlError))
      → List Perform
      → HttpStream Z × Flow
      → Outcome (HttpStream Z × List Perform × Option XmlError)
  after_flow loop rest (s, thrown e) = done (s, rest, some e)
  after_flow loop rest (s, proceed b n) = if n == 0 then done (s, rest, none) else loop rest b s

  -- A round of the loop, by whether there are buffered bytes to serve.
  abbrev pub round :
      (List Perform → Bool → HttpStream Z → Outcome (HttpStream Z × List Perform × Option XmlError))
      → ℕ
      → ℕ
      → Bool
      → List Perform
      → HttpStream Z
      → Outcome (HttpStream Z × List Perform × Option XmlError)
  round loop fuel max_to_read true script s = serve_buffered env.zlib s >>= loop script true
  round loop fuel max_to_read false [] s = done (s, [], none)
  round loop fuel max_to_read false (p ∷ rest) s =
      perform fuel p max_to_read s >>= after_flow loop rest

  -- By the condition of the loop.
  abbrev pub turn :
      (List Perform → Bool → HttpStream Z → Outcome (HttpStream Z × List Perform × Option XmlError))
      → ℕ
      → ℕ
      → Bool
      → List Perform
      → HttpStream Z
      → Outcome (HttpStream Z × List Perform × Option XmlError)
  turn loop fuel max_to_read false script s = done (s, script, none)
  turn loop fuel max_to_read true script s =
      round loop fuel max_to_read (ltb 0 (at_most s.buffer_size s.bytes_to_read)) script s

  -- The loop. `select` only waits. The result has what is left of the script, and what was thrown.
  pub read_loop :
      ℕ
      → List Perform
      → Bool
      → ℕ
      → HttpStream Z
      → Outcome (HttpStream Z × List Perform × Option XmlError)
  unfolding perform
  read_loop zero script b max_to_read s = spins
  read_loop (suc fuel) script b max_to_read s =
      turn (λ script b s. read_loop fuel script b max_to_read s) fuel max_to_read (wants_more b s)
        script s

  -- Streaming from the cached document, after a response 304.
  pub from_cache : ℕ → HttpStream Z → Outcome (HttpStream Z)
  from_cache fuel s =
      if s.use_cache && s.stream_from_cache
      then (read_bytes env.zlib fuel s.cache s.bytes_to_read >>= λ (c, bytes). done (record s {
        cache = if length bytes == 0 then reset_state env.zlib c else c;
        filled = s.filled ++ bytes;
        bytes_read = length bytes;
        total_bytes_read = s.total_bytes_read + length bytes;
      }))
      else done s

  -- The end of readBytes.
  pub conclude : HttpStream Z → HttpStream Z × ReadResult
  conclude s =
      let s' = record s {
        bytes_to_read = 0;
        transfer_finished =
            if s.content_length_response == s.total_bytes_read then true else s.transfer_finished;
      } in
      (s', if is_no_error s.error_code then returned s.bytes_read else failed)

  -- What comes behind the loop.
  pub finish_read :
      ℕ
      → HttpStream Z × List Perform × Option XmlError
      → Outcome (HttpStream Z × List Perform × ReadResult)
  unfolding from_cache conclude
  finish_read fuel (s, rest, some e) = done (s, rest, raised e)
  finish_read fuel (s, rest, none) =
      from_cache fuel s >>= λ s'. done ((conclude s').0, rest, (conclude s').1)

  unfoldable pub stream_read :
      ℕ → List Perform → ℕ → HttpStream Z → Outcome (HttpStream Z × List Perform × ReadResult)
  unfolding read_loop finish_read
  stream_read fuel script max_to_read s =
      read_loop fuel script true max_to_read
        (record s { bytes_read = 0; bytes_to_read = max_to_read; filled = [] })
      >>= finish_read fuel
