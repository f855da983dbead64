-- ===== src/Http/Stream.antt =====
-- The state of an HttpStream (src/HttpStream.h), its constructor, setupConnection,
-- destroyConnection, resetBuffer and destructor.
--
-- `filled` is what stands in the caller's buffer below `fWritePtr`. The constructor gives the stream
-- a cached document in every case, so `cache` is no option. The document is held by value, so that
-- what is said here is of a stream whose document no other stream uses meanwhile; the stream handler
-- would give one that is not being written to several. `fMulti` and the options of the easy handle that
-- are the same for all requests are left out, so are fDataAvailable and fBufferTail, which nothing
-- reads, and so is logging.
use libkolibre_xmlreader.Base.{
  ℕ, ◌+◌, Bool, true, false, ◌&&◌, Option, none, some, List, [], ◌∷◌, ◌++◌, ◌==◌, if◌then◌else◌,
  Bytes, codes, length,
}
use libkolibre_xmlreader.Base.Outcome.{Outcome, done, fault, ◌>>=◌}
use libkolibre_xmlreader.Cache.Object.{CacheObject, new_object, set_content_length, reset_state}
use libkolibre_xmlreader.Cache.Object.Write.{write_bytes}
use libkolibre_xmlreader.Cache.Zlib.{Zlib}
use libkolibre_xmlreader.Http.Error.{ErrorCode, no_error}

-- A pointer to a block that the stream owns. A live block has a size, and holds the bytes that were
-- written into it so far.
pub data Block : Type 0 where
  null freed : Block
  live : ℕ → Bytes → Block

-- `if (p != NULL) free (p)`
unfoldable pub free : Block → Outcome Block
free null = done null
free freed = fault
free (live size content) = done freed

-- What readBytes and setupConnection set on the easy handle.
pub record Easy : Type 0 where
  pub http_header : List Bytes
  pub url : Bytes
  pub userpwd : Option Bytes

pub record HttpStream (Z : Type 0) : Type 0 where
  pub url : Bytes
  pub easy : Easy
  pub total_bytes_read : ℕ
  pub total_bytes_write : ℕ
  pub filled : Bytes
  pub bytes_read : ℕ
  pub bytes_to_read : ℕ
  pub buffer : Block
  pub buffer_size : ℕ
  pub buffer_head : ℕ
  pub content_length_response : ℕ
  pub store_cache : Bool
  pub transfer_finished : Bool
  pub stream_from_cache : Bool
  pub use_cache : Bool
  pub delete_cache : Bool
  pub cache : CacheObject Z
  pub location : Block
  pub error_msg : Bytes
  pub error_code : ErrorCode

abbrev base_headers : List Bytes
base_headers = codes "Connection: keep-alive" ∷ codes "Keep-Alive: 300" ∷ []

abbrev modified_since : Option Bytes → List Bytes
modified_since none = []
modified_since (some date) = (codes "If-Modified-Since: " ++ date) ∷ []

abbrev pub none_match : Option Bytes → List Bytes
none_match none = []
none_match (some etag) = (codes "If-None-Match: \"" ++ (etag ++ codes "\"")) ∷ []

-- strdup
abbrev pub duplicate : Option Bytes → Block
duplicate none = null
duplicate (some text) = live (length text + 1) text

module _ {Z : Type 0} where
  -- The headers of a request that may be answered by 304.
  unfoldable pub request_headers : CacheObject Z → List Bytes
  request_headers c = base_headers ++ (modified_since c.last_modified ++ none_match c.etag)

module _ {Z : Type 0} (z : Zlib Z) where
  -- setupConnection, where the cache is in use.
  connect_cached : Option (CacheObject Z) → HttpStream Z → HttpStream Z
  unfolding request_headers
  connect_cached none s = record s {
    cache = new_object z s.url;
    delete_cache = true;
    location = null;
    easy = record s.easy { http_header = base_headers; url = s.url };
  }
  connect_cached (some c) s = record s {
    cache = c;
    location = duplicate c.location;
    easy = record s.easy { http_header = request_headers c; url = s.url };
  }

  unfoldable pub setup_connection : Option (CacheObject Z) → HttpStream Z → HttpStream Z
  unfolding connect_cached
  setup_connection p s = if s.use_cache then connect_cached p s else record s {
    location = null;
    easy = record s.easy { http_header = base_headers; url = s.url };
  }

  -- The constructor.
  unfoldable pub new_stream : Bytes → Easy → Option (CacheObject Z) → HttpStream Z
  unfolding setup_connection
  new_stream url easy p = setup_connection p (record {
    url = url;
    easy = easy;
    total_bytes_read = 0;
    total_bytes_write = 0;
    filled = [];
    bytes_read = 0;
    bytes_to_read = 0;
    buffer = null;
    buffer_size = 0;
    buffer_head = 0;
    content_length_response = 0;
    store_cache = false;
    transfer_finished = false;
    stream_from_cache = false;
    use_cache = true;
    delete_cache = false;
    cache = new_object z url;
    location = null;
    error_msg = codes "unknown error";
    error_code = no_error;
  })

module _ {Z : Type 0} where
  unfoldable pub use_cache : HttpStream Z → Bool → HttpStream Z
  use_cache s setting = record s { use_cache = setting }

  -- destroyConnection: the pointers stay as they are.
  unfoldable pub destroy_connection : HttpStream Z → Outcome (HttpStream Z)
  unfolding free
  destroy_connection s =
      free s.buffer >>= λ b. free s.location >>= λ l. done (record s { buffer = b; location = l })

  -- resetBuffer
  unfoldable pub reset_buffer : HttpStream Z → Outcome (HttpStream Z)
  unfolding free
  reset_buffer s = (if s.buffer_size == 0 then done s.buffer else free s.buffer) >>= λ _.
      done (record s {
        total_bytes_read = 0;
        total_bytes_write = 0;
        buffer = null;
        buffer_size = 0;
        buffer_head = 0;
        store_cache = false;
        stream_from_cache = false;
      })

-- What becomes of the cached document when its stream is destroyed: it is handed to the stream
-- handler's addCacheObject, stays with its owner, or is deleted.
pub data Disposal (Z : Type 0) : Type 0 where
  stored : Bytes → CacheObject Z → Disposal Z
  kept : CacheObject Z → Disposal Z
  deleted : CacheObject Z → Disposal Z

module _ {Z : Type 0} (z : Zlib Z) where
  -- The destructor.
  unfoldable pub destroy : ℕ → HttpStream Z → Outcome (Disposal Z)
  unfolding destroy_connection
  destroy fuel s = destroy_connection s >>= λ s'.
      if s'.store_cache && s'.transfer_finished && s'.use_cache
      then (write_bytes z fuel s'.cache none >>= λ (c, n).
          done (stored s'.url (reset_state z (set_content_length c s'.total_bytes_read))))
      else if s'.use_cache && s'.stream_from_cache
      then done (kept (reset_state z s'.cache))
      else if s'.delete_cache
      then done (deleted s'.cache)
      else done (kept s'.cache)
