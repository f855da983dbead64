-- ===== src/Cache/Object.antt =====
-- src/CacheObject.h and src/CacheObject.cpp: a cached document, compressed by zlib.
--
-- A `char *` that the object owns is an `Option Bytes`; NULL is `none`. `strdup` copies up to the
-- first NUL. `zBuffer` is modelled by the bytes that have been written into the block so far, in
-- order, and its size by `buffer_size`. The temporary `c_stream_buffer` is the output of one call.
-- Logging is left out.
pub mod Write
pub mod Read
pub mod Buffer
pub mod Compress
pub mod Pack
pub mod Inflate
pub mod Unpack
pub mod RoundTrip
use libkolibre_xmlreader.Base.{
  ℕ, zero, suc, ◌+◌, ◌-◌, ◌*◌, ◌%◌, ◌^◌, Bool, true, false, not, ◌&&◌, ◌||◌, Option, none, some, [],
  ◌∷◌, ◌++◌, ltb, leb, ◌==◌, if◌then◌else◌, Bytes, codes, c_str, length, take, drop,
}
use libkolibre_xmlreader.Base.Outcome.{Outcome, done, fault, spins, ◌>>=◌}
use libkolibre_xmlreader.Cache.Zlib.{
  Zlib, ZStep, ZCode, z_ok, z_stream_end, z_need_dict, z_errno, z_stream_error, z_data_error,
  z_mem_error, z_buf_error, z_version_error,
}

pub data CacheState : Type 0 where
  empty write full read busy : CacheState

pub record CacheObject (Z : Type 0) : Type 0 where
  pub src_url : Bytes
  pub etag : Option Bytes
  pub last_modified : Option Bytes
  pub location : Option Bytes
  pub content_length : ℕ
  pub http_code : ℕ
  pub state : CacheState
  pub tidy_flag : Bool
  pub stream : Z
  -- `c_stream.next_in` with `c_stream.avail_in`.
  pub next_in : Bytes
  pub z_buffer : Option Bytes
  pub alloc_count : ℕ
  pub buffer_size : ℕ
  pub buffer_pos : ℕ

-- Z_CHUNK_SIZE.
abbrev pub chunk_size : ℕ
chunk_size = 16384

-- The dictionary, with the NUL that `sizeof` counts.
pub dictionary : Bytes
dictionary =
    codes
      "\"http://wwwSMILorg/TR/REC-smil/SMIL10<smil>smil</head><body>\"-//W3C//DTDcontent=\"Daisy<?xml version=\"1.0\" encoding=\"iso-8859-1\"?>npt=0<region id=\"txtView\"/>endsync=\"last\"<meta name=\"dc:identifier\" content=mpg\"<meta name=\"ncc:totalElapsedTime\" content=<seq><meta name=\"ncc:generator\" content=</seq><meta name=\"dc:format\" content=<meta<meta name=\"dc:title\" content=booktext<meta name=\"ncc:timeInThisSmil\" content=<ref<layout>endsync=\"last\"></layout></par><!DOCTYPE smil PUBLIC \"-//W3C//DTD SMIL 1.0//EN\" \"http://www.w3.org/TR/REC-smil/SMIL10.dtd\"><par<body><text</body><audio<smil>clip-end=\"</head>clip-begin=\"</smil>smil\"<head>/><seq>mp3\"</seq>src=\"<par endsync=\"last\">id=\"</par>"
    ++ 0 ∷ []

-- What getState tells of `eState`.
pub shown_state : CacheState → CacheState
shown_state empty = empty
shown_state full = full
shown_state _ = busy

-- The state when the compression or decompression at hand is ended.
pub ended : CacheState → CacheState
ended write = full
ended read = full
ended s = s

module _ {Z : Type 0} where
  unfoldable pub set_etag : CacheObject Z → Bytes → CacheObject Z
  set_etag o etag = record o { etag = some (c_str etag) }

  unfoldable pub set_last_modified : CacheObject Z → Bytes → CacheObject Z
  set_last_modified o last_modified = record o { last_modified = some (c_str last_modified) }

  unfoldable pub set_location : CacheObject Z → Bytes → CacheObject Z
  set_location o location = record o { location = some (c_str location) }

  unfoldable pub set_content_length : CacheObject Z → ℕ → CacheObject Z
  set_content_length o content_length = record o { content_length = content_length }

  unfoldable pub set_http_code : CacheObject Z → ℕ → CacheObject Z
  set_http_code o code = record o { http_code = code }

  unfoldable pub set_tidy_flag : CacheObject Z → Bool → CacheObject Z
  set_tidy_flag o flag = record o { tidy_flag = flag }

  unfoldable pub get_state : CacheObject Z → CacheState
  unfolding shown_state
  get_state o = shown_state o.state

  unfoldable pub reset_buffer : CacheObject Z → CacheObject Z
  reset_buffer o = record o {
    z_buffer = none;
    alloc_count = 0;
    buffer_pos = 0;
    buffer_size = 0;
    state = empty;
  }

module _ {Z : Type 0} (z : Zlib Z) where
  -- `deflateEnd` and `inflateEnd` only free what the stream holds, before it is cleared.
  unfoldable pub reset_state : CacheObject Z → CacheObject Z
  unfolding ended
  reset_state o = record o { state = ended o.state; stream = z.zeroed; next_in = [] }

  -- The constructor; the object starts EMPTY, so both resets leave it so.
  unfoldable pub new_object : Bytes → CacheObject Z
  unfolding reset_state
  new_object url = reset_buffer (
      reset_state (record {
        src_url = c_str url;
        etag = none;
        last_modified = none;
        location = none;
        content_length = 0;
        http_code = 0;
        state = empty;
        tidy_flag = false;
        stream = z.zeroed;
        next_in = [];
        z_buffer = none;
        alloc_count = 0;
        buffer_size = 0;
        buffer_pos = 0;
      }))

-- a - b of `unsigned long`.
abbrev pub sub64 : ℕ → ℕ → ℕ
sub64 a b = (a + 2 ^ 64 - b) % 2 ^ 64

unfoldable pub zeros : ℕ → Bytes
zeros zero = []
zeros (suc n) = 0 ∷ zeros n

-- Bytes copied to position `pos` of a block; what was never written below it shows as 0.
unfoldable pub write_at : ℕ → Bytes → Bytes → Bytes
unfolding zeros
write_at pos output block = take pos (block ++ zeros pos) ++ output

-- Whether `deflate` or `inflate` ends the call (the cases that return 0).
unfoldable pub is_fatal : ZCode → Bool
is_fatal z_errno = true
is_fatal z_stream_error = true
is_fatal z_data_error = true
is_fatal z_mem_error = true
is_fatal z_version_error = true
is_fatal _ = false

module _ {Z : Type 0} where
  -- The object after a call of `deflate` or `inflate`.
  unfoldable pub stepped : ZStep Z → CacheObject Z → CacheObject Z
  stepped r o = record o { stream = r.stream; next_in = drop r.taken o.next_in }
