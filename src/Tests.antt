-- ===== src/Tests.antt =====
-- Runs of the modelled code of src/ at concrete inputs: URLs, header lines, received bytes, redirects
-- and a map of cached documents. zlib and curl are stood in for by functions.
mod Streams
mod Documents
mod Compression
mod Elements
mod Sources
mod Reading
mod Prefixes
mod Downloads
mod Strings
mod Parses
use libkolibre_xmlreader.Base.{
  ℕ, ◌+◌, ◌≡◌, ◌≢◌, refl, ◌⊎◌, inl, inr, Bool, true, false, Option, none, some, List, [], ◌∷◌, ◌++◌,
  ◌==◌, if◌then◌else◌, Bytes, codes, length, drop, arith,
}
use libkolibre_xmlreader.Base.Outcome.{Outcome, done, fault, spins, ◌>>=◌}
use libkolibre_xmlreader.Cache.Zlib.{Zlib, ZStep, z_ok, z_stream_end}
use libkolibre_xmlreader.Cache.Object.{
  CacheObject, CacheState, empty, full, new_object, get_state, set_etag, set_last_modified,
}
use libkolibre_xmlreader.Cache.Object.Write.{write_bytes}
use libkolibre_xmlreader.Url.{url2hostname, url2username, url2password}
use libkolibre_xmlreader.Url.Parts.{url_of}
use libkolibre_xmlreader.Url.Authority.{IsPlain, full_url, authority_parts}
use libkolibre_xmlreader.Http.Stream.{
  HttpStream, Easy, Block, null, freed, live, new_stream, destroy, deleted,
}
use libkolibre_xmlreader.Http.Header.{header_callback}
use libkolibre_xmlreader.Http.Header.Lines.{
  header_callback-unquoted_etag, header_callback-empty_etag, conditional_request,
}

abbrev plain_step : ℕ → Bytes → Bool → ZStep ℕ
plain_step s input ended = record {
  stream = s + length input;
  code = if ended then z_stream_end else z_ok;
  taken = length input;
  output = input;
}

-- A codec that leaves its input as it is, and counts it.
abbrev plain : Zlib ℕ
plain = record {
  zeroed = 0;
  deflate_init = λ s. s;
  deflate_set_dictionary = λ s d. s;
  inflate_init = λ s. s;
  inflate_set_dictionary = λ s d. s;
  deflate = λ s finish input avail. plain_step s input finish;
  inflate = λ s input avail. plain_step s input true;
  total_out = λ s. s;
  alloc = λ n. true;
}

plain-alloc : (n : ℕ) → plain.alloc n ≡ true
plain-alloc n = refl

abbrev pub handle : Easy
handle = record { http_header = []; url = []; userpwd = none }

abbrev home : Bytes
home = full_url (codes "http") (codes "ann") (codes "key") (codes "lib.org") (codes "/a")

abbrev fresh : HttpStream ℕ
fresh = new_stream plain home handle none

home-IsPlain : IsPlain (codes "http") (codes "ann") (codes "key") (codes "lib.org") (codes "/a")
home-IsPlain = record {
  scheme_plain = refl;
  user_no_colon = refl;
  user_no_at = refl;
  password_no_at = refl;
  host_plain = refl;
  tail_ends = refl;
}

authority_parts_example :
    (url2hostname home ≡ codes "lib.org")
    × (url2username home ≡ codes "ann")
    × (url2password home ≡ codes "key")
authority_parts_example = authority_parts home-IsPlain

header_callback-unquoted_etag_example :
    header_callback plain (codes "ETag: " ++ (codes "ab" ++ b'c' ∷ codes "\r\n")) 0 fresh
    ≡ done (
        if fresh.use_cache
        then record fresh { cache = set_etag fresh.cache (codes "ab") }
        else fresh)
header_callback-unquoted_etag_example =
    header_callback-unquoted_etag plain plain-alloc 0 fresh (codes "ab") b'c' refl (omega arith)

header_callback-empty_etag_example : header_callback plain (codes "ETag: \r\n") 0 fresh ≡ fault
header_callback-empty_etag_example = header_callback-empty_etag plain plain-alloc 0 fresh

conditional_request_example :
    (t : HttpStream ℕ) × ((header_callback plain
          (codes "Last-Modified: " ++ (codes "May" ++ codes "\r\n"))
          0
          fresh
        >>= header_callback plain (codes "ETag: \"" ++ (codes "ab" ++ codes "\"\r\n")) 0)
      ≡ done t)
    × ((new_stream plain home handle (some t.cache)).easy.http_header
        ≡ codes "Connection: keep-alive"
          ∷ codes "Keep-Alive: 300"
          ∷ (codes "If-Modified-Since: " ++ codes "May")
          ∷ (codes "If-None-Match: \"" ++ (codes "ab" ++ codes "\""))
          ∷ [])
unfolding new_stream
conditional_request_example =
    conditional_request plain plain-alloc 0 0 fresh (codes "May") (codes "ab") home handle refl
      (omega arith) (omega arith) refl refl
