-- ===== src/Tests/Downloads.antt =====
-- Downloads of src/HttpStream.cpp at concrete inputs.
use libkolibre_xmlreader.Base.{
  map, inl, true, ◌≤◌, joined, length, ℕ, ◌+◌, ◌≡◌, refl, false, none, some, List, [], ◌∷◌, Bytes,
  codes, arith,
}
use libkolibre_xmlreader.Base.Outcome.{done}
use libkolibre_xmlreader.Cache.Object.{CacheObject, new_object}
use libkolibre_xmlreader.Http.Read.Unchanged.{unchanged}
use libkolibre_xmlreader.Http.Read.Storing.{IsStoring, Serves-stored}
use libkolibre_xmlreader.Http.Read.Heads.{Takes}
use libkolibre_xmlreader.Http.Read.Condition.{begun}
use libkolibre_xmlreader.Http.Header.{header_callback}
use libkolibre_xmlreader.Http.Read.{run_callbacks, body, conclude}
use libkolibre_xmlreader.Cache.Object.Pack.{IsIdle}
use libkolibre_xmlreader.Http.Transfer.Holding.{Holds}
use libkolibre_xmlreader.Http.Transfer.Fifo.{Delivers}
use libkolibre_xmlreader.Tests.Compression.{
  copying, Uncopied, copying-IsLossless, two_parts, two_parts-Packs, new_object-IsIdle,
}
use libkolibre_xmlreader.Http.Read.{Perform, Env}
use libkolibre_xmlreader.Http.Read.Bodies.{IsPlainRead}
use libkolibre_xmlreader.Http.Read.Script.{part, Transfers, last, more}
use libkolibre_xmlreader.Http.Read.Download.{http_input-Serves}
use libkolibre_xmlreader.Http.Read.Input.{http_input}
use libkolibre_xmlreader.Http.Stream.{HttpStream, new_stream, free, null, destroy, stored}
use libkolibre_xmlreader.Stream.{Serves}
use libkolibre_xmlreader.Http.Error.{curle_ok}
use libkolibre_xmlreader.Http.Read.{completed}
use libkolibre_xmlreader.Tests.{plain, plain-alloc, handle}
use libkolibre_xmlreader.Tests.Streams.{holding_abc, holding_abc-Holds}

abbrev pub plain_env : Env ℕ
plain_env = record { zlib = plain; strerror = λ _. []; get_cached = λ _. none }

-- Seven bytes in three bodies, over two calls.
abbrev pub two_calls : List Perform
two_calls =
    part (codes "de" ∷ codes "fg" ∷ []) false 1 []
    ∷ part (codes "hij" ∷ []) false 0 (completed curle_ok 200 ∷ [])
    ∷ []

abbrev pub two_calls-Transfers : (n : ℕ) → 2 ≤ n → Transfers n two_calls (codes "defghij")
two_calls-Transfers n h =
    more (codes "de" ∷ codes "fg" ∷ []) false 0
      (part (codes "hij" ∷ []) false 0 (completed curle_ok 200 ∷ []) ∷ []) (codes "hij") refl refl
      (omega arith) (last (codes "hij" ∷ []) false refl refl (omega arith))

holding_abc-IsPlainRead : (room : ℕ) → IsPlainRead (holding_abc room)
unfolding new_stream new_object
holding_abc-IsPlainRead room = record { not_stored = refl; not_cached = refl; no_error = refl }

http_input-Serves_example :
    (t : HttpStream ℕ) × (pieces : List Bytes) × Serves
      (http_input plain_env 5)
      2
      (holding_abc 0, two_calls)
      pieces
      (t, [])
    × (joined pieces ≡ codes "abcdefghij")
    × (let s = holding_abc 0 in t.total_bytes_read ≡ s.total_bytes_read + 10)
http_input-Serves_example =
    http_input-Serves plain_env 2 plain-alloc (omega arith) (omega arith) 5 two_calls
      (codes "defghij") (holding_abc 0) (codes "abc") (two_calls-Transfers 2 (omega arith))
      (omega arith) (holding_abc-Holds 0) (holding_abc-IsPlainRead 0) (omega arith)

abbrev copying_env : Env ℕ
copying_env = record { zlib = copying; strerror = λ _. []; get_cached = λ _. none }

-- A stream that was told to store the five bytes that it receives, while its caller asks for eight.
abbrev storing : HttpStream ℕ
storing = record (new_stream copying (codes "a") handle none) {
  store_cache = true;
  bytes_to_read = 8;
  content_length_response = 5;
}

storing-IsIdle : IsIdle storing.cache
unfolding new_stream new_object
storing-IsIdle = new_object-IsIdle

storing-IsStoring : IsStoring storing
unfolding new_stream
storing-IsStoring = record { in_use = refl; stores = refl }

storing-Holds : Holds storing []
unfolding new_stream
storing-Holds = record { block = refl; size = refl; head = refl }

storing-location : free storing.location ≡ done null
unfolding new_stream free
storing-location = refl

storing-content_length :
    storing.content_length_response ≡ storing.total_bytes_read + (0 + length (codes "abcde"))
unfolding new_stream
storing-content_length = refl

-- The header lines of a response 304, each with the byte behind it.
abbrev unmodified : List (Bytes × ℕ)
unmodified =
    (codes "HTTP/1.1 304 Not Modified\r\n", 0)
    ∷ (codes "ETag: \"v1\"\r\n", 0)
    ∷ (codes "\r\n", 0)
    ∷ []

unmodified-Takes :
    (c : CacheObject ℕ)
    → Takes copying_env unmodified (begun 2 (new_stream copying (codes "a") handle (some c)))
unfolding run_callbacks header_callback new_stream
unmodified-Takes c = (_, refl)

Serves-stored_example :
    (t : HttpStream ℕ) × (rest : Bytes) × (c : CacheObject ℕ) × (run_callbacks copying_env 20
        (map body two_parts)
        storing
      ≡ done t)
    × Delivers storing [] (codes "abcde") t rest
    × (destroy copying 20 (conclude copying_env t).0 ≡ done (stored t.url c))
    × (u : HttpStream ℕ) × (pieces : List Bytes) × Serves
        (http_input copying_env 20)
        2
        (
          new_stream copying (codes "a") handle (some c),
          unchanged copying_env unmodified false 0 ∷ [],
        )
        pieces
        (u, [])
    × (joined pieces ≡ codes "abcde")
Serves-stored_example =
    Serves-stored copying_env Uncopied 20 2 two_parts (codes "abcde") storing [] null (codes "a")
      handle unmodified false 0 [] copying-IsLossless plain-alloc (omega arith) (omega arith)
      storing-Holds (inl refl) storing-IsStoring storing-location storing-IsIdle (omega arith)
      storing-content_length two_parts-Packs unmodified-Takes (omega arith)
