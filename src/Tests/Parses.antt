-- ===== src/Tests/Parses.antt =====
-- A parse over HTTP (src/XmlReader.cpp, src/HttpStream.cpp) at a concrete input.
use libkolibre_xmlreader.Base.{
  ℕ, ◌≡◌, refl, inl, Bool, true, false, map, not, Option, none, some, List, [], ◌∷◌, ◌++◌, joined,
  Bytes, codes, arith,
}
use libkolibre_xmlreader.Base.Outcome.{Outcome, done}
use libkolibre_xmlreader.Http.Read.{Perform}
use libkolibre_xmlreader.Http.Stream.{HttpStream, new_stream, use_cache}
use libkolibre_xmlreader.Xml.Reader.{parse, parse_chunk}
use libkolibre_xmlreader.Xml.Reader.Downloads.{http_source, fresh, parse-new_stream}
use libkolibre_xmlreader.Http.Header.{header_callback, atol}
use libkolibre_xmlreader.Http.Read.{run_callbacks}
use libkolibre_xmlreader.Http.Read.Condition.{begun}
use libkolibre_xmlreader.Http.Read.Opening.{Opening, call_of, Opens}
use libkolibre_xmlreader.Xml.Reader.Pieces.{Feeds, fed, feeds, without_mark, cleared}
use libkolibre_xmlreader.Xml.Sax.{Libxml, XmlReader}
use libkolibre_xmlreader.Tests.{plain-alloc, handle as easy}
use libkolibre_xmlreader.Tests.Downloads.{plain_env, two_calls, two_calls-Transfers}
use libkolibre_xmlreader.Tests.Reading.{Context, parser, reader, callbacks, start}

-- A parser that takes each chunk and makes no event of it.
abbrev patient : Libxml Context
patient = record parser {
  chunk = λ d bytes c. record c { taken = c.taken ++ bytes };
  callback = λ c. (c, none);
  result = λ c. 0;
}

patient-Feeds :
    (pieces : List Bytes) (r : XmlReader ℕ) (c : Context)
    → (c' : Context) × Feeds patient 8 callbacks pieces r c r c'
unfolding parse_chunk
patient-Feeds [] r c = (c, fed)
patient-Feeds (p ∷ rest) r c =
    let (c', f) = patient-Feeds rest r (record c { taken = c.taken ++ p }) in (c', feeds refl f)

abbrev no_new : Bytes → Bool → ℕ → Outcome (ℕ × Option (HttpStream ℕ × List Perform))
no_new url tidyflag h = done (h, none)

abbrev closes : HttpStream ℕ × List Perform → ℕ → Outcome ℕ
closes s h = done h

-- A call while the connection is made, and one with the header lines.
abbrev greeting : List Opening
greeting =
    record { lines = []; call_again = true; others = 0 }
    ∷ record {
      lines =
          (codes "HTTP/1.1 200 OK\r\n", 0)
          ∷ (codes "Content-Length: 7\r\n", 0)
          ∷ (codes "\r\n", 0)
          ∷ [];
      call_again = false;
      others = 0;
    }
    ∷ []

abbrev offline : XmlReader ℕ
offline = record reader { use_cache = false }

abbrev waiting : HttpStream ℕ
waiting = begun 4096 (fresh plain_env (codes "a") easy false none)

-- What the header lines leave.
abbrev greeted : HttpStream ℕ
greeted = record waiting { store_cache = true; content_length_response = 7 }

greeting-Opens : Opens plain_env greeting waiting greeted
unfolding run_callbacks header_callback new_stream use_cache atol
greeting-Opens = (waiting, refl, (greeted, refl, refl))

parse-new_stream_example :
    (t : HttpStream ℕ) × (pieces : List Bytes) × (r' : XmlReader ℕ) × (c' : Context) × (parse
        patient
        (http_source plain_env 8 no_new closes)
        8
        callbacks
        8
        (some (new_stream plain_env.zlib (codes "a") easy none, map call_of greeting ++ two_calls))
        7
        offline
        start
      ≡ done (some (t, []), 7, r', c', not r'.saw_error))
    × (joined pieces ≡ codes "defghij")
    × Feeds patient 8 callbacks (without_mark pieces) (cleared offline) start r' c'
    × (t.total_bytes_read ≡ 7)
parse-new_stream_example =
    parse-new_stream plain_env plain-alloc patient 8 callbacks no_new closes 8 (codes "a") easy none
      greeting two_calls (codes "defghij") greeted 7 offline start refl greeting-Opens
      (two_calls-Transfers 4096 (omega arith)) (inl (omega arith)) (omega arith) (omega arith)
      (λ pieces e.
        let (c', f) = patient-Feeds (without_mark pieces) (cleared offline) start in
        (cleared offline, c', f))
