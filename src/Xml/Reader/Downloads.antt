-- ===== src/Xml/Reader/Downloads.antt =====
-- A parse of a document over HTTP: parse of src/XmlReader.cpp over a stream of src/HttpStream.cpp.
use libkolibre_xmlreader.Base.{
  ℕ, ◌+◌, ◌≤◌, ◌<◌, ◌≡◌, refl, ap, Bool, true, false, not, ◌&&◌, Option, none, some, List, [], ◌∷◌,
  ◌++◌, map, ◌∙◌, joined, Bytes, length, length-append, arith,
}
use libkolibre_xmlreader.Base.Outcome.{Outcome, done}
use libkolibre_xmlreader.Cache.Object.{CacheObject}
use libkolibre_xmlreader.Http.Read.{Perform, Env}
use libkolibre_xmlreader.Http.Read.Bodies.{IsPlainRead}
use libkolibre_xmlreader.Http.Read.Download.{http_input-IsLong}
use libkolibre_xmlreader.Http.Read.Input.{http_input}
use libkolibre_xmlreader.Http.Read.Opening.{Opening, call_of, Opens}
use libkolibre_xmlreader.Http.Read.Condition.{begun}
use libkolibre_xmlreader.Http.Read.Script.{Transfers, StartsLong}
use libkolibre_xmlreader.Http.Stream.{HttpStream, Easy, new_stream, use_cache}
use libkolibre_xmlreader.Http.Transfer.Holding.{Holds}
use libkolibre_xmlreader.Stream.{InputStream, Serves, ends, serves}
use libkolibre_xmlreader.Xml.Reader.{Source, parse}
use libkolibre_xmlreader.Xml.Reader.Files.{beside, Serves-beside}
use libkolibre_xmlreader.Xml.Reader.Pieces.{Feeds, without_mark, cleared, parse-Feeds}
use libkolibre_xmlreader.Xml.Sax.{Libxml, SaxHandler, XmlReader}

-- No piece is empty.
length-Serves :
    {S : Type 0} (i : InputStream S) (n : ℕ) (s t : S) (pieces : List Bytes)
    → Serves i n s pieces t
    → length pieces ≤ length (joined pieces)
length-Serves i n s t [] (ends e) = omega arith
length-Serves i n s t ([] ∷ rest) served = elim served [ ]
length-Serves i n s t ((x ∷ xs) ∷ rest) (serves {t = u} e le served) =
    omega (arith, length-append (x ∷ xs) (joined rest), length-Serves i n u t rest served)

-- A source of HTTP streams, whatever makes and deletes them.
abbrev pub http_source :
    {Z H : Type 0} (env : Env Z) (fuel : ℕ)
    → (Bytes → Bool → H → Outcome (H × Option (HttpStream Z × List Perform)))
    → (HttpStream Z × List Perform → H → Outcome H)
    → Source (HttpStream Z × List Perform) H
http_source env fuel new delete = record {
  new_stream = new;
  input = beside (http_input env fuel);
  delete = delete;
}

and_false : (b : Bool) → (b && false) ≡ false
and_false true = refl
and_false false = refl

module _ {Z : Type 0} (env : Env Z) (url : Bytes) (easy : Easy) (b : Bool) where
  -- A new stream, once the reader told it whether to use the cache.
  abbrev pub fresh : Option (CacheObject Z) → HttpStream Z
  fresh p = use_cache (new_stream env.zlib url easy p) b

  fresh-Holds :
      (p : Option (CacheObject Z))
      → Holds (fresh p) []
        × IsPlainRead (fresh p)
        × (let s = fresh p in (s.total_bytes_read ≡ 0) × (s.use_cache ≡ b))
  unfolding new_stream use_cache
  fresh-Holds none = (
    record { block = refl; size = refl; head = refl },
    record { not_stored = and_false b; not_cached = refl; no_error = refl },
    (refl, refl),
  )
  fresh-Holds (some c) = (
    record { block = refl; size = refl; head = refl },
    record { not_stored = and_false b; not_cached = refl; no_error = refl },
    (refl, refl),
  )

module _ {Z A C H : Type 0} (env : Env Z) (alloc_ok : (m : ℕ) → env.zlib.alloc m ≡ true)
    (lib : Libxml C) (fuel : ℕ) (s : SaxHandler)
    (new : Bytes → Bool → H → Outcome (H × Option (HttpStream Z × List Perform)))
    (delete : HttpStream Z × List Perform → H → Outcome H) where
  -- A document that curl transfers is parsed whole, where the reader makes no use of the cache: parse
  -- of a new stream for it hands libxml2, in some pieces, all the bytes that curl hands over, in order,
  -- less a byte order mark at the front, and returns true unless an error was recorded on the way; it
  -- has then read each byte. The conditions are that the first calls of curl bring the header lines, if
  -- any, which headerCallback takes with no undefined read; that the later ones hand over bodies only,
  -- none more than 8192 bytes, the first that brings something more than three, and the last reports
  -- status 200; that memory is not refused; that libxml2 takes the pieces of the document, whatever
  -- they are, without an error code; and that the fuel is above the number of calls, and the loop's
  -- bound above that of bytes.
  pub parse-new_stream :
      (k : ℕ) (url : Bytes) (easy : Easy) (p : Option (CacheObject Z)) (openings : List Opening)
      (script : List Perform) (out : Bytes) (u : HttpStream Z) (h : H) (r : XmlReader A) (c : C)
      → r.use_cache ≡ false
      → Opens env openings (begun 4096 (fresh env url easy r.use_cache p)) u
      → (q : Transfers 4096 script out) → StartsLong q
      → length openings + length script + 1 < fuel
      → length out < k
      → ((pieces : List Bytes)
          → joined pieces ≡ out
          → (r' : XmlReader A) × (c' : C) × Feeds lib fuel s
              (without_mark pieces)
              (cleared r)
              c
              r'
              c')
      → (t : HttpStream Z) × (pieces : List Bytes) × (r' : XmlReader A) × (c' : C) × (parse lib
            (http_source env fuel new delete)
            fuel
            s
            k
            (some (new_stream env.zlib url easy p, map call_of openings ++ script))
            h
            r
            c
          ≡ done (some (t, []), h, r', c', not r'.saw_error))
        × (joined pieces ≡ out)
        × Feeds lib fuel s (without_mark pieces) (cleared r) c r' c'
        × (t.total_bytes_read ≡ length out)
  parse-new_stream k url easy p openings script out u h r c off opens q starts enough le takes =
      let full = map call_of openings ++ script in
      let x : HttpStream Z × List Perform = (fresh env url easy r.use_cache p, full) in
      let (v, plain, (zero_read, used)) = fresh-Holds env url easy r.use_cache p in
      let (t, pieces, served, whole, total, long) =
        http_input-IsLong env 4096 alloc_ok (omega arith) (omega arith) fuel openings script out
          (fresh env url easy r.use_cache p) u opens q enough v (used ∙ off) plain (omega arith)
          starts in
      let (r', c', feeding) = takes pieces whole in
      (
        t,
        pieces,
        r',
        c',
        parse-Feeds lib (http_source env fuel new delete) fuel s k pieces
            (new_stream env.zlib url easy p, full) h ((t, []), h) r r' c c' long
            (omega (
              arith,
              length-Serves (http_input env fuel) 4096 x (t, []) pieces served,
              ap length whole,
              le,
            ))
            (Serves-beside (http_input env fuel) 4096 x (t, []) pieces h served) feeding,
        whole,
        feeding,
        omega (arith, total, zero_read),
      )
