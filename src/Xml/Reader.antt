-- ===== src/Xml/Reader.antt =====
-- src/DataSource.cpp and the parsing of src/XmlReader.cpp: parse, parseXml and parseHtml.
--
-- The streams that the stream handler makes are a parameter. A stream and the handler change
-- together, since streams read the handler's cache.
pub mod Setup
pub mod Pieces
pub mod Ends
pub mod Html
pub mod Failures
pub mod Files
pub mod Downloads
pub mod Invariant
unfoldable pub use Setup.*
use libkolibre_xmlreader.Base.{
  ℕ, zero, suc, ◌+◌, ◌-◌, ◌/◌, ◌%◌, Bool, true, false, not, ◌&&◌, Option, none, some, [], ◌∷◌, ◌++◌,
  leb, ◌==◌, if◌then◌else◌, Bytes, codes, starts_with, drop, length,
}
use libkolibre_xmlreader.Base.Outcome.{Outcome, done, fault, spins, ◌>>=◌}
use libkolibre_xmlreader.Http.Error.{
  XmlError, xml_error, xml_from_parser, xml_from_io, no_code, parser_code, stream_code, ErrorCode,
}
use libkolibre_xmlreader.Stream.{InputStream, Got, got, failed, raised}
use libkolibre_xmlreader.Xml.Interfaces.{
  XmlContentHandler, start_document, end_document, Implements,
}
use libkolibre_xmlreader.Xml.Sax.{
  Doctype, xml, html, Event, document_starts, document_ends, element_starts, element_ends, text,
  cdata_block, remark, instruction, warns, errs, errs_fatally, asks_entity, LastError, Libxml,
  SaxHandler, XmlReader, tell_content, handle,
}

-- The decimal digits of a number, before those at hand; as much fuel as the number is enough.
abbrev pub decimal : ℕ → ℕ → Bytes → Bytes
decimal zero n rest = (48 + n % 10) ∷ rest
decimal (suc fuel) n rest =
    let more = decimal fuel (n / 10) ((48 + n % 10) ∷ rest) in
    if n / 10 == 0 then (48 + n % 10) ∷ rest else more

-- The byte order mark of UTF-8.
abbrev pub mark : Bytes
mark = 239 ∷ 187 ∷ 191 ∷ []

-- The bytes that were read, less the mark, and whether it is looked for in the next read too.
abbrev pub unmarked : Bool → Bytes → Bool × Bytes
unmarked look bytes =
    if look && leb 3 (length bytes)
    then (false, if starts_with mark bytes then drop 3 bytes else bytes)
    else (look, bytes)

-- Whether no bytes are left, so that their number is not above 0.
abbrev pub is_empty : Bytes → Bool
is_empty [] = true
is_empty (x ∷ xs) = false

abbrev pub fails : {A : Type 0} → XmlError → XmlReader A → XmlReader A
fails e r = record r { saw_error = true; last_error = some e }

module _ {C : Type 0} (lib : Libxml C) where
  -- The error of a chunk that was not parsed, by what xmlCtxtGetLastError gives.
  abbrev pub chunk_error : Option LastError → ℕ → C → XmlError
  chunk_error (some e) ret c = record {
    message = e.message;
    domain = e.domain;
    code = e.code;
    column = lib.column c;
    line = lib.line c;
  }
  chunk_error none ret c = record {
    message = codes "Error id: " ++ decimal ret ret [];
    domain = xml_from_parser;
    code = parser_code ret;
    column = lib.column c;
    line = lib.line c;
  }

module _ {A C : Type 0} (lib : Libxml C) (fuel : ℕ) where
  -- libxml2 makes a callback if it is set.
  abbrev pub callback : Bool → Event → XmlReader A → C → Outcome (XmlReader A × C)
  callback true e r c = handle lib fuel e r c
  callback false e r c = done (r, c)

  -- A call of parseChunk goes on to its end.
  unfoldable pub drive : ℕ → SaxHandler → XmlReader A → C → Outcome (XmlReader A × C)
  drive zero s r c = spins
  drive (suc k) s r c =
      let (c1, event) = lib.callback c in
      elim event [
        | none ↦ done (r, c1)
        | some e ↦ callback (calls s e) e r c1 >>= λ (r', c'). drive k s r' c'
      ]

  -- parseChunk: the number is what it returns.
  unfoldable pub parse_chunk : SaxHandler → Bytes → XmlReader A → C → Outcome (XmlReader A × C × ℕ)
  unfolding drive
  parse_chunk s bytes r c =
      drive fuel s r (lib.chunk r.doctype bytes c) >>= λ (r', c'). done (r', c', lib.result c')

-- What the loop of parse comes to: the stream, the reader, libxml2, and the flag that is returned.
abbrev pub Parsed : Type 0 → Type 0 → Type 0 → Type 0 → Type 0
Parsed A C S H = (S × H) × XmlReader A × C × Bool

module _ {A C S H : Type 0} (lib : Libxml C) (source : Source S H) (fuel : ℕ) (s : SaxHandler) where
  -- The turn of the loop of parse, from its end on: what goes on after a chunk, by what parseChunk
  -- gave. libxml2 is told to stop after it is asked for the error.
  abbrev pub after_chunk :
      (Bool → S × H → XmlReader A → C → Outcome (Parsed A C S H))
      → Bool
      → S × H
      → XmlReader A × C × ℕ
      → Outcome (Parsed A C S H)
  after_chunk loop look x (r, c, ret) =
      if ret == 0
      then loop look x r c
      else done
          (x, fails (chunk_error lib (lib.context_error c) ret (lib.stop c)) r, lib.stop c, false)

  -- With what is left of the bytes that were read.
  abbrev pub after_mark :
      (Bool → S × H → XmlReader A → C → Outcome (Parsed A C S H))
      → S × H
      → XmlReader A
      → C
      → Bool × Bytes
      → Outcome (Parsed A C S H)
  after_mark loop x r c (look, left) = elim (is_empty left) [
    | true ↦ done (x, r, c, not r.saw_error)
    | false ↦ parse_chunk lib fuel s left r c >>= after_chunk loop look x
  ]

  -- With what readBytes gave.
  abbrev pub after_read :
      (Bool → S × H → XmlReader A → C → Outcome (Parsed A C S H))
      → Bool
      → XmlReader A
      → C
      → (S × H) × Got
      → Outcome (Parsed A C S H)
  after_read loop look r c (x, raised e) = done (x, fails e r, c, false)
  after_read loop look r c (x, failed) = done (
    x,
    fails
        (xml_error xml_from_io (stream_code (source.input.error_code x)) (source.input.error_msg x))
        r,
    lib.stop c,
    false,
  )
  after_read loop look r c (x, got bytes) = after_mark loop x r c (unmarked look bytes)

  -- The loop, with a bound on the reads; the flag is what parse returns.
  unfoldable pub parse_loop : ℕ → Bool → S × H → XmlReader A → C → Outcome (Parsed A C S H)
  unfolding parse_chunk
  parse_loop zero look x r c = spins
  parse_loop (suc k) look x r c =
      source.input.read_bytes 4096 x >>= after_read (parse_loop k) look r c

  -- parse, with what makeStream gives.
  unfoldable pub parse :
      ℕ → Option S → H → XmlReader A → C → Outcome (Option S × H × XmlReader A × C × Bool)
  unfolding parse_loop
  parse k none h r c = done (
    none,
    h,
    record r {
      last_error = some (xml_error xml_from_parser no_code (codes "Failed to create InputStream"));
    },
    c,
    false,
  )
  parse k (some x) h r c =
      parse_loop k true (source.input.use_cache r.use_cache (x, h))
        (record r { parser_stopped = false; saw_error = false; end_document_called = false }) c
      >>= λ (x', r', c', b). done (some x'.0, x'.1, r', c', b)

module _ {A C S H : Type 0} (lib : Libxml C) (source : Source S H) (fuel k : ℕ) (uri : Bytes) where
  -- A document is parsed with the application's handlers.
  unfoldable pub parse_handled : Bool → Doctype → H → XmlReader A → Outcome (H × XmlReader A × Bool)
  unfolding new_source delete_source parse sax_handler
  parse_handled false d h r = done (
    h,
    record r {
      last_error =
          some (xml_error xml_from_parser no_code (codes "Failed to initialize SAX callbacks"));
    },
    false,
  )
  parse_handled true d h r = new_source source uri false h >>= λ (h1, ds).
      parse lib source fuel (sax_handler r) k ds.inpstr h1 r (lib.create d)
      >>= λ (x, h2, r2, c, ok).
          end_content (is_set r2.content_handler && not r2.end_document_called) r2 >>= λ r3.
          delete_source source x h2 >>= λ h3. done (h3, r3, ok)

  unfoldable pub parse_xml : H → XmlReader A → Outcome (H × XmlReader A × Bool)
  unfolding setup_sax_handler parse_handled
  parse_xml h r =
      let (r1, ok) = setup_sax_handler (record r { doctype = xml }) in parse_handled ok xml h r1

  -- A preparse, of the document as it is or tidied.
  unfoldable pub preparse : Bool → H → XmlReader A → Outcome (H × XmlReader A × Bool)
  unfolding new_source delete_source parse
  preparse tidyflag h r = new_source source uri tidyflag h >>= λ (h1, ds).
      parse lib source fuel null_handler k ds.inpstr h1 r (lib.create html)
      >>= λ (x, h2, r2, c, ok). delete_source source x h2 >>= λ h3. done (h3, r2, ok)

  -- The part of parseHtml behind the preparses.
  unfoldable pub parse_valid : H × XmlReader A × Bool → Outcome (H × XmlReader A × Bool)
  unfolding setup_sax_handler parse_handled
  parse_valid (h, r, true) = let (r1, ok) = setup_sax_handler r in parse_handled ok html h r1
  parse_valid (h, r, false) = done (h, r, false)

  -- The second preparse follows when the first one failed.
  abbrev pub preparse_tidied : H × XmlReader A × Bool → Outcome (H × XmlReader A × Bool)
  preparse_tidied (h, r, true) = done (h, r, true)
  preparse_tidied (h, r, false) = preparse true h r

  unfoldable pub parse_html : H → XmlReader A → Outcome (H × XmlReader A × Bool)
  unfolding preparse parse_valid
  parse_html h r =
      preparse false h (record r { doctype = html }) >>= preparse_tidied >>= parse_valid
