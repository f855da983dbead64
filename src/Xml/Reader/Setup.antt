-- ===== src/Xml/Reader/Setup.antt =====
-- src/DataSource.cpp, and setupSAXHandler of src/XmlReader.cpp.
use libkolibre_xmlreader.Base.{Bool, true, false, Option, none, some, Bytes}
use libkolibre_xmlreader.Base.Outcome.{Outcome, done, ◌>>=◌}
use libkolibre_xmlreader.Stream.{InputStream}
use libkolibre_xmlreader.Xml.Interfaces.{
  XmlContentHandler, start_document, end_document, Implements,
}
use libkolibre_xmlreader.Xml.Sax.{
  Event, document_starts, document_ends, element_starts, element_ends, text, cdata_block, remark,
  instruction, warns, errs, errs_fatally, asks_entity, SaxHandler, XmlReader, tell_content,
}

-- What DataStreamHandler gives to DataSource, over an unknown type for the streams and one for the
-- handler.
pub record Source (S H : Type 0) : Type 0 where
  -- newStream, with its tidy flag; `none` is NULL.
  pub new_stream : Bytes → Bool → H → Outcome (H × Option S)
  pub input : InputStream (S × H)
  -- the destructor of a stream
  pub delete : S → H → Outcome H

pub record DataSource (S : Type 0) : Type 0 where
  pub url : Bytes
  pub inpstr : Option S

module _ {S H : Type 0} (source : Source S H) where
  -- The constructor.
  unfoldable pub new_source : Bytes → Bool → H → Outcome (H × DataSource S)
  new_source url tidyflag h =
      source.new_stream url tidyflag h >>= λ (h', s). done (h', record { url = url; inpstr = s })

  -- The destructor.
  unfoldable pub delete_source : Option S → H → Outcome H
  delete_source none h = done h
  delete_source (some s) h = source.delete s h

abbrev pub is_set : {A : Type 0} → Option A → Bool
is_set none = false
is_set (some a) = true

-- The handler of the two preparses: all callbacks are NULL.
abbrev pub null_handler : SaxHandler
null_handler = record {
  errors = false;
  content = false;
  lexical = false;
  warnings = false;
  entities = false;
}

-- The rest of setupSAXHandler, which sets the callbacks.
unfoldable pub sax_handler : {A : Type 0} → XmlReader A → SaxHandler
sax_handler r = record {
  errors = true;
  content = is_set r.content_handler;
  lexical = is_set r.lexical_handler;
  warnings = is_set r.error_handler;
  entities = true;
}

-- Whether libxml2 has a callback for it.
abbrev pub calls : SaxHandler → Event → Bool
calls s document_starts = s.content
calls s document_ends = s.content
calls s (element_starts name array) = s.content
calls s (element_ends name) = s.content
calls s (text x) = s.content
calls s (instruction target value) = s.content
calls s (cdata_block x) = s.lexical
calls s (remark x) = s.lexical
calls s warns = s.warnings
calls s errs = s.errors
calls s errs_fatally = s.errors
calls s (asks_entity name) = s.entities

module _ {A : Type 0} where
  -- setupSAXHandler up to that; the flag is what it returns.
  abbrev pub begin_content :
      Option (Implements XmlContentHandler A) → XmlReader A → XmlReader A × Bool
  begin_content none r = (r, true)
  begin_content (some f) r = let (a, b) = f start_document r.app in (record r { app = a }, b)

  unfoldable pub setup_sax_handler : XmlReader A → XmlReader A × Bool
  setup_sax_handler r = begin_content r.content_handler r

  -- A document that parse found no end of is ended.
  abbrev pub end_content : Bool → XmlReader A → Outcome (XmlReader A)
  end_content true r = tell_content end_document r.content_handler r >>= λ (r', b). done r'
  end_content false r = done r
