-- ===== src/Xml/Sax.antt =====
-- The callbacks that src/XmlReader.cpp gives to libxml2, and the state of the reader.
--
-- libxml2 is a parameter: a parser's context, which runs up to the next callback it makes. That an
-- application calls the reader from a callback is left out, and so is logging. In a callback
-- `m_context` is the context that makes it, so it is not NULL.
pub mod State
pub mod Elements
pub mod Errors
pub mod Stopped
unfoldable pub use State.*
use libkolibre_xmlreader.Base.{
  ℕ, zero, suc, Bool, true, false, Option, none, some, List, Bytes, codes, find, drop,
  if◌then◌else◌,
}
use libkolibre_xmlreader.Base.Outcome.{Outcome, done, fault, spins, ◌>>=◌}
use libkolibre_xmlreader.Http.Error.{XmlError, Domain, no_domain, Code, no_code}
use libkolibre_xmlreader.Xml.Attributes.{XmlAttributes, new_attributes, split}
use libkolibre_xmlreader.Xml.Namespaces.{Namespaces, new_stack, push_namespaces, uri_for_prefix}
use libkolibre_xmlreader.Xml.Interfaces.{
  XmlContentHandler, start_document, end_document, start_element, end_element, characters,
  processing_instruction, XmlLexicalHandler, start_cdata, end_cdata, comment, XmlErrorHandler,
  warning, error, fatal_error, Implements,
}

module _ {A : Type 0} where
  -- The calls of an interface of the application, through its pointer.
  abbrev pub tell_content :
      XmlContentHandler
      → Option (Implements XmlContentHandler A)
      → XmlReader A
      → Outcome (XmlReader A × Bool)
  tell_content call none r = fault
  tell_content call (some f) r = let (a, b) = f call r.app in done (record r { app = a }, b)

  abbrev pub tell_lexical :
      XmlLexicalHandler
      → Option (Implements XmlLexicalHandler A)
      → XmlReader A
      → Outcome (XmlReader A × Bool)
  tell_lexical call none r = fault
  tell_lexical call (some f) r = let (a, b) = f call r.app in done (record r { app = a }, b)

-- The name behind the first colon, or the whole name.
abbrev pub local_part : Bytes → Bytes
local_part name = elim (find (codes ":") name) [ none ↦ name | some p ↦ drop (suc p) name ]

-- xmlNamespace, whose result is not tested, and uriForPrefix.
abbrev pub uri_of : ℕ → Namespaces → Option ℕ → Bytes → Outcome (Option Bytes)
uri_of fuel ns none name = fault
uri_of fuel ns (some a) name = uri_for_prefix fuel ns.objects a name

module _ {A C : Type 0} where
  -- `if (reader->parserStopped()) return;`
  abbrev pub unless : Bool → Outcome (XmlReader A × C) → XmlReader A → C → Outcome (XmlReader A × C)
  unless true rest r c = done (r, c)
  unless false rest r c = rest

  unfoldable pub start_element_handler :
      ℕ → Bytes → Option (List (Option Bytes)) → XmlReader A → C → Outcome (XmlReader A × C)
  start_element_handler fuel name array r c =
      unless r.parser_stopped
        (new_attributes array >>= λ attributes.
          push_namespaces attributes r.namespaces >>= λ (ns, last).
          uri_of fuel ns ns.top name >>= λ uri.
          tell_content (start_element uri (local_part name) name (split attributes))
            r.content_handler (record r { namespaces = ns })
          >>= λ (r', b). done (r', c))
        r c

  unfoldable pub end_element_handler : ℕ → Bytes → XmlReader A → C → Outcome (XmlReader A × C)
  end_element_handler fuel name r c =
      unless r.parser_stopped
        (uri_of fuel r.namespaces r.namespaces.top name >>= λ uri.
          tell_content (end_element uri (local_part name) name) r.content_handler r >>= λ (r', b).
          libkolibre_xmlreader.Xml.Namespaces.end_element fuel r'.namespaces >>= λ ns.
          done (record r' { namespaces = ns }, c))
        r c

  -- charactersHandler and processingInstructionHandler
  unfoldable pub content_callback : XmlContentHandler → XmlReader A → C → Outcome (XmlReader A × C)
  content_callback call r c =
      unless r.parser_stopped (tell_content call r.content_handler r >>= λ (r', b). done (r', c)) r
        c

  unfoldable pub cdata_block_handler : Bytes → XmlReader A → C → Outcome (XmlReader A × C)
  cdata_block_handler s r c =
      unless r.parser_stopped
        (tell_lexical start_cdata r.lexical_handler r >>= λ (r1, b1).
          tell_content (characters s) r1.content_handler r1 >>= λ (r2, b2).
          tell_lexical end_cdata r2.lexical_handler r2 >>= λ (r3, b3). done (r3, c))
        r c

  unfoldable pub comment_handler : Bytes → XmlReader A → C → Outcome (XmlReader A × C)
  comment_handler s r c = tell_lexical (comment s) r.lexical_handler r >>= λ (r', b). done (r', c)

  unfoldable pub start_document_handler : XmlReader A → C → Outcome (XmlReader A × C)
  start_document_handler r c =
      tell_content start_document r.content_handler r >>= λ (r', b). done (r', c)

  unfoldable pub end_document_handler : XmlReader A → C → Outcome (XmlReader A × C)
  end_document_handler r c =
      tell_content end_document r.content_handler (record r { end_document_called = true })
      >>= λ (r', b). done (r', c)

module _ {C : Type 0} (lib : Libxml C) where
  -- The error that the callbacks for errors make.
  abbrev pub error_of : Option LastError → C → XmlError
  error_of none c = record {
    message = codes "an error occurred";
    domain = no_domain;
    code = no_code;
    column = lib.column c;
    line = lib.line c;
  }
  error_of (some e) c = record {
    message = e.message;
    domain = e.domain;
    code = e.code;
    column = lib.column c;
    line = lib.line c;
  }

module _ {A C : Type 0} (lib : Libxml C) where
  unfoldable pub stop_parsing : XmlReader A → C → XmlReader A × C
  stop_parsing r c = (record r { parser_stopped = true }, lib.stop c)

  -- By what the application answers.
  abbrev pub unless_wanted : Bool → XmlReader A → C → XmlReader A × C
  unless_wanted true r c = (r, c)
  unless_wanted false r c = stop_parsing r c

  abbrev pub report :
      Implements XmlErrorHandler A
      → (XmlError → XmlErrorHandler)
      → XmlError
      → XmlReader A
      → C
      → XmlReader A × C
  report f call e r c =
      let (a, b) = f (call e) r.app in unless_wanted b (record r { last_error = some e; app = a }) c

  abbrev pub warn : Option (Implements XmlErrorHandler A) → XmlReader A → C → XmlReader A × C
  warn none r c = (r, c)
  warn (some f) r c = report f warning (error_of lib (lib.last_error c) c) r c

  unfoldable pub warning_handler : XmlReader A → C → Outcome (XmlReader A × C)
  unfolding stop_parsing
  warning_handler r c = unless r.parser_stopped (done (warn r.error_handler r c)) r c

  -- normalErrorHandler and fatalErrorHandler differ in the call.
  abbrev pub record_error :
      Option (Implements XmlErrorHandler A)
      → (XmlError → XmlErrorHandler)
      → XmlReader A
      → C
      → XmlReader A × C
  record_error none call r c = stop_parsing r c
  record_error (some f) call r c =
      let (r', c') = report f call (error_of lib (lib.last_error c) c) r c in
      (record r' { saw_error = true }, c')

  unfoldable pub normal_error_handler : XmlReader A → C → Outcome (XmlReader A × C)
  unfolding stop_parsing
  normal_error_handler r c =
      unless r.parser_stopped (done (record_error r.error_handler error r c)) r c

  unfoldable pub fatal_error_handler : XmlReader A → C → Outcome (XmlReader A × C)
  unfolding stop_parsing
  fatal_error_handler r c =
      unless r.parser_stopped (done (record_error r.error_handler fatal_error r c)) r c

  -- By whether the entity is predefined.
  abbrev pub give_entity : Bool → XmlReader A → C → Outcome (XmlReader A × C)
  give_entity true r c = done (r, lib.with_entity true c)
  give_entity false r c = warning_handler r c >>= λ (r', c'). done (r', lib.with_entity false c')

  unfoldable pub entity_handler : Bytes → XmlReader A → C → Outcome (XmlReader A × C)
  unfolding warning_handler
  entity_handler name r c = give_entity (lib.is_predefined name) r c

  -- The callbacks that setupSAXHandler sets, by their events.
  unfoldable pub handle : ℕ → Event → XmlReader A → C → Outcome (XmlReader A × C)
  unfolding start_element_handler end_element_handler content_callback cdata_block_handler
      comment_handler start_document_handler end_document_handler normal_error_handler
      fatal_error_handler entity_handler
  handle fuel document_starts r c = start_document_handler r c
  handle fuel document_ends r c = end_document_handler r c
  handle fuel (element_starts name array) r c = start_element_handler fuel name array r c
  handle fuel (element_ends name) r c = end_element_handler fuel name r c
  handle fuel (text s) r c = content_callback (characters s) r c
  handle fuel (instruction target value) r c =
      content_callback (processing_instruction target value) r c
  handle fuel (cdata_block s) r c = cdata_block_handler s r c
  handle fuel (remark s) r c = comment_handler s r c
  handle fuel warns r c = warning_handler r c
  handle fuel errs r c = normal_error_handler r c
  handle fuel errs_fatally r c = fatal_error_handler r c
  handle fuel (asks_entity name) r c = entity_handler name r c
