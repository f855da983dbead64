-- ===== src/Xml/Sax/State.antt =====
-- The state of the reader of src/XmlReader.h, the callbacks that libxml2 makes, and libxml2 as a
-- parameter.
use libkolibre_xmlreader.Base.{some, ℕ, Bool, true, Option, none, List, Bytes}
use libkolibre_xmlreader.Http.Error.{XmlError, Domain, Code}
use libkolibre_xmlreader.Xml.Namespaces.{Namespaces, new_stack}
use libkolibre_xmlreader.Xml.Interfaces.{
  XmlContentHandler, XmlLexicalHandler, XmlErrorHandler, Implements,
}

pub data Doctype : Type 0 where
  xml html : Doctype

-- A callback that libxml2 makes, with its arguments.
pub data Event : Type 0 where
  document_starts document_ends : Event
  element_starts : Bytes → Option (List (Option Bytes)) → Event
  element_ends : Bytes → Event
  text cdata_block remark : Bytes → Event
  instruction : Bytes → Option Bytes → Event
  warns errs errs_fatally : Event
  asks_entity : Bytes → Event

-- xmlError, as far as it is read.
pub record LastError : Type 0 where
  pub domain : Domain
  pub code : Code
  pub message : Bytes

pub record Libxml (C : Type 0) : Type 0 where
  -- xmlCreatePushParserCtxt and htmlCreatePushParserCtxt
  pub create : Doctype → C
  -- xmlParseChunk and htmlParseChunk: how a call begins, how it comes to its next callback or else to
  -- its end, and what it then returns.
  pub chunk : Doctype → Bytes → C → C
  pub callback : C → C × Option Event
  pub result : C → ℕ
  -- xmlStopParser, xmlGetLastError, xmlCtxtGetLastError
  pub stop : C → C
  pub last_error : C → Option LastError
  pub context_error : C → Option LastError
  -- `input->col` and `input->line`
  pub column : C → ℕ
  pub line : C → ℕ
  -- xmlGetPredefinedEntity; and going on with what it gave, or with xmlEntityUnknown.
  pub is_predefined : Bytes → Bool
  pub with_entity : Bool → C → C

-- xmlSAXHandler: which callbacks are set.
pub record SaxHandler : Type 0 where
  pub errors : Bool
  pub content : Bool
  pub lexical : Bool
  pub warnings : Bool
  pub entities : Bool

pub record XmlReader (A : Type 0) : Type 0 where
  pub content_handler : Option (Implements XmlContentHandler A)
  pub lexical_handler : Option (Implements XmlLexicalHandler A)
  pub error_handler : Option (Implements XmlErrorHandler A)
  pub doctype : Doctype
  pub last_error : Option XmlError
  pub parser_stopped : Bool
  pub saw_error : Bool
  pub end_document_called : Bool
  pub use_cache : Bool
  pub namespaces : Namespaces
  -- the state of the application
  pub app : A

-- The constructor; it does not set three of the flags, which have what the memory has.
abbrev pub new_reader : {A : Type 0} → Bool → Bool → Bool → A → XmlReader A
new_reader stopped saw ended a = record {
  content_handler = none;
  lexical_handler = none;
  error_handler = none;
  doctype = xml;
  last_error = none;
  parser_stopped = stopped;
  saw_error = saw;
  end_document_called = ended;
  use_cache = true;
  namespaces = new_stack;
  app = a;
}

module _ {A : Type 0} where
  unfoldable pub set_content_handler :
      Option (Implements XmlContentHandler A) → XmlReader A → XmlReader A
  set_content_handler f r = record r { content_handler = f }

  unfoldable pub set_error_handler :
      Option (Implements XmlErrorHandler A) → XmlReader A → XmlReader A
  set_error_handler f r = record r { error_handler = f }

  unfoldable pub set_lexical_handler :
      Option (Implements XmlLexicalHandler A) → XmlReader A → XmlReader A
  set_lexical_handler f r = record r { lexical_handler = f }

  -- useCache
  unfoldable pub use_reader_cache : Bool → XmlReader A → XmlReader A
  use_reader_cache setting r = record r { use_cache = setting }

-- lineNumber and columnNumber of `m_context`; `none` is -1.
module _ {C : Type 0} (lib : Libxml C) where
  abbrev pub line_number : Option C → Option ℕ
  line_number none = none
  line_number (some c) = some (lib.line c)

  abbrev pub column_number : Option C → Option ℕ
  column_number none = none
  column_number (some c) = some (lib.column c)
