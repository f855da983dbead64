-- ===== src/Xml/Interfaces.antt =====
-- The interfaces of src/XmlReader.h that an application implements, and src/XmlDefaultHandler.cpp.
-- A call of an interface is a value; an implementation is a function of the call and of the state of
-- the application, which gives the new state and what the call returns. `none` is a NULL pointer.
use libkolibre_xmlreader.Base.{Bool, true, Option, Bytes, []}
use libkolibre_xmlreader.Http.Error.{XmlError}
use libkolibre_xmlreader.Xml.Attributes.{XmlAttributes}

pub data XmlContentHandler : Type 0 where
  start_document end_document : XmlContentHandler
  start_prefix_mapping : Bytes → Bytes → XmlContentHandler
  end_prefix_mapping : Bytes → XmlContentHandler
  -- the namespace, the name without its prefix, and the name
  start_element : Option Bytes → Bytes → Bytes → XmlAttributes → XmlContentHandler
  end_element : Option Bytes → Bytes → Bytes → XmlContentHandler
  characters ignorable_whitespace : Bytes → XmlContentHandler
  processing_instruction : Bytes → Option Bytes → XmlContentHandler
  skipped_entity : Bytes → XmlContentHandler

pub data XmlLexicalHandler : Type 0 where
  start_dtd : Bytes → Bytes → Bytes → XmlLexicalHandler
  end_dtd start_cdata end_cdata : XmlLexicalHandler
  start_entity end_entity comment : Bytes → XmlLexicalHandler

pub data XmlErrorHandler : Type 0 where
  warning error fatal_error : XmlError → XmlErrorHandler

pub data XmlDeclHandler : Type 0 where
  attribute_decl : Bytes → Bytes → Bytes → Bytes → Bytes → XmlDeclHandler
  external_entity_decl : Bytes → Bytes → Bytes → XmlDeclHandler
  internal_entity_decl : Bytes → Bytes → XmlDeclHandler

pub data XmlDtdHandler : Type 0 where
  notation_decl : Bytes → Bytes → Bytes → XmlDtdHandler
  unparsed_entity_decl : Bytes → Bytes → Bytes → Bytes → XmlDtdHandler

-- An implementation of an interface, by an application with a state.
abbrev pub Implements : Type 0 → Type 0 → Type 0
Implements Call A = Call → A → A × Bool

-- XmlDefaultHandler: each method does nothing and returns true.
module _ {A : Type 0} where
  abbrev pub default_content : Implements XmlContentHandler A
  default_content call a = (a, true)

  abbrev pub default_lexical : Implements XmlLexicalHandler A
  default_lexical call a = (a, true)

  abbrev pub default_error : Implements XmlErrorHandler A
  default_error call a = (a, true)

  abbrev pub default_decl : Implements XmlDeclHandler A
  default_decl call a = (a, true)

  abbrev pub default_dtd : Implements XmlDtdHandler A
  default_dtd call a = (a, true)

-- errorString
abbrev pub error_string : Bytes
error_string = []
