-- ===== src/Http/Error.antt =====
-- src/XmlError.h: an error with its domain, code, message and place; and the codes of
-- src/InputStream.h. The numbers that libxml2 and curl give to their codes are not part of the
-- repository: the codes that the sources name are constructors.
use libkolibre_xmlreader.Base.{ℕ, Bool, true, false, Bytes}

-- CURLcode, as far as HttpStream::readBytes tells the codes apart.
pub data CurlCode : Type 0 where
  curle_ok curle_remote_file_not_found curle_unsupported_protocol : CurlCode
  curle_couldnt_resolve_host curle_couldnt_resolve_proxy curle_couldnt_connect : CurlCode
  curle_recv_error : CurlCode
  curle_other : ℕ → CurlCode

-- InputStream::ErrorCode; `no_error` is NONE.
pub data ErrorCode : Type 0 where
  no_error ok not_found access_denied read_failed connect_failed unknown_error : ErrorCode

pub data Domain : Type 0 where
  xml_from_parser xml_from_io xml_from_http : Domain
  -- -1, and a number of libxml2's
  no_domain : Domain
  other_domain : ℕ → Domain

-- The code of an error: one of libxml2's, an HTTP status, a code of curl, the code of a stream, or -1.
pub data Code : Type 0 where
  xml_io_eacces xml_io_enoent xml_io_eio xml_io_efault : Code
  status : ℕ → Code
  curl : CurlCode → Code
  parser_code : ℕ → Code
  stream_code : ErrorCode → Code
  no_code : Code

pub record XmlError : Type 0 where
  pub message : Bytes
  pub domain : Domain
  pub code : Code
  pub column : ℕ
  pub line : ℕ

-- The constructor that is given no place.
abbrev pub xml_error : Domain → Code → Bytes → XmlError
xml_error d c m = record { message = m; domain = d; code = c; column = 0; line = 0 }

abbrev pub is_no_error : ErrorCode → Bool
is_no_error no_error = true
is_no_error _ = false
