-- ===== src/File.antt =====
-- src/FileStream.h and src/FileStream.cpp: a stream that reads a file, or the cached document of its
-- name. The operating system is a parameter: what stat, fopen, fread and ferror do, and the text that
-- strerror has for the error at hand. Logging is left out.
pub mod Whole
use libkolibre_xmlreader.Base.{
  ℕ, ◌+◌, Bool, true, false, Option, none, some, List, [], ◌∷◌, ◌++◌, ◌||◌, if◌then◌else◌, Bytes,
  bytes_eq, codes, length,
}
use libkolibre_xmlreader.Base.Outcome.{Outcome, done, fault, ◌>>=◌}
use libkolibre_xmlreader.Cache.Object.{CacheObject, reset_state}
use libkolibre_xmlreader.Cache.Object.Read.{read_bytes}
use libkolibre_xmlreader.Cache.Zlib.{Zlib}
use libkolibre_xmlreader.Http.Error.{ErrorCode, unknown_error, access_denied, read_failed}
use libkolibre_xmlreader.Stream.{Got, got, failed, InputStream}

-- Over an unknown type for an open file.
pub record Files (F : Type 0) : Type 0 where
  -- stat: the size, or why not.
  pub size_of : Bytes → Option ℕ
  pub size_error : Bytes → Bytes
  -- fopen for reading
  pub fopen : Bytes → Option F
  pub open_error : Bytes → Bytes
  -- fread: the bytes read, at most as many as asked for; then ferror.
  pub read : F → ℕ → F × Bytes
  pub has_error : F → Bool
  pub read_error : F → Bytes

pub data ParseMode : Type 0 where
  read cached : ParseMode

-- The constructor sets neither `mErrorMsg` to a text nor `mErrorCode` at all; they are read only once
-- a call has failed, which sets both.
pub record FileStream (Z F : Type 0) : Type 0 where
  pub mode : ParseMode
  pub cache : Option (CacheObject Z)
  pub filename : Bytes
  pub total_bytes_read : ℕ
  pub size : ℕ
  pub fp : Option F
  pub use_cache : Bool
  pub is_open : Bool
  pub error_msg : Bytes
  pub error_code : ErrorCode

module _ {Z F : Type 0} where
  -- The constructor.
  unfoldable pub new_file : Bytes → Option (CacheObject Z) → FileStream Z F
  new_file filename none = record {
    mode = read;
    cache = none;
    filename = filename;
    total_bytes_read = 0;
    size = 0;
    fp = none;
    use_cache = false;
    is_open = false;
    error_msg = [];
    error_code = unknown_error;
  }
  new_file filename (some o) = record {
    mode = cached;
    cache = some o;
    filename = filename;
    total_bytes_read = 0;
    size = 0;
    fp = none;
    use_cache = false;
    is_open = true;
    error_msg = [];
    error_code = unknown_error;
  }

  unfoldable pub use_file_cache : Bool → FileStream Z F → FileStream Z F
  use_file_cache setting s = record s { use_cache = setting }

  unfoldable pub file_cur_pos : FileStream Z F → ℕ
  file_cur_pos s = s.total_bytes_read

-- The names of the errors that getXmlErrorCode knows; libxml2 has a code `XML_IO_` and the name for
-- each. The first six are left out on Windows.
abbrev pub known_errors : List Bytes
known_errors =
    codes "EBADMSG"
    ∷ codes "ECANCELED"
    ∷ codes "EINPROGRESS"
    ∷ codes "EMSGSIZE"
    ∷ codes "ENOTSUP"
    ∷ codes "ETIMEDOUT"
    ∷ codes "EACCES"
    ∷ codes "EAGAIN"
    ∷ codes "EBADF"
    ∷ codes "EBUSY"
    ∷ codes "ECHILD"
    ∷ codes "EDEADLK"
    ∷ codes "EDOM"
    ∷ codes "EEXIST"
    ∷ codes "EFAULT"
    ∷ codes "EFBIG"
    ∷ codes "EINTR"
    ∷ codes "EINVAL"
    ∷ codes "EIO"
    ∷ codes "EISDIR"
    ∷ codes "EMFILE"
    ∷ codes "EMLINK"
    ∷ codes "ENAMETOOLONG"
    ∷ codes "ENFILE"
    ∷ codes "ENODEV"
    ∷ codes "ENOENT"
    ∷ codes "ENOEXEC"
    ∷ codes "ENOLCK"
    ∷ codes "ENOMEM"
    ∷ codes "ENOSPC"
    ∷ codes "ENOSYS"
    ∷ codes "ENOTDIR"
    ∷ codes "ENOTEMPTY"
    ∷ codes "ENOTTY"
    ∷ codes "ENXIO"
    ∷ codes "EPERM"
    ∷ codes "EPIPE"
    ∷ codes "ERANGE"
    ∷ codes "EROFS"
    ∷ codes "ESPIPE"
    ∷ codes "ESRCH"
    ∷ codes "EXDEV"
    ∷ []

abbrev pub stands_in : Bytes → List Bytes → Bool
stands_in name [] = false
stands_in name (k ∷ rest) = bytes_eq name k || stands_in name rest

-- getXmlErrorCode, by the names.
unfoldable pub xml_error_code : Bytes → Bytes
xml_error_code name =
    if stands_in name known_errors then codes "XML_IO_" ++ name else codes "XML_IO_UNKNOWN"

module _ {Z F : Type 0} (z : Zlib Z) (files : Files F) where
  -- openStream; the flag is what it returns.
  unfoldable pub open_file : FileStream Z F → FileStream Z F × Bool
  open_file s = elim (files.size_of s.filename) [
    | none ↦
        (record s { error_msg = files.size_error s.filename; error_code = access_denied }, false)
    | some n ↦ elim (files.fopen s.filename) [
      | none ↦ (
        record s { size = n; error_msg = files.open_error s.filename; error_code = read_failed },
        false,
      )
      | some f ↦ (record s { size = n; fp = some f; is_open = true }, true)
    ]
  ]

  -- fread and what follows.
  unfoldable pub read_open : ℕ → Option F → FileStream Z F → Outcome (FileStream Z F × Got)
  read_open n none s = fault
  read_open n (some f) s =
      let (f', bytes) = files.read f n in
      done (
        if files.has_error f'
        then (
          record s { fp = some f'; error_msg = files.read_error f'; error_code = read_failed },
          failed,
        )
        else (
          record s { fp = some f'; total_bytes_read = s.total_bytes_read + length bytes },
          got bytes,
        ))

  unfoldable pub read_cached :
      ℕ → ℕ → Option (CacheObject Z) → FileStream Z F → Outcome (FileStream Z F × Got)
  read_cached fuel n none s = fault
  read_cached fuel n (some o) s = read_bytes z fuel o n >>= λ (o', bytes). done (
    record s { cache = some o'; total_bytes_read = s.total_bytes_read + length bytes },
    got bytes,
  )

  -- readBytes, by the mode and whether the file is open.
  unfoldable pub read_by :
      ParseMode → Bool → ℕ → ℕ → FileStream Z F → Outcome (FileStream Z F × Got)
  unfolding open_file read_open read_cached
  read_by cached b fuel n s = read_cached fuel n s.cache s
  read_by read true fuel n s = read_open n s.fp s
  read_by read false fuel n s =
      let (s', opened) = open_file s in if opened then read_open n s'.fp s' else done (s', failed)

  -- readBytes
  unfoldable pub read_file : ℕ → ℕ → FileStream Z F → Outcome (FileStream Z F × Got)
  unfolding read_by
  read_file fuel n s = read_by s.mode s.is_open fuel n s

  -- The destructor: what becomes of the cached document. The file is closed.
  unfoldable pub close_file : FileStream Z F → Option (CacheObject Z)
  unfolding reset_state
  close_file s = elim s.mode [
    | read ↦ none
    | cached ↦ elim s.cache [ none ↦ none | some o ↦ some (reset_state z o) ]
  ]

  -- The stream as the reader sees it.
  abbrev pub file_input : ℕ → InputStream (FileStream Z F)
  file_input fuel = record {
    read_bytes = λ n s. read_file fuel n s;
    use_cache = λ b s. record s { use_cache = b };
    error_msg = λ s. s.error_msg;
    error_code = λ s. s.error_code;
  }
