-- ===== src/Tidy/State.antt =====
-- The state of src/TidyStream.h, its constructor, and libtidy as a parameter.
use libkolibre_xmlreader.Base.{
  ℕ, suc, ◌-◌, ◌^◌, Bool, true, false, Option, none, some, [], ◌∷◌, ◌==◌, if◌then◌else◌, Bytes,
  codes, starts_with, length,
}
use libkolibre_xmlreader.Cache.Object.{CacheObject, sub64}
use libkolibre_xmlreader.Handler.{DataStreamHandler, Heap}
use libkolibre_xmlreader.Http.Error.{ErrorCode, no_error}

-- Over an unknown type for a document.
pub record Libtidy (T : Type 0) : Type 0 where
  -- tidyParseBuffer, and whether its result is not negative
  pub parse : Bytes → T
  pub parsed : T → Bool
  pub repair : T → T
  -- tidySaveBuffer: the bytes that it puts into an empty buffer
  pub save : T → Bytes

pub data TidyMode : Type 0 where
  passthrough tidy cached : TidyMode

-- The pointer to the stream inside.
pub data Inner (S : Type 0) : Type 0 where
  absent deleted : Inner S
  present : S → Inner S

pub record TidyStream (S : Type 0) : Type 0 where
  pub url : Bytes
  pub total_bytes_read : ℕ
  pub inner : Inner S
  pub mode : TidyMode
  pub cache : Option ℕ
  -- `none`: not initialised
  pub outbuf : Option Bytes
  pub use_cache : Bool
  pub tidied : Bool
  pub error_msg : Bytes
  pub error_code : ErrorCode

-- `s.rfind (p)`: the last position.
unfoldable pub rfind : Bytes → Bytes → Option ℕ
rfind p [] = if starts_with p [] then some 0 else none
rfind p (x ∷ xs) = elim (rfind p xs) [
  | some i ↦ some (suc i)
  | none ↦ if starts_with p (x ∷ xs) then some 0 else none
]

-- `sURL.rfind(".smil") == sURL.length() - 5`, both of 64 bits, where npos is the largest number.
abbrev pub is_smil_at : Option ℕ → Bytes → Bool
is_smil_at none url = 2 ^ 64 - 1 == sub64 (length url) 5
is_smil_at (some i) url = i == sub64 (length url) 5

module _ {S : Type 0} where
  -- The constructor.
  unfoldable pub new_tidy : Bytes → S → TidyStream S
  unfolding rfind
  new_tidy url s = record {
    url = url;
    total_bytes_read = 0;
    inner = present s;
    mode = if is_smil_at (rfind (codes ".smil") url) url then passthrough else tidy;
    cache = none;
    outbuf = none;
    use_cache = true;
    tidied = false;
    error_msg = codes "unknown error";
    error_code = no_error;
  }

  unfoldable pub use_tidy_cache : Bool → TidyStream S → TidyStream S
  use_tidy_cache setting t = record t { use_cache = setting }

  unfoldable pub tidy_cur_pos : TidyStream S → ℕ
  tidy_cur_pos t = t.total_bytes_read

module _ {Z : Type 0} where
  -- A write through the pointer to a document of the handler.
  abbrev pub put : Heap Z → ℕ → CacheObject Z → Heap Z
  put heap a o b = if b == a then some o else heap b

  abbrev pub with_heap : DataStreamHandler Z → Heap Z → DataStreamHandler Z
  with_heap h heap = record h { heap = heap }
