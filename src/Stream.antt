-- ===== src/Stream.antt =====
-- src/InputStream.h: the interface that the streams implement, and what a reader gets from one.
use libkolibre_xmlreader.Base.{ℕ, ◌≤◌, ◌<◌, ◌≡◌, Bool, List, [], ◌∷◌, Bytes, length}
use libkolibre_xmlreader.Base.Outcome.{Outcome, done}
use libkolibre_xmlreader.Http.Error.{XmlError, ErrorCode}

-- What a call of readBytes comes to: the bytes that it put into the buffer, as many as it returns;
-- -1; or an error that it throws.
pub data Got : Type 0 where
  got : Bytes → Got
  failed : Got
  raised : XmlError → Got

pub record InputStream (S : Type 0) : Type 0 where
  pub read_bytes : ℕ → S → Outcome (S × Got)
  pub use_cache : Bool → S → S
  pub error_msg : S → Bytes
  pub error_code : S → ErrorCode

-- Reading up to `n` bytes at a time gives these pieces, none of them empty, and then nothing.
pub data Serves {S : Type 0} (i : InputStream S) (n : ℕ) : S → List Bytes → S → Type 0 where
  ends : {s t : S} → i.read_bytes n s ≡ done (t, got []) → Serves i n s [] t
  serves :
      {s t u : S} {x : ℕ} {xs : Bytes} {rest : List Bytes}
      → i.read_bytes n s ≡ done (t, got (x ∷ xs))
      → length (x ∷ xs) ≤ n
      → Serves i n t rest u
      → Serves i n s ((x ∷ xs) ∷ rest) u

-- There is nothing, or the first piece has more than three bytes.
abbrev pub IsLong : List Bytes → Type 0
IsLong [] = ◌≡◌ {A = ℕ} 0 0
IsLong (piece ∷ rest) = 3 < length piece
