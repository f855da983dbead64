-- ===== src/Cache/Zlib.antt =====
-- The part of zlib that src/CacheObject.cpp calls. zlib is not part of the repository: its functions
-- are the fields of a record, over an unknown type `Z` for what a `z_stream` holds beside its
-- `next_in`, `avail_in`, `next_out` and `avail_out`.
use libkolibre_xmlreader.Base.{ℕ, Bool, Bytes}

pub data ZCode : Type 0 where
  z_ok z_stream_end z_need_dict z_errno z_stream_error z_data_error z_mem_error : ZCode
  z_buf_error z_version_error : ZCode

-- What one call of `deflate` or `inflate` does: the bytes that it takes from `next_in`, and those
-- that it writes at `next_out`.
pub record ZStep (Z : Type 0) : Type 0 where
  pub stream : Z
  pub code : ZCode
  pub taken : ℕ
  pub output : Bytes

pub record Zlib (Z : Type 0) : Type 0 where
  -- All bytes of the structure zero, as `memset` leaves it.
  pub zeroed : Z
  pub deflate_init : Z → Z
  pub deflate_set_dictionary : Z → Bytes → Z
  pub inflate_init : Z → Z
  pub inflate_set_dictionary : Z → Bytes → Z
  -- The flag is `flush == Z_FINISH`; then the input at hand and `avail_out`.
  pub deflate : Z → Bool → Bytes → ℕ → ZStep Z
  pub inflate : Z → Bytes → ℕ → ZStep Z
  pub total_out : Z → ℕ
  -- `malloc` and `realloc`: whether a request of so many bytes is met.
  pub alloc : ℕ → Bool
