-- ===== src/Http/Header.antt =====
-- HttpStream::headerCallback: a header line of the response.
--
-- The line is the `size * nitems` bytes at `buffer`. The tests for the line's end compare two or
-- three bytes from its last byte on, so that they read past it: `past` is the byte that stands
-- there. A `memcmp` with a header's name stops at the first byte that differs, at the latest at the
-- newline that ends every line.
pub mod Values
pub mod Lines
pub mod Frame
use libkolibre_xmlreader.Base.{
  ℕ, zero, suc, ◌+◌, ◌-◌, ◌*◌, ◌%◌, ◌^◌, Bool, true, false, not, ◌&&◌, ◌||◌, Option, none, some,
  List, [], ◌∷◌, ◌++◌, ltb, leb, ◌==◌, if◌then◌else◌, Bytes, codes, c_str, starts_with, length,
  take, drop,
}
use libkolibre_xmlreader.Base.Outcome.{Outcome, done, fault, spins, ◌>>=◌}
use libkolibre_xmlreader.Cache.Object.{
  CacheObject, set_etag, set_last_modified, set_location, sub64,
}
use libkolibre_xmlreader.Cache.Zlib.{Zlib}
use libkolibre_xmlreader.Http.Stream.{HttpStream, Block, null, freed, live, free}

-- `memcmp (buffer + length - 1, "\r\n", 2)` differs. The comparison begins at the last byte.
pub ends_differ : Bytes → ℕ → Bool
ends_differ line past = not (starts_with (codes "\r\n") (drop (length line - 1) line ++ past ∷ []))

-- So for `"\"\r\n"` and two bytes.
pub quote_differs : Bytes → ℕ → Bool
quote_differs line past =
    not (starts_with (codes "\"\r") (drop (length line - 1) line ++ past ∷ []))

-- `malloc (n + 1); memcpy (copy, bufPtr, n); copy[n] = 0`, where `bufPtr` stands at the head of
-- `rest`: `none` if the memory is refused.
pub copy_value : (ℕ → Bool) → ℕ → Bytes → Outcome (Option Bytes)
copy_value alloc n rest =
    if alloc ((n + 1) % 2 ^ 64)
    then (if leb n (length rest) then done (some (take n rest)) else fault)
    else done none

-- How many bytes of an ETag's value are copied, and from where.
pub etag_span : Bytes → ℕ → Bytes → ℕ × Bytes
unfolding ends_differ quote_differs
etag_span line past value =
    if quote_differs line past
    then (if starts_with (codes "\"") value
        then (sub64 (sub64 (length value) 3) 1, drop 1 value)
        else (sub64 (length value) 3, value))
    else if ends_differ line past
    then (sub64 (length value) 2, value)
    else (length value, value)

-- How many bytes of another header's value are copied.
pub value_span : Bytes → ℕ → Bytes → ℕ
unfolding ends_differ
value_span line past value = if ends_differ line past then sub64 (length value) 2 else length value

-- The loop over a status line, from the byte behind `HTTP` on: does a space begin ` 200`? It ends
-- at a space with fewer than three bytes behind it.
pub ok_status : Bytes → Bool → Bool
ok_status [] found = found
ok_status (c ∷ rest) found =
    let next = ok_status rest (found || starts_with (codes " 200") (c ∷ rest)) in
    if c == b' ' then (if ltb (length rest) 3 then found else next) else next

-- `atol`, converted to `size_t`: leading space is skipped, a sign is taken, and the digits are read
-- up to the first other byte.
pub is_space : ℕ → Bool
is_space c = c == b' ' || (leb b'\t' c && leb c b'\r')

pub is_digit : ℕ → Bool
is_digit c = leb b'0' c && leb c b'9'

pub digits_value : ℕ → Bytes → ℕ
unfolding is_digit
digits_value acc [] = acc
digits_value acc (c ∷ rest) = elim (is_digit c) [
  | true ↦ digits_value (acc * 10 + (c - b'0')) rest
  | false ↦ acc
]

pub signed_value : Bytes → ℕ
unfolding digits_value
signed_value [] = 0
signed_value (c ∷ rest) =
    if c == b'-'
    then sub64 0 (digits_value 0 rest % 2 ^ 64)
    else if c == b'+'
    then digits_value 0 rest % 2 ^ 64
    else digits_value 0 (c ∷ rest) % 2 ^ 64

unfoldable pub atol : Bytes → ℕ
unfolding is_space signed_value
atol [] = 0
atol (c ∷ rest) = elim (is_space c) [ true ↦ atol rest | false ↦ signed_value (c ∷ rest) ]

module _ {Z : Type 0} (z : Zlib Z) where
  -- A value that was copied, taken over while the cache is in use; `hEtag` is freed again.
  pub store_etag : Option Bytes → HttpStream Z → HttpStream Z
  store_etag none s = s
  store_etag (some v) s = if s.use_cache then record s { cache = set_etag s.cache v } else s

  pub store_last_modified : Option Bytes → HttpStream Z → HttpStream Z
  store_last_modified none s = s
  store_last_modified (some v) s =
      if s.use_cache then record s { cache = set_last_modified s.cache v } else s

  pub store_location : Option Bytes → HttpStream Z → Outcome (HttpStream Z)
  store_location none s = done s
  store_location (some v) s = free s.location >>= λ _. done (record s {
    cache = if s.use_cache then set_location s.cache v else s.cache;
    location = live (length v + 1) (c_str v);
  })

  pub store_content_length : Option Bytes → HttpStream Z → HttpStream Z
  store_content_length none s = s
  store_content_length (some v) s = record s { content_length_response = atol v }

  pub status_line : Bytes → HttpStream Z → HttpStream Z
  unfolding ok_status
  status_line line s = record s { store_cache = ok_status (drop 4 line) s.store_cache }

  pub etag_line : Bytes → ℕ → HttpStream Z → Outcome (HttpStream Z)
  unfolding etag_span copy_value store_etag
  etag_line line past s =
      let (n, from) = etag_span line past (drop 6 line) in
      copy_value z.alloc n from >>= λ v. done (store_etag v s)

  pub last_modified_line : Bytes → ℕ → HttpStream Z → Outcome (HttpStream Z)
  unfolding value_span copy_value store_last_modified
  last_modified_line line past s =
      let value = drop 15 line in
      copy_value z.alloc (value_span line past value) value >>= λ v. done (store_last_modified v s)

  pub location_line : Bytes → ℕ → HttpStream Z → Outcome (HttpStream Z)
  unfolding value_span copy_value store_location free
  location_line line past s =
      let value = drop 10 line in
      copy_value z.alloc (value_span line past value) value >>= λ v. store_location v s

  pub content_length_line : Bytes → ℕ → HttpStream Z → Outcome (HttpStream Z)
  unfolding value_span copy_value store_content_length
  content_length_line line past s =
      let value = drop 16 line in
      copy_value z.alloc (value_span line past value) value >>= λ v. done (store_content_length v s)

  -- headerCallback; it returns `size * nitems` in every case.
  unfoldable pub header_callback : Bytes → ℕ → HttpStream Z → Outcome (HttpStream Z)
  unfolding status_line etag_line last_modified_line location_line content_length_line
  header_callback line past s =
      if starts_with (codes "HTTP") line
      then done (status_line line s)
      else if starts_with (codes "ETag: ") line
      then etag_line line past s
      else if starts_with (codes "Last-Modified: ") line
      then last_modified_line line past s
      else if starts_with (codes "Location: ") line
      then location_line line past s
      else if starts_with (codes "Content-Length: ") line
      then content_length_line line past s
      else done s
