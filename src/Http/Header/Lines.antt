-- ===== src/Http/Header/Lines.antt =====
-- What headerCallback of src/HttpStream.cpp keeps of the header lines that it knows.
use libkolibre_xmlreader.Base.{
  ℕ, ◌+◌, ◌^◌, ◌<◌, ◌≡◌, refl, sym, ap, ◌∙◌, ◌≢◌, true, false, Option, some, [], ◌∷◌, ◌++◌,
  if◌then◌else◌, Bytes, codes, c_str, starts_with, length, drop, arith, append_assoc, length-append,
  contains_byte, c_str-whole,
}
use libkolibre_xmlreader.Base.Outcome.{Outcome, done, fault, ◌>>=◌}
use libkolibre_xmlreader.Cache.Object.{set_etag, set_last_modified, set_location}
use libkolibre_xmlreader.Cache.Zlib.{Zlib}
use libkolibre_xmlreader.Http.Header.{
  copy_value, etag_span, value_span, etag_line, header_callback, atol, store_etag,
  store_last_modified, store_location, store_content_length,
}
use libkolibre_xmlreader.Http.Header.Values.{
  copy_value-take, copy_value-fault, value_span-newline, etag_span-quoted, etag_span-unquoted,
}
use libkolibre_xmlreader.Http.Stream.{
  HttpStream, Block, null, freed, live, free, request_headers, Easy, new_stream, setup_connection,
}

abbrev crlf : Bytes
crlf = codes "\r\n"

-- A line whose value ends in `\r\n` ends in a newline.
newline_last :
    (name value : Bytes) → name ++ (value ++ crlf) ≡ (name ++ (value ++ b'\r' ∷ [])) ++ b'\n' ∷ []
newline_last name value =
    ap (◌++◌ name) (sym (append_assoc value (b'\r' ∷ []) (b'\n' ∷ [])))
    ∙ sym (append_assoc name _ _)

free_then {ℓ} : {A : Type ℓ} (b : Block) (m : Outcome A) → b ≢ freed → (free b >>= λ _. m) ≡ m
unfolding free
free_then null m h = refl
free_then freed m h = absurd (h refl)
free_then (live size content) m h = refl

starts_quote :
    (v : Bytes) (c : ℕ) (rest : Bytes)
    → starts_with (codes "\"") (v ++ c ∷ []) ≡ false
    → starts_with (codes "\"") (v ++ c ∷ rest) ≡ false
starts_quote [] c rest h = h
starts_quote (x ∷ v) c rest h = h

module _ {Z : Type 0} (z : Zlib Z) (ok : (n : ℕ) → z.alloc n ≡ true) where
  etag_line-done :
      (line : Bytes) (past n : ℕ) (front rest : Bytes) (s : HttpStream Z)
      → etag_span line past (drop 6 line) ≡ (n, front ++ rest)
      → n ≡ length front
      → etag_line z line past s ≡ done (store_etag z (some front) s)
  unfolding etag_line
  etag_line-done line past n front rest s e h =
      ap (λ (p : ℕ × Bytes). copy_value z.alloc p.0 p.1 >>= λ v. done (store_etag z v s)) e
      ∙ ap (λ (m : Outcome (Option Bytes)). m >>= λ v. done (store_etag z v s))
          (copy_value-take z.alloc n front rest ok h)

  etag_line-fault :
      (line : Bytes) (past n : ℕ) (value : Bytes) (s : HttpStream Z)
      → etag_span line past (drop 6 line) ≡ (n, value)
      → length value < n
      → etag_line z line past s ≡ fault
  unfolding etag_line
  etag_line-fault line past n value s e h =
      ap (λ (p : ℕ × Bytes). copy_value z.alloc p.0 p.1 >>= λ v. done (store_etag z v s)) e
      ∙ ap (λ (m : Outcome (Option Bytes)). m >>= λ v. done (store_etag z v s))
          (copy_value-fault z.alloc n value ok h)

  -- A quoted entity tag is kept without its quotes while the cache is in use.
  pub header_callback-quoted_etag :
      (past : ℕ) (s : HttpStream Z) (v : Bytes)
      → length v < 2 ^ 63
      → header_callback z (codes "ETag: \"" ++ (v ++ codes "\"\r\n")) past s
        ≡ done (if s.use_cache then record s { cache = set_etag s.cache v } else s)
  unfolding header_callback
  header_callback-quoted_etag past s v w =
      etag_line-done line past _ v (codes "\"\r\n") s
        (etag_span-quoted line (codes "ETag: \"" ++ (v ++ codes "\"\r")) (v ++ codes "\"\r\n") past
          (ap (λ b. codes "ETag: \"" ++ b) (sym (append_assoc v (codes "\"\r") (b'\n' ∷ [])))))
        (omega (arith, length-append v (codes "\"\r\n")))
    where
      line : Bytes
      line = codes "ETag: \"" ++ (v ++ codes "\"\r\n")

  -- An entity tag with no quotes loses its last byte.
  pub header_callback-unquoted_etag :
      (past : ℕ) (s : HttpStream Z) (v : Bytes) (c : ℕ)
      → starts_with (codes "\"") (v ++ c ∷ []) ≡ false
      → length v < 2 ^ 63
      → header_callback z (codes "ETag: " ++ (v ++ c ∷ crlf)) past s
        ≡ done (if s.use_cache then record s { cache = set_etag s.cache v } else s)
  unfolding header_callback
  header_callback-unquoted_etag past s v c q w =
      etag_line-done line past _ v (c ∷ crlf) s
        (etag_span-unquoted line (codes "ETag: " ++ (v ++ c ∷ codes "\r")) (v ++ c ∷ crlf) past
          (ap (λ b. codes "ETag: " ++ b) (sym (append_assoc v (c ∷ codes "\r") (b'\n' ∷ []))))
          (starts_quote v c crlf q))
        (omega (arith, length-append v (c ∷ crlf)))
    where
      line : Bytes
      line = codes "ETag: " ++ (v ++ c ∷ crlf)

  -- An empty entity tag makes the length wrap around, and the copy runs out of the line.
  pub header_callback-empty_etag :
      (past : ℕ) (s : HttpStream Z) → header_callback z (codes "ETag: \r\n") past s ≡ fault
  unfolding header_callback
  header_callback-empty_etag past s =
      etag_line-fault (codes "ETag: \r\n") past _ crlf s
        (etag_span-unquoted (codes "ETag: \r\n") (codes "ETag: \r") crlf past refl refl)
        (omega arith)

  span :
      (v : Bytes)
      → length v < 2 ^ 63
      → (name : Bytes) (past : ℕ) → value_span (name ++ (v ++ crlf)) past (v ++ crlf) ≡ length v
  span v w name past =
      value_span-newline (name ++ (v ++ crlf)) _ (v ++ crlf) past (newline_last name v)
        (omega (arith, length-append v crlf)) (omega (arith, length-append v crlf))
      ∙ omega (arith, length-append v crlf)

  -- The value of a Last-Modified line is kept up to its `\r\n`, while the cache is in use.
  pub header_callback-last_modified :
      (past : ℕ) (s : HttpStream Z) (v : Bytes)
      → length v < 2 ^ 63
      → header_callback z (codes "Last-Modified: " ++ (v ++ crlf)) past s
        ≡ done (if s.use_cache then record s { cache = set_last_modified s.cache v } else s)
  unfolding header_callback
  header_callback-last_modified past s v w =
      ap (λ (m : Outcome (Option Bytes)). m >>= λ x. done (store_last_modified z x s))
        (copy_value-take z.alloc _ v crlf ok (span v w (codes "Last-Modified: ") past))

  -- So is that of a Content-Length line, as a number, with or without the cache.
  pub header_callback-content_length :
      (past : ℕ) (s : HttpStream Z) (v : Bytes)
      → length v < 2 ^ 63
      → header_callback z (codes "Content-Length: " ++ (v ++ crlf)) past s
        ≡ done (record s { content_length_response = atol v })
  unfolding header_callback
  header_callback-content_length past s v w =
      ap (λ (m : Outcome (Option Bytes)). m >>= λ x. done (store_content_length z x s))
        (copy_value-take z.alloc _ v crlf ok (span v w (codes "Content-Length: ") past))

  -- And that of a Location line, which the stream keeps for a redirect.
  pub header_callback-location :
      (past : ℕ) (s : HttpStream Z) (v : Bytes)
      → length v < 2 ^ 63
      → s.location ≢ freed
      → header_callback z (codes "Location: " ++ (v ++ crlf)) past s
        ≡ done (record s {
          cache = if s.use_cache then set_location s.cache v else s.cache;
          location = live (length v + 1) (c_str v);
        })
  unfolding header_callback free
  header_callback-location past s v w h =
      ap (λ (m : Outcome (Option Bytes)). m >>= λ x. store_location z x s)
        (copy_value-take z.alloc _ v crlf ok (span v w (codes "Location: ") past))
      ∙ free_then s.location _ h

  -- The validators of a response come back in the next request for the document: a response with a
  -- quoted ETag and a Last-Modified date, read while the cache is in use, makes a new stream for the
  -- cached document ask with exactly that date and that tag in quotes. Both hold no NUL.
  pub conditional_request :
      (past past' : ℕ) (s : HttpStream Z) (date tag : Bytes) (url : Bytes) (easy : Easy)
      → s.use_cache ≡ true
      → length date < 2 ^ 63
      → length tag < 2 ^ 63
      → contains_byte 0 date ≡ false
      → contains_byte 0 tag ≡ false
      → (t : HttpStream Z) × ((header_callback z (codes "Last-Modified: " ++ (date ++ crlf)) past s
            >>= header_callback z (codes "ETag: \"" ++ (tag ++ codes "\"\r\n")) past')
          ≡ done t)
        × ((new_stream z url easy (some t.cache)).easy.http_header
            ≡ codes "Connection: keep-alive"
              ∷ codes "Keep-Alive: 300"
              ∷ (codes "If-Modified-Since: " ++ date)
              ∷ (codes "If-None-Match: \"" ++ (tag ++ codes "\""))
              ∷ [])
  unfolding new_stream set_etag set_last_modified request_headers setup_connection
  conditional_request past past' s date tag url easy on wd wt nd nt = (
    record s {
      cache = record s.cache { last_modified = some (c_str date); etag = some (c_str tag) };
    },
    ap
          (λ (m : Outcome (HttpStream Z)).
            m >>= header_callback z (codes "ETag: \"" ++ (tag ++ codes "\"\r\n")) past')
          (header_callback-last_modified past s date wd
            ∙ ap (λ b. done (if b then dated else s)) on)
        ∙ header_callback-quoted_etag past' dated tag wt
        ∙ ap (λ b. done (if b then record dated { cache = set_etag dated.cache tag } else dated))
            on,
    rw (c_str-whole date nd, c_str-whole tag nt) refl,
  )
    where
      dated : HttpStream Z
      dated = record s { cache = set_last_modified s.cache date }
