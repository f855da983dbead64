-- ===== src/Http/Header/Frame.antt =====
-- What header lines leave of a stream (headerCallback of src/HttpStream.cpp).
use libkolibre_xmlreader.Base.{
  ℕ, ◌≡◌, refl, sym, ap, ◌∙◌, inl, inr, Bool, true, false, Option, none, some, Bytes, c_str, ◌+◌,
  codes, starts_with, length, if◌then◌else◌,
}
use libkolibre_xmlreader.Base.Outcome.{done, bind-eq-done, done_inj, if-eq-done}
use libkolibre_xmlreader.Cache.Object.{set_etag, set_last_modified, set_location}
use libkolibre_xmlreader.Cache.Zlib.{Zlib}
use libkolibre_xmlreader.Http.Header.{
  header_callback, copy_value, store_etag, store_last_modified, store_location,
  store_content_length, status_line, etag_line, last_modified_line, location_line,
  content_length_line,
}
use libkolibre_xmlreader.Http.Stream.{HttpStream, Block, live, free}

-- What header lines may set.
pub record Marks : Type 0 where
  pub etag : Option Bytes
  pub last_modified : Option Bytes
  pub document_location : Option Bytes
  pub location : Block
  pub store_cache : Bool
  pub content_length : ℕ

-- A stream with these marks.
abbrev pub lined : {Z : Type 0} → HttpStream Z → Marks → HttpStream Z
lined s m = record s {
  cache = record s.cache {
    etag = m.etag;
    last_modified = m.last_modified;
    location = m.document_location;
  };
  location = m.location;
  store_cache = m.store_cache;
  content_length_response = m.content_length;
}

abbrev pub marks_of : {Z : Type 0} → HttpStream Z → Marks
marks_of s = record {
  etag = s.cache.etag;
  last_modified = s.cache.last_modified;
  document_location = s.cache.location;
  location = s.location;
  store_cache = s.store_cache;
  content_length = s.content_length_response;
}

-- Nothing but the marks differs.
abbrev pub IsLined : {Z : Type 0} → HttpStream Z → HttpStream Z → Type 0
IsLined s t = (m : Marks) × (t ≡ lined s m)

pub IsLined-trans : {Z : Type 0} (s t u : HttpStream Z) → IsLined s t → IsLined t u → IsLined s u
IsLined-trans s t u (m, e) (m', e') = (m', e' ∙ ap (λ x. lined x m') e)

module _ {Z : Type 0} (z : Zlib Z) where
  store_etag-IsLined : (v : Option Bytes) (s : HttpStream Z) → IsLined s (store_etag z v s)
  unfolding store_etag set_etag
  store_etag-IsLined none s = (marks_of s, refl)
  store_etag-IsLined (some v) s = on s.use_cache
    where
      on : (b : Bool) → IsLined s (if b then record s { cache = set_etag s.cache v } else s)
      on true = (marks_of (record s { cache = set_etag s.cache v }), refl)
      on false = (marks_of s, refl)

  store_last_modified-IsLined :
      (v : Option Bytes) (s : HttpStream Z) → IsLined s (store_last_modified z v s)
  unfolding store_last_modified set_last_modified
  store_last_modified-IsLined none s = (marks_of s, refl)
  store_last_modified-IsLined (some v) s = on s.use_cache
    where
      on :
          (b : Bool) → IsLined s (if b then record s { cache = set_last_modified s.cache v } else s)
      on true = (marks_of (record s { cache = set_last_modified s.cache v }), refl)
      on false = (marks_of s, refl)

  store_location-IsLined :
      (v : Option Bytes) (s t : HttpStream Z) → store_location z v s ≡ done t → IsLined s t
  unfolding store_location set_location
  store_location-IsLined none s t d = (marks_of s, sym (done_inj d))
  store_location-IsLined (some v) s t d =
      let (l, e, e') = bind-eq-done (free s.location) _ d in on s.use_cache (sym (done_inj e'))
    where
      placed : Bool → HttpStream Z
      placed b = record s {
        cache = if b then set_location s.cache v else s.cache;
        location = live (length v + 1) (c_str v);
      }

      on : (b : Bool) → t ≡ placed b → IsLined s t
      on true e = (marks_of (placed true), e)
      on false e = (marks_of (placed false), e)

  store_content_length-IsLined :
      (v : Option Bytes) (s : HttpStream Z) → IsLined s (store_content_length z v s)
  unfolding store_content_length
  store_content_length-IsLined none s = (marks_of s, refl)
  store_content_length-IsLined (some v) s = (marks_of (store_content_length z (some v) s), refl)

  etag_line-IsLined :
      (line : Bytes) (past : ℕ) (s t : HttpStream Z)
      → etag_line z line past s ≡ done t
      → IsLined s t
  unfolding etag_line
  etag_line-IsLined line past s t d =
      let (v, e, e') = bind-eq-done (copy_value z.alloc _ _) _ d in
      let (m, q) = store_etag-IsLined v s in (m, sym (done_inj e') ∙ q)

  last_modified_line-IsLined :
      (line : Bytes) (past : ℕ) (s t : HttpStream Z)
      → last_modified_line z line past s ≡ done t
      → IsLined s t
  unfolding last_modified_line
  last_modified_line-IsLined line past s t d =
      let (v, e, e') = bind-eq-done (copy_value z.alloc _ _) _ d in
      let (m, q) = store_last_modified-IsLined v s in (m, sym (done_inj e') ∙ q)

  location_line-IsLined :
      (line : Bytes) (past : ℕ) (s t : HttpStream Z)
      → location_line z line past s ≡ done t
      → IsLined s t
  unfolding location_line
  location_line-IsLined line past s t d =
      let (v, e, e') = bind-eq-done (copy_value z.alloc _ _) _ d in store_location-IsLined v s t e'

  content_length_line-IsLined :
      (line : Bytes) (past : ℕ) (s t : HttpStream Z)
      → content_length_line z line past s ≡ done t
      → IsLined s t
  unfolding content_length_line
  content_length_line-IsLined line past s t d =
      let (v, e, e') = bind-eq-done (copy_value z.alloc _ _) _ d in
      let (m, q) = store_content_length-IsLined v s in (m, sym (done_inj e') ∙ q)

  pub header_callback-IsLined :
      (line : Bytes) (past : ℕ) (s t : HttpStream Z)
      → header_callback z line past s ≡ done t
      → IsLined s t
  unfolding header_callback status_line
  header_callback-IsLined line past s t d =
      elim (if-eq-done (starts_with (codes "HTTP") line) _ _ d) [
        | inl e ↦ (marks_of (status_line z line s), sym (done_inj e))
        | inr d ↦ elim (if-eq-done (starts_with (codes "ETag: ") line) _ _ d) [
          | inl e ↦ etag_line-IsLined line past s t e
          | inr d ↦ elim (if-eq-done (starts_with (codes "Last-Modified: ") line) _ _ d) [
            | inl e ↦ last_modified_line-IsLined line past s t e
            | inr d ↦ elim (if-eq-done (starts_with (codes "Location: ") line) _ _ d) [
              | inl e ↦ location_line-IsLined line past s t e
              | inr d ↦ elim (if-eq-done (starts_with (codes "Content-Length: ") line) _ _ d) [
                | inl e ↦ content_length_line-IsLined line past s t e
                | inr d ↦ (marks_of s, sym (done_inj d))
              ]
            ]
          ]
        ]
      ]
