-- ===== src/Http/Read/Bodies.antt =====
-- What curl hands over in a row of calls, in one call of curl_multi_perform (src/HttpStream.cpp).
use libkolibre_xmlreader.Base.{
  joined, ℕ, ◌≡◌, refl, sym, ap, ◌∙◌, true, false, ◌&&◌, List, [], ◌∷◌, ◌++◌, map, Bytes, arith,
  append-nil, append_assoc, length-append,
}
use libkolibre_xmlreader.Base.Outcome.{done, ◌>>=◌}
use libkolibre_xmlreader.Http.Error.{no_error}
use libkolibre_xmlreader.Http.Read.{body, Env, run_callback, run_callbacks}
use libkolibre_xmlreader.Http.Stream.{HttpStream}
use libkolibre_xmlreader.Http.Transfer.Holding.{Holds}
use libkolibre_xmlreader.Http.Transfer.Fifo.{
  Delivers, InOrder, Keeps, write_callback-Stored, not_stored,
}

Keeps-trans : {Z : Type 0} {s t u : HttpStream Z} → Keeps s t → Keeps t u → Keeps s u
Keeps-trans a b = record {
  use_cache = b.use_cache ∙ a.use_cache;
  store_cache = b.store_cache ∙ a.store_cache;
  stream_from_cache = b.stream_from_cache ∙ a.stream_from_cache;
  error_code = b.error_code ∙ a.error_code;
  location = b.location ∙ a.location;
  content_length_response = b.content_length_response ∙ a.content_length_response;
}

-- Nothing was received.
pub Delivers-refl :
    {Z : Type 0} (s : HttpStream Z) (held : Bytes)
    → Holds s held
    → InOrder s held
    → Delivers s held [] s held
Delivers-refl s held v o = record {
  holds = v;
  in_order = o;
  sequence = ap (◌++◌ s.filled) (sym (append-nil held));
  counted = omega arith;
  room = refl;
  written = refl;
  grows = omega arith;
  keeps = record {
    use_cache = refl;
    store_cache = refl;
    stream_from_cache = refl;
    error_code = refl;
    location = refl;
    content_length_response = refl;
  };
}

-- One delivery and another.
pub Delivers-trans :
    {Z : Type 0} {s t u : HttpStream Z} {held rest rest' a b : Bytes}
    → Delivers s held a t rest
    → Delivers t rest b u rest'
    → Delivers s held (a ++ b) u rest'
Delivers-trans {s = s} {t = t} {held = held} {rest = rest} {a = a} {b = b} d e = record {
  holds = e.holds;
  in_order = e.in_order;
  sequence =
      e.sequence
      ∙ sym (append_assoc t.filled rest b)
      ∙ ap (λ (x : Bytes). x ++ b) d.sequence
      ∙ append_assoc s.filled (held ++ a) b
      ∙ ap (◌++◌ s.filled) (append_assoc held a b);
  counted = omega (arith, d.counted, e.counted, length-append a b);
  room = e.room ∙ d.room;
  written = omega (arith, d.written, e.written);
  grows = omega (arith, d.grows, e.grows);
  keeps = Keeps-trans d.keeps e.keeps;
}

-- A stream that neither stores what it reads nor reads from the cache, and has no error.
pub record IsPlainRead {Z : Type 0} (s : HttpStream Z) : Type 0 where
  pub not_stored : (s.use_cache && s.store_cache) ≡ false
  pub not_cached : s.stream_from_cache ≡ false
  pub no_error : s.error_code ≡ no_error

pub Keeps-IsPlainRead :
    {Z : Type 0} {s t : HttpStream Z} → Keeps s t → IsPlainRead s → IsPlainRead t
Keeps-IsPlainRead {s = s} {t = t} k v = record {
  not_stored =
      ap (λ b. b && t.store_cache) k.use_cache
      ∙ ap (λ b. s.use_cache && b) k.store_cache
      ∙ v.not_stored;
  not_cached = k.stream_from_cache ∙ v.not_cached;
  no_error = k.error_code ∙ v.no_error;
}

module _ {Z : Type 0} (env : Env Z) (fuel : ℕ) (alloc_ok : (n : ℕ) → env.zlib.alloc n ≡ true) where
  body-Delivers :
      (received : Bytes) (s : HttpStream Z) (held : Bytes)
      → Holds s held
      → InOrder s held
      → IsPlainRead s
      → (t : HttpStream Z) × (rest : Bytes) × (run_callback env fuel (body received) s ≡ done t)
        × Delivers s held received t rest
  unfolding run_callback
  body-Delivers received s held v o plain =
      let (t, rest, e, d, _) =
        write_callback-Stored env.zlib fuel received s alloc_ok
          (not_stored env.zlib fuel received s plain.not_stored) v o in
      (t, rest, ap (λ m. m >>= λ (s', n). done s') e, d)

  pub bodies-Delivers :
      (bodies : List Bytes) (s : HttpStream Z) (held : Bytes)
      → Holds s held
      → InOrder s held
      → IsPlainRead s
      → (t : HttpStream Z) × (rest : Bytes) × (run_callbacks env fuel (map body bodies) s ≡ done t)
        × Delivers s held (joined bodies) t rest
  unfolding run_callbacks
  bodies-Delivers [] s held v o plain = (s, held, refl, Delivers-refl s held v o)
  bodies-Delivers (b ∷ bodies) s held v o plain =
      let (t, rest, e, d) = body-Delivers b s held v o plain in
      let (u, rest', e', d') =
        bodies-Delivers bodies t rest d.holds d.in_order (Keeps-IsPlainRead d.keeps plain) in
      (
        u,
        rest',
        ap (λ m. m >>= run_callbacks env fuel (map body bodies)) e ∙ e',
        Delivers-trans d d',
      )
