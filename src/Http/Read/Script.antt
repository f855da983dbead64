-- ===== src/Http/Read/Script.antt =====
-- What curl hands over in the course of a download, and each call of curl_multi_perform against it
-- (readBytes of src/HttpStream.cpp).
use libkolibre_xmlreader.Base.{
  joined, ℕ, suc, ◌*◌, ◌≤◌, ◌<◌, ◌≡◌, sym, subst, ap, ◌⊎◌, inl, inr, Bool, true, false, List, [],
  ◌∷◌, ◌++◌, map, Bytes, length, arith, Bool-cases,
}
use libkolibre_xmlreader.Base.Outcome.{done, ◌>>=◌}
use libkolibre_xmlreader.Cache.Object.{CacheObject}
use libkolibre_xmlreader.Cache.Zlib.{Zlib}
use libkolibre_xmlreader.Http.Error.{curle_ok}
use libkolibre_xmlreader.Http.Read.{
  body, Message, completed, Perform, Env, proceed, handle_messages, perform,
}
use libkolibre_xmlreader.Http.Read.Bodies.{IsPlainRead, bodies-Delivers}
use libkolibre_xmlreader.Http.Response.{handle_result, note_code}
use libkolibre_xmlreader.Http.Stream.{HttpStream}
use libkolibre_xmlreader.Http.Transfer.Holding.{Holds}
use libkolibre_xmlreader.Http.Transfer.Fifo.{Delivers, InOrder}

-- A call of curl_multi_perform that hands over these bodies.
abbrev pub part : List Bytes → Bool → ℕ → List Message → Perform
part bodies b n messages = record {
  callbacks = map body bodies;
  call_again = b;
  running = n;
  messages = messages;
}

-- The rest of a script that brings these bytes and ends with status 200, or has ended. No call brings
-- more than twice what a read asks for.
pub data Transfers (n : ℕ) : List Perform → Bytes → Type 0 where
  over : {script : List Perform} {out : Bytes} → script ≡ [] → out ≡ [] → Transfers n script out
  last :
      {script : List Perform} {out : Bytes} (bodies : List Bytes) (b : Bool)
      → script ≡ part bodies b 0 (completed curle_ok 200 ∷ []) ∷ []
      → out ≡ joined bodies
      → length (joined bodies) ≤ 2 * n
      → Transfers n script out
  more :
      {script : List Perform} {out : Bytes} (bodies : List Bytes) (b : Bool) (m : ℕ)
      (rest : List Perform) (out' : Bytes)
      → script ≡ part bodies b (suc m) [] ∷ rest
      → out ≡ joined bodies ++ out'
      → length (joined bodies) ≤ 2 * n
      → Transfers n rest out'
      → Transfers n script out

-- Nothing, or more than three bytes.
abbrev pub IsClear : Bytes → Type 0
IsClear bytes = (length bytes ≡ 0) ⊎ (3 < length bytes)

-- The first call that brings something brings more than three bytes.
abbrev pub StartsLong :
    {n : ℕ} {script : List Perform} {out : Bytes} → Transfers n script out → Type 0
StartsLong (over e h) = ◌≡◌ {A = ℕ} 0 0
StartsLong (last bodies b e h fits) = IsClear (joined bodies)
StartsLong (more bodies b m rest out' e h fits over_rest) =
    (3 < length (joined bodies)) ⊎ ((length (joined bodies) ≡ 0) × StartsLong over_rest)

-- Noting the status changes the document only.
note_code-frame :
    {Z : Type 0} (z : Zlib Z) (code : ℕ) (s : HttpStream Z)
    → (c : CacheObject Z) × (note_code z code s ≡ record s { cache = c })
unfolding handle_result
note_code-frame z code s = elim (Bool-cases s.use_cache) [
  | inl on ↦ (record s.cache { http_code = code }, ground arith)
  | inr off ↦ (s.cache, ground arith)
]

note_code-Delivers :
    {Z : Type 0} (z : Zlib Z) (code : ℕ) {s t : HttpStream Z} {held received rest : Bytes}
    → Delivers s held received t rest
    → Delivers s held received (note_code z code t) rest
note_code-Delivers z code {s} {t} {held} {received} {rest} d =
    let (c, e) = note_code-frame z code t in
    subst (λ u. Delivers s held received u rest) (sym e)
      (record {
        holds = record { block = d.holds.block; size = d.holds.size; head = d.holds.head };
        in_order = d.in_order;
        sequence = d.sequence;
        counted = d.counted;
        room = d.room;
        written = d.written;
        grows = d.grows;
        keeps = record {
          use_cache = d.keeps.use_cache;
          store_cache = d.keeps.store_cache;
          stream_from_cache = d.keeps.stream_from_cache;
          error_code = d.keeps.error_code;
          location = d.keeps.location;
          content_length_response = d.keeps.content_length_response;
        };
      })

module _ {Z : Type 0} (env : Env Z) (fuel : ℕ) (n : ℕ)
    (alloc_ok : (m : ℕ) → env.zlib.alloc m ≡ true) where
  pub perform-more :
      (bodies : List Bytes) (b : Bool) (m : ℕ) (s : HttpStream Z) (held : Bytes)
      → Holds s held
      → InOrder s held
      → IsPlainRead s
      → (t : HttpStream Z) × (rest : Bytes) × (perform env fuel (part bodies b m []) n s
          ≡ done (t, proceed b m))
        × Delivers s held (joined bodies) t rest
  unfolding perform
  perform-more bodies b m s held v o plain =
      let (t, rest, e, d) = bodies-Delivers env fuel alloc_ok bodies s held v o plain in
      (t, rest, ap (λ x. x >>= handle_messages env [] b m n) e, d)

  pub perform-last :
      (bodies : List Bytes) (b : Bool) (s : HttpStream Z) (held : Bytes)
      → Holds s held
      → InOrder s held
      → IsPlainRead s
      → (t : HttpStream Z) × (rest : Bytes) × (perform env fuel
            (part bodies b 0 (completed curle_ok 200 ∷ []))
            n
            s
          ≡ done (t, proceed false 0))
        × Delivers s held (joined bodies) t rest
  unfolding perform handle_result
  perform-last bodies b s held v o plain =
      let (t, rest, e, d) = bodies-Delivers env fuel alloc_ok bodies s held v o plain in
      (
        note_code env.zlib 200 t,
        rest,
        ap (λ x. x >>= handle_messages env (completed curle_ok 200 ∷ []) b 0 n) e,
        note_code-Delivers env.zlib 200 d,
      )
