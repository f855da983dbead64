-- ===== src/Http/Transfer/Fifo.antt =====
-- The order of the bytes between curl and the caller (src/HttpStream.cpp, writeCallback and
-- readBytes): what the caller has and what is held back, in this order, is what curl has sent.
use libkolibre_xmlreader.Base.{
  ℕ, ◌+◌, ◌-◌, ◌*◌, ◌^◌, ◌≤◌, ◌<◌, ◌≡◌, refl, sym, ap, ◌∙◌, ◌⊎◌, inl, inr, true, false, ◌&&◌, some,
  [], ◌∷◌, ◌++◌, Bytes, length, take, drop, arith, append-nil, append_assoc, take-all, drop-all,
  length-append, length-take, take-append-drop, length-drop, Bool-cases,
}
use native.Mathlib.Decide.{dec_le}
use libkolibre_xmlreader.Base.Outcome.{done, fault, ◌>>=◌}
use libkolibre_xmlreader.Cache.Object.{CacheObject}
use libkolibre_xmlreader.Cache.Object.Write.{write_bytes}
use libkolibre_xmlreader.Cache.Zlib.{Zlib}
use libkolibre_xmlreader.Http.Stream.{HttpStream}
use libkolibre_xmlreader.Http.Transfer.{
  at_most, take_in, serve_buffered, write_callback, cache_received,
}
use libkolibre_xmlreader.Http.Transfer.Holding.{
  Holds, hold_back-Holds, serve_buffered-all, serve_buffered-some, serve_buffered-overlap,
  BlockHolds-live,
}

-- Bytes are held back only while the caller has no room.
abbrev pub InOrder : {Z : Type 0} → HttpStream Z → Bytes → Type 0
InOrder s held = (held ≡ []) ⊎ (s.bytes_to_read ≡ 0)

-- What a transfer leaves alone.
pub record Keeps {Z : Type 0} (s t : HttpStream Z) : Type 0 where
  pub use_cache : t.use_cache ≡ s.use_cache
  pub store_cache : t.store_cache ≡ s.store_cache
  pub stream_from_cache : t.stream_from_cache ≡ s.stream_from_cache
  pub error_code : t.error_code ≡ s.error_code
  pub location : t.location ≡ s.location
  pub content_length_response : t.content_length_response ≡ s.content_length_response

-- From `s`, which holds `held`, to `t`, which holds `rest`, the bytes `received` came in behind what
-- was there, and each byte that the caller got is counted.
pub record Delivers {Z : Type 0} (s : HttpStream Z) (held received : Bytes) (t : HttpStream Z)
    (rest : Bytes) : Type 0 where
  pub holds : Holds t rest
  pub in_order : InOrder t rest
  pub sequence : t.filled ++ rest ≡ s.filled ++ (held ++ received)
  pub counted :
      t.total_bytes_read + length rest ≡ s.total_bytes_read + (length held + length received)
  pub room : t.bytes_read + t.bytes_to_read ≡ s.bytes_read + s.bytes_to_read
  pub written : length t.filled + s.bytes_read ≡ length s.filled + t.bytes_read
  pub grows : s.total_bytes_read ≤ t.total_bytes_read
  pub keeps : Keeps s t

-- How many of the received bytes do not fit.
at_most-le : (a b : ℕ) → at_most a b ≤ b
at_most-le a b = ground arith

at_most-le_left : (a b : ℕ) → at_most a b ≤ a
at_most-le_left a b = ground arith

at_most_cases : (a b : ℕ) → ((at_most a b ≡ a) × (a ≤ b)) ⊎ ((at_most a b ≡ b) × (b < a))
at_most_cases a b = ground arith

splice :
    (front held received : Bytes) (n : ℕ)
    → (n ≡ 0) ⊎ (held ≡ [])
    → (front ++ take n received) ++ (held ++ drop n received) ≡ front ++ (held ++ received)
splice front held received n (inl e) = rw e (rw append-nil refl)
splice front held received n (inr e) = rw e (rw append_assoc (rw take-append-drop refl))

keeps_order :
    (held rest : Bytes) (room n room' : ℕ)
    → (held ≡ []) ⊎ (room ≡ 0)
    → (rest ≡ []) ⊎ (room - n ≡ 0)
    → room' ≡ room - n
    → (held ++ rest ≡ []) ⊎ (room' ≡ 0)
keeps_order held rest room n room' (inl a) (inl b) e = inl (rw (a, b) refl)
keeps_order held rest room n room' (inr a) h e = inr (omega arith)
keeps_order held rest room n room' (inl a) (inr b) e = inr (omega arith)

module _ {Z : Type 0} (z : Zlib Z) (fuel : ℕ) (received : Bytes) (s : HttpStream Z) where
  abbrev consumed : ℕ
  consumed = at_most (length received) s.bytes_to_read

  cache_received-frame :
      {c : CacheObject Z} {k : ℕ}
      → write_bytes z fuel s.cache (some received) ≡ done (c, k)
      → (d : CacheObject Z) × (cache_received z fuel received (take_in received s)
          ≡ done (record (take_in received s) { cache = d }))
  unfolding cache_received take_in
  cache_received-frame {c} e = elim (Bool-cases (s.use_cache && s.store_cache)) [
    | inl on ↦ (c, ground arith)
    | inr off ↦ (s.cache, ground arith)
  ]

  -- The bytes that fit go to the caller, and those that do not are what is left.
  fits :
      (held : Bytes)
      → InOrder s held
      → ((consumed ≡ 0) ⊎ (held ≡ []))
        × ((drop consumed received ≡ []) ⊎ (s.bytes_to_read - consumed ≡ 0))
  fits held o = elim (at_most_cases (length received) s.bytes_to_read) [
    | inl (e, h) ↦ (ground (arith, o), inl (drop-all consumed received (omega (arith, e))))
    | inr (e, h) ↦ (ground (arith, o), inr (omega (arith, e)))
  ]

  -- What storing the received bytes leaves of the stream.
  abbrev pub Stored : Type 0
  Stored =
      (d : CacheObject Z) × (cache_received z fuel received (take_in received s)
        ≡ done (record (take_in received s) { cache = d }))

  -- Nothing is stored.
  pub not_stored : (s.use_cache && s.store_cache) ≡ false → Stored
  unfolding cache_received take_in
  not_stored off = (s.cache, ground arith)

  -- What is received is written into the document.
  pub stored :
      {c : CacheObject Z} {k : ℕ}
      → (s.use_cache && s.store_cache) ≡ true
      → write_bytes z fuel s.cache (some received) ≡ done (c, k)
      → (c' : CacheObject Z) × (c' ≡ c)
        × (cache_received z fuel received (take_in received s)
            ≡ done (record (take_in received s) { cache = c' }))
  unfolding cache_received take_in
  stored {c} on e = (c, refl, ground (arith, on))

  pub write_callback-Stored :
      {held : Bytes}
      → ((n : ℕ) → z.alloc n ≡ true)
      → (d : Stored) → Holds s held
      → InOrder s held
      → (t : HttpStream Z) × (rest : Bytes) × (write_callback z fuel received s
          ≡ done (t, length received))
        × Delivers s held received t rest
        × (t.cache ≡ d.0)
  unfolding write_callback
  write_callback-Stored {held} ok (d, ec) v o =
      let s1 : HttpStream Z = record (take_in received s) { cache = d } in
      let v1 : Holds s1 held = record { block = v.block; size = v.size; head = v.head } in
      let (t, eh, v2, frame) = hold_back-Holds z ok (drop consumed received) consumed s1 held v1 in
      let (one, other) = fits held o in
      (
        t,
        held ++ drop consumed received,
        rw (ec, ◌>>=◌)
            (eh
              ∙ ap (λ n. done (t, n))
                  (omega (
                    arith,
                    length-drop consumed received,
                    at_most-le_left (length received) s.bytes_to_read,
                  ))),
        record {
          holds = v2;
          in_order =
              keeps_order held (drop consumed received) s.bytes_to_read consumed t.bytes_to_read o
                other (ap (λ (x : HttpStream Z). x.bytes_to_read) frame);
          sequence = rw frame (splice s.filled held received consumed one);
          counted = rw frame (
              omega (
                arith,
                length-append held (drop consumed received),
                length-drop consumed received,
                at_most-le_left (length received) s.bytes_to_read,
              ));
          room = rw frame (omega (arith, at_most-le (length received) s.bytes_to_read));
          written = rw frame (
              omega (
                arith,
                length-append s.filled (take consumed received),
                length-take consumed received,
                at_most-le_left (length received) s.bytes_to_read,
              ));
          grows = rw frame (omega arith);
          keeps = record {
            use_cache = ap (λ (x : HttpStream Z). x.use_cache) frame;
            store_cache = ap (λ (x : HttpStream Z). x.store_cache) frame;
            stream_from_cache = ap (λ (x : HttpStream Z). x.stream_from_cache) frame;
            error_code = ap (λ (x : HttpStream Z). x.error_code) frame;
            location = ap (λ (x : HttpStream Z). x.location) frame;
            content_length_response = ap (λ (x : HttpStream Z). x.content_length_response) frame;
          };
        },
        ap (λ (x : HttpStream Z). x.cache) frame,
      )

  -- Whatever curl hands over is taken whole, in order: while the caller has room, bytes go to it, and
  -- the rest stands behind what is held back. The condition is that memory is not refused and that
  -- storing the bytes in the cached document comes to an end.
  pub write_callback-Delivers :
      {held : Bytes} {c : CacheObject Z} {k : ℕ}
      → ((n : ℕ) → z.alloc n ≡ true)
      → write_bytes z fuel s.cache (some received) ≡ done (c, k)
      → Holds s held
      → InOrder s held
      → (t : HttpStream Z) × (rest : Bytes) × (write_callback z fuel received s
          ≡ done (t, length received))
        × Delivers s held received t rest
  write_callback-Delivers ok e v o =
      let (t, rest, run, d, _) = write_callback-Stored ok (cache_received-frame e) v o in
      (t, rest, run, d)

module _ {Z : Type 0} (z : Zlib Z) (s : HttpStream Z) where
  -- What a round of readBytes serves from the holding buffer is the oldest of what is held, and the
  -- rest stays held in order. The conditions are that something is held and asked for, that at least
  -- half of what is held is asked for, that sizes fit in 64 bits, and that memory is not refused.
  pub serve_buffered-Delivers :
      {y : ℕ} {ys : Bytes}
      → ((n : ℕ) → z.alloc n ≡ true)
      → Holds s (y ∷ ys)
      → 0 < s.bytes_to_read
      → length (y ∷ ys) ≤ 2 * s.bytes_to_read
      → length (y ∷ ys) < 2 ^ 64
      → (t : HttpStream Z) × (rest : Bytes) × (serve_buffered z s ≡ done t)
        × Delivers s (y ∷ ys) [] t rest
  serve_buffered-Delivers {y} {ys} ok v pos half w =
      let (room, e, h) = BlockHolds-live s.buffer y ys v.block in
      elim (dec_le (length (y ∷ ys)) s.bytes_to_read) [
        | yes all ↦ (
          _,
          [],
          serve_buffered-all z s room (y ∷ ys) e v.size h all,
          record {
            holds = record { block = refl; size = refl; head = refl };
            in_order = inl refl;
            sequence =
                append-nil _
                ∙ ap (◌++◌ s.filled)
                    (take-all (length (y ∷ ys)) (y ∷ ys) (omega arith) ∙ sym (append-nil (y ∷ ys)));
            counted = omega arith;
            room = omega arith;
            written = omega (
              arith,
              length-append s.filled (take (length (y ∷ ys)) (y ∷ ys)),
              length-take (length (y ∷ ys)) (y ∷ ys),
            );
            grows = omega arith;
            keeps = record {
              use_cache = refl;
              store_cache = refl;
              stream_from_cache = refl;
              error_code = refl;
              location = refl;
              content_length_response = refl;
            };
          },
        )
        | no more ↦ (
          _,
          drop s.bytes_to_read (y ∷ ys),
          serve_buffered-some z s room (y ∷ ys) e v.size v.head h w (omega arith) half ok,
          record {
            holds = record {
              block = (
                refl,
                omega (arith, length-drop s.bytes_to_read (y ∷ ys)),
                omega (arith, length-drop s.bytes_to_read (y ∷ ys)),
              );
              size = omega (arith, length-drop s.bytes_to_read (y ∷ ys));
              head = omega (arith, length-drop s.bytes_to_read (y ∷ ys));
            };
            in_order = inr (omega arith);
            sequence =
                append_assoc s.filled _ _
                ∙ ap (◌++◌ s.filled)
                    (take-append-drop s.bytes_to_read (y ∷ ys) ∙ sym (append-nil (y ∷ ys)));
            counted = omega (arith, length-drop s.bytes_to_read (y ∷ ys));
            room = omega arith;
            written = omega (
              arith,
              length-append s.filled (take s.bytes_to_read (y ∷ ys)),
              length-take s.bytes_to_read (y ∷ ys),
            );
            grows = omega arith;
            keeps = record {
              use_cache = refl;
              store_cache = refl;
              stream_from_cache = refl;
              error_code = refl;
              location = refl;
              content_length_response = refl;
            };
          },
        )
      ]

  -- Where something is asked for, but less than half of what is held, the move of the rest copies a
  -- range onto itself, which is undefined, whatever memory is given.
  pub serve_buffered_overlap :
      (held : Bytes) → Holds s held → 2 * s.bytes_to_read < length held → serve_buffered z s ≡ fault
  serve_buffered_overlap [] v h = absurd (omega arith)
  serve_buffered_overlap (y ∷ ys) v h =
      let (room, e, r) = BlockHolds-live s.buffer y ys v.block in
      serve_buffered-overlap z s room (y ∷ ys) e v.size r h
