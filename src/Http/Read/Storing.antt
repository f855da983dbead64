-- ===== src/Http/Read/Storing.antt =====
-- A stream that stores what it receives in a document, until its destructor hands that over
-- (src/HttpStream.cpp).
use libkolibre_xmlreader.Base.{
  joined, ℕ, ◌+◌, ◌<◌, ◌≤◌, ◌^◌, ◌≡◌, refl, sym, inl, inr, ◌++◌, ◌==◌, arith, length-append, ap,
  ◌∙◌, Bool, true, ◌&&◌, none, some, List, [], ◌∷◌, map, if◌then◌else◌, Bytes, length,
}
use libkolibre_xmlreader.Base.Outcome.{Outcome, done, ◌>>=◌, bind-eq-done, done_inj}
use libkolibre_xmlreader.Cache.Object.{CacheObject, reset_state, set_content_length, ended}
use libkolibre_xmlreader.Cache.Object.Pack.{
  deflater, IsIdle, Packs, IsPacked, write_parts, write_parts-IsPacked,
}
use libkolibre_xmlreader.Cache.Object.Write.{write_bytes}
use libkolibre_xmlreader.Cache.Zlib.{Zlib}
use libkolibre_xmlreader.Http.Read.{body, Env, Perform, run_callbacks, conclude}
use libkolibre_xmlreader.Http.Read.Condition.{begun}
use libkolibre_xmlreader.Http.Read.Heads.{Takes}
use libkolibre_xmlreader.Http.Read.Bodies.{Delivers-refl, Delivers-trans}
use libkolibre_xmlreader.Cache.Object.RoundTrip.{IsLossless}
use libkolibre_xmlreader.Http.Read.Input.{http_input}
use libkolibre_xmlreader.Http.Read.Unchanged.{unchanged, Serves-IsPacked}
use libkolibre_xmlreader.Stream.{Serves}
use libkolibre_xmlreader.Http.Stream.{
  HttpStream, Block, null, freed, live, free, Disposal, stored, kept, deleted, destroy,
  destroy_connection, Easy, new_stream,
}
use libkolibre_xmlreader.Http.Transfer.Holding.{Holds, BlockHolds}
use libkolibre_xmlreader.Http.Transfer.Fifo.{
  Delivers, InOrder, Keeps, write_callback-Stored, stored as stored_received,
}

-- The stream stores what it receives.
pub record IsStoring {Z : Type 0} (s : HttpStream Z) : Type 0 where
  pub in_use : s.use_cache ≡ true
  pub stores : s.store_cache ≡ true

Keeps-IsStoring : {Z : Type 0} {s t : HttpStream Z} → Keeps s t → IsStoring s → IsStoring t
Keeps-IsStoring k v = record { in_use = k.use_cache ∙ v.in_use; stores = k.store_cache ∙ v.stores }

module _ {Z : Type 0} (env : Env Z) (fuel : ℕ) (alloc_ok : (n : ℕ) → env.zlib.alloc n ≡ true) where
  -- What is received goes into the document just as if it were written there part by part.
  bodies-write_parts :
      (bodies : List Bytes) (s : HttpStream Z) (held : Bytes) (c : CacheObject Z)
      → Holds s held
      → InOrder s held
      → IsStoring s
      → write_parts env.zlib fuel bodies s.cache ≡ done c
      → (t : HttpStream Z) × (rest : Bytes) × (run_callbacks env fuel (map body bodies) s ≡ done t)
        × Delivers s held (joined bodies) t rest
        × (write_parts env.zlib fuel [] t.cache ≡ done c)
  unfolding run_callbacks write_parts
  bodies-write_parts [] s held c v o on e = (s, held, refl, Delivers-refl s held v o, e)
  bodies-write_parts (b ∷ bodies) s held c v o on e =
      let ((c1, k), e1, e2) =
        bind-eq-done (write_bytes env.zlib fuel s.cache (some b))
          (λ (x : CacheObject Z × ℕ). write_parts env.zlib fuel bodies x.0) e in
      let (c', ec, st) =
        stored_received env.zlib fuel b s (ap (λ x. x && s.store_cache) on.in_use ∙ on.stores) e1 in
      let (t, rest, run, d, cache) =
        write_callback-Stored env.zlib fuel b s alloc_ok (c', st) v o in
      let (u, rest', run', d', ends) =
        bodies-write_parts bodies t rest c d.holds d.in_order (Keeps-IsStoring d.keeps on)
          (ap (λ x. write_parts env.zlib fuel bodies x) (cache ∙ ec) ∙ e2) in
      (
        u,
        rest',
        ap
              (λ m.
                (m >>= λ (x : HttpStream Z × ℕ). done x.0)
                >>= run_callbacks env fuel (map body bodies))
              run
            ∙ run',
        Delivers-trans d d',
        ends,
      )

-- The stream with its transfer done, when a read has ended.
abbrev finished : {Z : Type 0} → HttpStream Z → HttpStream Z
finished s = record s { bytes_to_read = 0; transfer_finished = true }

-- The end of a read that brings the count to the length that the response gave.
conclude-finished :
    {Z : Type 0} (env : Env Z) (s : HttpStream Z)
    → s.content_length_response ≡ s.total_bytes_read
    → (conclude env s).0 ≡ finished s
unfolding conclude
conclude-finished env s e =
    ap (λ b. record s { bytes_to_read = 0; transfer_finished = b })
      (on (s.content_length_response) s.total_bytes_read s.transfer_finished e)
  where
    on : (m n : ℕ) (b : Bool) → m ≡ n → (if m == n then true else b) ≡ true
    on m n b e = ground (arith, e)

-- All that was received has gone to the caller, who had room for it.
all_read :
    {Z : Type 0} {s t : HttpStream Z} {held received rest : Bytes}
    → Delivers s held received t rest
    → length held + length received ≤ s.bytes_to_read
    → t.total_bytes_read ≡ s.total_bytes_read + (length held + length received)
all_read {s = s} {t = t} {held} {received} {rest} d h = elim d.in_order [
  | inl e ↦ omega (arith, d.counted, ap length e)
  | inr e ↦ omega (
    arith,
    d.counted,
    d.room,
    d.written,
    e,
    h,
    ap length d.sequence,
    length-append t.filled rest,
    length-append s.filled (held ++ received),
    length-append held received,
  )
]

free-BlockHolds : (b : Block) (held : Bytes) → BlockHolds b held → (b' : Block) × (free b ≡ done b')
unfolding free
free-BlockHolds null held h = (null, refl)
free-BlockHolds freed held h = absurd h
free-BlockHolds (live size content) held h = (freed, refl)

module _ {Z : Type 0} (z : Zlib Z) (fuel : ℕ) where
  -- What the destructor hands over.
  abbrev pub handed : HttpStream Z → CacheObject Z → CacheObject Z
  handed s c = reset_state z (set_content_length c s.total_bytes_read)

  handed-IsPacked :
      (s : HttpStream Z) (c : CacheObject Z) (packed : Bytes)
      → IsPacked z fuel c packed
      → IsPacked z fuel (handed s c) packed
  unfolding reset_state set_content_length
  handed-IsPacked s c packed v = record {
    state = ap ended v.state;
    block = v.block;
    size = v.size;
    small = v.small;
  }

  destroy-IsStoring :
      (s : HttpStream Z) (held : Bytes) (c : CacheObject Z) (l : Block)
      → Holds s held
      → IsStoring s
      → free s.location ≡ done l
      → write_parts z fuel [] s.cache ≡ done c
      → destroy z fuel (finished s) ≡ done (stored s.url (handed s c))
  unfolding destroy destroy_connection write_parts
  destroy-IsStoring s held c l v on e w =
      let (b, eb) = free-BlockHolds s.buffer held v.block in
      let ((c1, k), e1, e2) =
        bind-eq-done (write_bytes z fuel s.cache none) (λ (x : CacheObject Z × ℕ). done x.0) w in
      let s' : HttpStream Z = record (finished s) { buffer = b; location = l } in
      ap
        (λ m.
          (m >>= λ b'.
          free s.location >>= λ l'. done (record (finished s) { buffer = b'; location = l' }))
          >>= ending)
        eb
      ∙ ap (λ m. (m >>= λ l'. done (record (finished s) { buffer = b; location = l' })) >>= ending)
          e
      ∙ ap (λ x. if x then handing s' else other s')
          (ap (λ x. x && true && s.use_cache) on.stores ∙ on.in_use)
      ∙ ap (λ m. m >>= λ (y : CacheObject Z × ℕ). done (stored s.url (handed s y.0))) e1
      ∙ ap (λ x. done (stored s.url (handed s x))) (done_inj e2)
    where
      handing : HttpStream Z → Outcome (Disposal Z)
      handing x = write_bytes z fuel x.cache none >>= λ (y : CacheObject Z × ℕ).
          done (stored x.url (handed x y.0))

      other : HttpStream Z → Outcome (Disposal Z)
      other x =
          if x.use_cache && x.stream_from_cache
          then done (kept (reset_state z x.cache))
          else if x.delete_cache
          then done (deleted x.cache)
          else done (kept x.cache)

      ending : HttpStream Z → Outcome (Disposal Z)
      ending x = if x.store_cache && x.transfer_finished && x.use_cache then handing x else other x

-- The way of a document through the cache: a storing stream receives bodies for which its caller has
-- room, and which bring the count of bytes to what the Content-Length line said; then the end of
-- readBytes notes that the transfer is done, and the destructor stores all the bytes in the document.
-- A stream that is made for this document and answered by 304, with any header lines, serves just
-- these bytes, in order and to their end, `n` at a time. The conditions are that the first stream
-- holds back bytes only while its caller has no room, that its document was new, written whole or
-- read from, and its location not freed; that zlib is lossless and takes each body, of a size of 32
-- bits, without an error, and what it gives fits with a chunk in an `int`; that memory is not refused
-- and `n` fits in an `int`; that the second response has no body, and headerCallback takes its header
-- lines with no undefined read; and that the fuel is above the number of compressed bytes.
pub Serves-stored :
    {Z : Type 0} (env : Env Z) (Left : Z → Bytes → Bytes → Type 0) (fuel n : ℕ)
    (bodies : List Bytes) (packed : Bytes) (s : HttpStream Z) (held : Bytes) (l : Block)
    (url : Bytes) (easy : Easy) (lines : List (Bytes × ℕ)) (b : Bool) (m : ℕ)
    (script : List Perform)
    → IsLossless env.zlib Left
    → ((k : ℕ) → env.zlib.alloc k ≡ true)
    → 0 < n
    → n < 2 ^ 31
    → Holds s held
    → InOrder s held
    → IsStoring s
    → free s.location ≡ done l
    → IsIdle s.cache
    → length held + length (joined bodies) ≤ s.bytes_to_read
    → s.content_length_response ≡ s.total_bytes_read + (length held + length (joined bodies))
    → ((x : Z) → Packs env.zlib fuel (deflater env.zlib x) bodies packed)
    → ((c : CacheObject Z) → Takes env lines (begun n (new_stream env.zlib url easy (some c))))
    → length packed + 1 < fuel
    → (t : HttpStream Z) × (rest : Bytes) × (c : CacheObject Z) × (run_callbacks env fuel
          (map body bodies)
          s
        ≡ done t)
      × Delivers s held (joined bodies) t rest
      × (destroy env.zlib fuel (conclude env t).0 ≡ done (stored t.url c))
      × (u : HttpStream Z) × (pieces : List Bytes) × Serves
          (http_input env fuel)
          n
          (new_stream env.zlib url easy (some c), unchanged env lines b m ∷ script)
          pieces
          (u, script)
      × (joined pieces ≡ joined bodies)
Serves-stored env Left fuel n bodies packed s held l url easy lines b m script law ok pos narrow v o
      on e idle room count packs takes enough =
    let (c, wrote, w) =
      write_parts-IsPacked env.zlib fuel bodies packed s.cache ok law.fresh packs idle in
    let (t, rest, run, d, ends) = bodies-write_parts env fuel ok bodies s held c v o on wrote in
    let k = d.keeps in
    let c' = handed env.zlib fuel t c in
    let (u, pieces, served, whole) =
      Serves-IsPacked env Left fuel n (joined bodies) packed c' url easy lines b m script law pos
        (handed-IsPacked env.zlib fuel t c packed w) (takes c')
        (law.packed fuel c'.stream c'.stream bodies packed (packs c'.stream)) enough in
    (
      t,
      rest,
      c',
      run,
      d,
      ap (destroy env.zlib fuel)
            (conclude-finished env t (k.content_length_response ∙ count ∙ sym (all_read d room)))
          ∙ destroy-IsStoring env.zlib fuel t rest c l d.holds (Keeps-IsStoring k on)
              (ap free k.location ∙ e) ends,
      u,
      pieces,
      served,
      whole,
    )
