-- ===== src/Cache/Object/Pack.antt =====
-- Writing a document into its cache object: a row of calls of writeBytes of src/CacheObject.cpp, with the
-- one that ends the compression.
use libkolibre_xmlreader.Base.{
  ℕ, ◌+◌, ◌%◌, ◌^◌, ◌<◌, ◌≡◌, refl, sym, subst, ap, ◌∙◌, ◌⊎◌, inl, inr, Bool, true, false, none,
  some, List, [], ◌∷◌, ◌++◌, if◌then◌else◌, Bytes, length, take, take-all, arith, append_assoc,
  length-append,
}
use libkolibre_xmlreader.Base.Outcome.{Outcome, done, ◌>>=◌}
use libkolibre_xmlreader.Cache.Object.{
  CacheObject, empty, write, full, read, chunk_size, dictionary,
}
use libkolibre_xmlreader.Cache.Object.Buffer.{BufferHolds}
use libkolibre_xmlreader.Cache.Object.Compress.{Deflates, Deflates-total, write_loop-BufferHolds}
use libkolibre_xmlreader.Cache.Object.Write.{
  realloc, write_loop, prepare_write, finish_write, write_bytes, available, start_over,
  init_deflate,
}
use libkolibre_xmlreader.Cache.Zlib.{Zlib}

-- A stream of zlib that starts to compress.
abbrev pub deflater : {Z : Type 0} → Zlib Z → Z → Z
deflater z s = z.deflate_set_dictionary (z.deflate_init s) dictionary

-- The object holds no block.
pub record HasNoBlock {Z : Type 0} (o : CacheObject Z) : Type 0 where
  pub block : o.z_buffer ≡ none
  pub allocated : o.alloc_count ≡ 0
  pub pos : o.buffer_pos ≡ 0
  pub size : o.buffer_size ≡ 0

-- A document that is new, or written whole, or being read.
abbrev pub IsIdle : {Z : Type 0} → CacheObject Z → Type 0
IsIdle o = ((o.state ≡ empty) × HasNoBlock o) ⊎ ((o.state ≡ full) ⊎ (o.state ≡ read))

module _ {Z : Type 0} (z : Zlib Z) (fuel : ℕ) where
  -- From a stream on, zlib compresses these parts and ends, with these bytes; the fuel has a unit for
  -- each byte and call, each part has a size of 32 bits, and the output with a chunk fits in an `int`.
  pub data Packs : Z → List Bytes → Bytes → Type 0 where
    ended :
        {s : Z} {parts : List Bytes} {packed : Bytes} (calls : ℕ) (s' : Z)
        → parts ≡ []
        → Deflates z true s [] calls s' packed
        → z.total_out s' + calls + 1 < fuel
        → z.total_out s' + chunk_size < 2 ^ 31
        → Packs s parts packed
    part :
        {s : Z} {parts : List Bytes} {packed : Bytes} (p : Bytes) (rest : List Bytes) (calls : ℕ)
        (s' : Z) (front back : Bytes)
        → parts ≡ p ∷ rest
        → length p < 2 ^ 32
        → Deflates z false s p calls s' front
        → z.total_out s' + calls + 1 < fuel
        → z.total_out s' + chunk_size < 2 ^ 31
        → Packs s' rest back
        → packed ≡ front ++ back
        → Packs s parts packed

  -- A document is written part by part, and ended.
  unfoldable pub write_parts : List Bytes → CacheObject Z → Outcome (CacheObject Z)
  write_parts [] o = write_bytes z fuel o none >>= λ (x : CacheObject Z × ℕ). done x.0
  write_parts (p ∷ rest) o =
      write_bytes z fuel o (some p) >>= λ (x : CacheObject Z × ℕ). write_parts rest x.0

  -- An object in the midst of writing.
  record IsWriting (o : CacheObject Z) (bytes : Bytes) : Type 0 where
    pub state : o.state ≡ write
    pub holds : BufferHolds o bytes
    pub total : z.total_out o.stream ≡ length bytes
    pub small : o.buffer_size < 2 ^ 64

  prepare_write-write : (o : CacheObject Z) → o.state ≡ write → prepare_write z o ≡ o
  unfolding prepare_write
  prepare_write-write o e =
      ap (λ s. init_deflate z (start_over z s o).state (start_over z s o)) e
      ∙ ap (λ s. init_deflate z s o) e

  -- What the block is, whether or not there was one.
  realloc-all :
      (alloc_ok : (n : ℕ) → z.alloc n ≡ true) (o : CacheObject Z) (bytes : Bytes)
      → BufferHolds o bytes
      → realloc z o.buffer_pos o.z_buffer ≡ some bytes
  unfolding realloc
  realloc-all ok o bytes v = elim v.block [
    | inl e ↦
        ap (realloc z o.buffer_pos) e
        ∙ ap (λ b. if b then some (take o.buffer_pos bytes) else none) (ok o.buffer_pos)
        ∙ ap some (take-all o.buffer_pos bytes (omega (arith, v.pos)))
    | inr (e, nothing, _) ↦
        ap (realloc z o.buffer_pos) e
        ∙ ap (λ b. if b then some [] else none) (ok o.buffer_pos)
        ∙ ap some (sym nothing)
  ]

  -- A document that is written whole, with these bytes in its block.
  pub record IsPacked (o : CacheObject Z) (packed : Bytes) : Type 0 where
    pub state : o.state ≡ full
    pub block : o.z_buffer ≡ some packed
    pub size : o.buffer_size ≡ length packed
    pub small : length packed < 2 ^ 31

  IsWriting-step :
      (flush : Bool) (o : CacheObject Z) (bytes p : Bytes) (calls : ℕ) (s' : Z) (front : Bytes)
      → ((n : ℕ) → z.alloc n ≡ true)
      → IsWriting o bytes
      → Deflates z flush o.stream p calls s' front
      → z.total_out s' + calls + 1 < fuel
      → z.total_out s' + chunk_size < 2 ^ 31
      → (o' : CacheObject Z) × (write_loop z fuel flush (record (prepare_write z o) { next_in = p })
          ≡ done (o', true))
        × (o'.stream ≡ s')
        × IsWriting o' (bytes ++ front)
  IsWriting-step flush o bytes p calls s' front ok v d f w =
      let h = v.holds in
      let (o', run, holds, stream, small, state) =
        write_loop-BufferHolds z flush fuel (record o { next_in = p }) bytes s' ok d
          (record { block = h.block; pos = h.pos; size = h.size; fits = h.fits }) v.total f v.small
          w in
      (
        o',
        ap (λ x. write_loop z fuel flush (record x { next_in = p })) (prepare_write-write o v.state)
            ∙ run,
        stream,
        record {
          state = state ∙ v.state;
          holds = holds;
          total =
              ap z.total_out stream
              ∙ Deflates-total z flush d
              ∙ omega (arith, v.total, length-append bytes front);
          small = small;
        },
      )

  write_parts-IsWriting :
      (parts : List Bytes) (packed bytes : Bytes) (o : CacheObject Z) (s : Z)
      → ((n : ℕ) → z.alloc n ≡ true)
      → Packs s parts packed
      → o.stream ≡ s
      → IsWriting o bytes
      → (o' : CacheObject Z) × (write_parts parts o ≡ done o') × IsPacked o' (bytes ++ packed)
  unfolding write_parts write_bytes finish_write
  write_parts-IsWriting [] packed bytes o s ok (ended calls s' e d f w) eq v =
      let (o', run, stream, v') =
        IsWriting-step true o bytes [] calls s' packed ok v
          (subst (λ x. Deflates z true x [] calls s' packed) (sym eq) d) f w in
      (
        finish_write z o',
        ap
            (λ m.
              (m >>= λ (x : CacheObject Z × Bool).
              done (if x.1 then finish_write z x.0 else x.0, 0))
              >>= λ (x : CacheObject Z × ℕ). done x.0)
            run,
        record {
          state = refl;
          block = realloc-all ok o' (bytes ++ packed) v'.holds;
          size = let h = v'.holds in h.pos;
          small = omega (arith, v'.total, ap z.total_out stream, w);
        },
      )
  write_parts-IsWriting (q ∷ parts) packed bytes o s ok (ended calls s' e d f w) eq v = cc
  write_parts-IsWriting [] packed bytes o s ok (part p rest calls s' front back e b32 d f w more eb)
        eq v =
      cc
  write_parts-IsWriting (q ∷ parts) packed bytes o s ok
        (part p rest calls s' front back e b32 d f w more eb) eq v =
      let e1 : p ≡ q = cc in
      let e2 : rest ≡ parts = cc in
      let (o1, run, stream, v1) =
        IsWriting-step false o bytes q calls s' front ok v
          (subst (λ x. Deflates z false x q calls s' front) (sym eq)
            (subst (λ x. Deflates z false s x calls s' front) e1 d))
          f w in
      let (o2, run2, v2) =
        write_parts-IsWriting parts back (bytes ++ front) o1 s' ok
          (subst (λ x. Packs s' x back) e2 more) stream v1 in
      (
        o2,
        ap
              (λ m.
                (m >>= λ (x : CacheObject Z × Bool). done (x.0, if x.1 then length q else 0))
                >>= λ (x : CacheObject Z × ℕ). write_parts parts x.0)
              (ap (λ b. write_loop z fuel false (record (prepare_write z o) { next_in = b }))
                  (take-all (length q % 2 ^ 32) q (omega (arith, ap length e1, b32)))
                ∙ run)
            ∙ run2,
        subst (IsPacked o2) (append_assoc bytes front back ∙ ap (◌++◌ bytes) (sym eb)) v2,
      )

  -- What writing starts from.
  begins :
      (o : CacheObject Z)
      → IsIdle o
      → (o1 : CacheObject Z) × (t : Z) × (prepare_write z o ≡ o1)
        × (o1.stream ≡ deflater z t)
        × (o1.state ≡ write)
        × HasNoBlock o1
  unfolding prepare_write
  begins o (inl (e, b)) = (
    record o { stream = deflater z o.stream; state = write },
    o.stream,
    ap (λ s. init_deflate z (start_over z s o).state (start_over z s o)) e
        ∙ ap (λ s. init_deflate z s o) e,
    refl,
    refl,
    record { block = b.block; allocated = b.allocated; pos = b.pos; size = b.size },
  )
  begins o (inr (inl e)) = (
    _,
    z.zeroed,
    ap (λ s. init_deflate z (start_over z s o).state (start_over z s o)) e,
    refl,
    refl,
    record { block = refl; allocated = refl; pos = refl; size = refl },
  )
  begins o (inr (inr e)) = (
    _,
    z.zeroed,
    ap (λ s. init_deflate z (start_over z s o).state (start_over z s o)) e,
    refl,
    refl,
    record { block = refl; allocated = refl; pos = refl; size = refl },
  )

  write_parts-same :
      (parts : List Bytes) (o o1 : CacheObject Z)
      → prepare_write z o ≡ prepare_write z o1
      → write_parts parts o ≡ write_parts parts o1
  unfolding write_parts write_bytes finish_write
  write_parts-same [] o o1 e =
      ap
        (λ x.
          (write_loop z fuel true (record x { next_in = [] }) >>= λ (y : CacheObject Z × Bool).
          done (if y.1 then finish_write z y.0 else y.0, 0))
          >>= λ (y : CacheObject Z × ℕ). done y.0)
        e
  write_parts-same (q ∷ parts) o o1 e =
      ap
        (λ x.
          (write_loop z fuel false (record x { next_in = available q })
            >>= λ (y : CacheObject Z × Bool). done (y.0, if y.1 then length q else 0))
          >>= λ (y : CacheObject Z × ℕ). write_parts parts y.0)
        e

  pub write_parts-IsPacked :
      (parts : List Bytes) (packed : Bytes) (o : CacheObject Z)
      → ((n : ℕ) → z.alloc n ≡ true)
      → ((t : Z) → z.total_out (deflater z t) ≡ 0)
      → ((t : Z) → Packs (deflater z t) parts packed)
      → IsIdle o
      → (o' : CacheObject Z) × (write_parts parts o ≡ done o') × IsPacked o' packed
  write_parts-IsPacked parts packed o ok fresh packs idle =
      let (o1, t, e, stream, state, b) = begins o idle in
      let (o2, run, v) =
        write_parts-IsWriting parts packed [] o1 (deflater z t) ok (packs t) stream (record {
          state = state;
          holds = record {
            block = inr (b.block, refl, b.size);
            pos = b.pos;
            size = omega (arith, b.size, b.allocated);
            fits = omega arith;
          };
          total = ap z.total_out stream ∙ fresh t;
          small = omega (arith, b.size);
        }) in
      (o2, write_parts-same parts o o1 (e ∙ sym (prepare_write-write o1 state)) ∙ run, v)
