-- ===== src/Cache/Object/Buffer.antt =====
-- The buffer of a cached document while it is written (src/CacheObject.cpp, writeBytes): it grows
-- until the output of zlib fits, and the output goes behind what is there.
use libkolibre_xmlreader.Base.{
  ℕ, zero, suc, ◌+◌, ◌*◌, ◌^◌, ◌≤◌, ◌<◌, ◌≡◌, refl, sym, ap, ◌∙◌, ◌⊎◌, inl, inr, Bool, true, not,
  ◌&&◌, Option, none, some, [], ◌∷◌, ◌++◌, ltb, leb, ◌==◌, if◌then◌else◌, Bytes, length, arith,
  Bool-cases, ltb→lt, lt→ltb, take-all, take-append, append-nil, length-append,
}
use libkolibre_xmlreader.Base.Outcome.{Outcome, done, fault, ◌>>=◌}
use libkolibre_xmlreader.Cache.Object.{CacheObject, chunk_size, write_at, zeros, sub64}
use libkolibre_xmlreader.Cache.Object.Write.{
  realloc, enlarged, grown, grow, copy_in, store_output, handle_output, is_fine,
}
use libkolibre_xmlreader.Cache.Zlib.{Zlib, ZStep}

-- The block, once it is allocated, holds just these bytes, with room for more in whole chunks.
pub record BufferHolds {Z : Type 0} (o : CacheObject Z) (bytes : Bytes) : Type 0 where
  pub block : (o.z_buffer ≡ some bytes) ⊎ ((o.z_buffer ≡ none) × (bytes ≡ []) × (o.buffer_size ≡ 0))
  pub pos : o.buffer_pos ≡ length bytes
  pub size : o.buffer_size ≡ o.alloc_count * chunk_size
  pub fits : length bytes ≤ o.buffer_size

-- The object with the buffer of another.
abbrev pub with_buffer : {Z : Type 0} → CacheObject Z → CacheObject Z → CacheObject Z
with_buffer o o' = record o {
  z_buffer = o'.z_buffer;
  alloc_count = o'.alloc_count;
  buffer_size = o'.buffer_size;
  buffer_pos = o'.buffer_pos;
}

module _ {Z : Type 0} (z : Zlib Z) (ok : (n : ℕ) → z.alloc n ≡ true) where
  enlarged-BufferHolds :
      (o : CacheObject Z) (bytes : Bytes)
      → BufferHolds o bytes
      → BufferHolds (enlarged z o) bytes × ((enlarged z o).buffer_size ≡ o.buffer_size + chunk_size)
  unfolding enlarged realloc
  enlarged-BufferHolds o bytes v = (
    record {
      block = elim v.block [
        | inl held ↦ inl (
            rw (held) (
              rw (ok ((o.alloc_count + 1) * chunk_size)) (
                ap some (
                  take-all ((o.alloc_count + 1) * chunk_size) bytes
                    (omega (arith, v.size, v.fits))))))
        | inr (nothing, e, _) ↦
            inl (rw (nothing) (rw (ok ((o.alloc_count + 1) * chunk_size)) (ap some (sym e))))
      ];
      pos = v.pos;
      size = rw (ok ((o.alloc_count + 1) * chunk_size)) refl;
      fits = rw (ok ((o.alloc_count + 1) * chunk_size)) (omega (arith, v.size, v.fits));
    },
    rw (ok ((o.alloc_count + 1) * chunk_size)) (omega (arith, v.size)),
  )

  -- Growth ends once the total fits, with one unit of fuel for each byte that is missing, and one.
  grow-done :
      (fuel total : ℕ) (o : CacheObject Z) (bytes : Bytes)
      → BufferHolds o bytes
      → 0 < fuel
      → total < o.buffer_size + fuel
      → total + chunk_size < 2 ^ 31
      → (o' : CacheObject Z) × (grow z fuel total o ≡ done o')
        × BufferHolds o' bytes
        × (total ≤ o'.buffer_size)
        × (o' ≡ with_buffer o o')
        × ((o'.buffer_size ≤ o.buffer_size) ⊎ (o'.buffer_size < total + chunk_size))
  unfolding grow grown enlarged
  grow-done zero total o bytes v p h small = absurd (omega arith)
  grow-done (suc fuel) total o bytes v p h small = elim (Bool-cases (ltb o.buffer_size total)) [
    | inr low ↦ (o, rw (low, grow) refl, v, ground arith, refl, inl (omega arith))
    | inl more ↦
        let (w, e) = enlarged-BufferHolds o bytes v in
        let low : o.buffer_size < total = ltb→lt o.buffer_size total more in
        let fits : grown z o ≡ done (enlarged z o) =
          ap (λ b. if b then done (enlarged z o) else fault)
            (lt→ltb ((o.alloc_count + 1) * chunk_size) (2 ^ 31)
              (omega (arith, v.size, low, small))) in
        let (o', run, w', le, f, bound) =
          grow-done fuel total (enlarged z o) bytes w (omega (arith, h, low)) (omega (arith, e))
            small in
        (
          o',
          rw (more, grow) (ap (λ m. m >>= grow z fuel total) fits ∙ run),
          w',
          le,
          f,
          inr (ground (arith, bound, e, more)),
        )
  ]

  write_at-end :
      (content output : Bytes) → write_at (length content) output content ≡ content ++ output
  unfolding write_at
  write_at-end content output = ap (λ b. b ++ output) (take-append content (zeros (length content)))

  -- With room for it, the output goes behind what is there.
  store_output-done :
      (total : ℕ) (output : Bytes) (o : CacheObject Z) (bytes : Bytes)
      → BufferHolds o bytes
      → length bytes + length output ≤ o.buffer_size
      → o.buffer_size < 2 ^ 64
      → total ≤ o.buffer_size
      → (o' : CacheObject Z) × (store_output z total output o ≡ done (o', true))
        × BufferHolds o' (bytes ++ output)
        × (o' ≡ with_buffer o o')
        × (o'.buffer_size ≡ o.buffer_size)
  unfolding store_output copy_in
  store_output-done total [] o bytes v r w t = (o, ground arith, rw (append-nil) v, refl, refl)
  store_output-done total (x ∷ output) o bytes v r w t = elim v.block [
    | inr (_, _, no_room) ↦ absurd (omega (arith, r, no_room))
    | inl held ↦ (
      record o {
        z_buffer = some (write_at o.buffer_pos (x ∷ output) bytes);
        buffer_pos = o.buffer_pos + length (x ∷ output);
      },
      rw (roomy) (
          ap (λ (b : Option Bytes). copy_in z b (x ∷ output) o >>= λ o'. done (o', true)) held
          ∙ ap
              (λ (b : Bool).
                (if b then done (stored x output o bytes) else fault) >>= λ o'. done (o', true))
              within),
      record {
        block = inl (
            ap (λ (n : ℕ). some (write_at n (x ∷ output) bytes)) v.pos
            ∙ ap some (write_at-end bytes (x ∷ output)));
        pos = omega (arith, v.pos, length-append bytes (x ∷ output));
        size = v.size;
        fits = omega (arith, v.pos, length-append bytes (x ∷ output), r);
      },
      refl,
      refl,
    )
  ]
    where
      stored : ℕ → Bytes → CacheObject Z → Bytes → CacheObject Z
      stored x output o bytes = record o {
        z_buffer = some (write_at o.buffer_pos (x ∷ output) bytes);
        buffer_pos = o.buffer_pos + length (x ∷ output);
      }

      roomy :
          (not (length (x ∷ output) == 0)
            && leb (length (x ∷ output)) (sub64 o.buffer_size o.buffer_pos))
          ≡ true
      roomy = ground (arith, v.pos, v.fits, r, w)

      within : leb (o.buffer_pos + length (x ∷ output)) o.buffer_size ≡ true
      within = ground (arith, v.pos, r)

  -- A call of zlib that went well is taken in: where its total counts what is stored and what the call
  -- wrote, the buffer grows to hold that, what was stored stays, and the output of the call goes behind
  -- it, inside the block. The conditions are that memory is not refused, that there is a unit of fuel
  -- for each byte of the total, and one, and that sizes fit: the total with a
  -- chunk in an `int`.
  pub handle_output-BufferHolds :
      (fuel : ℕ) (r : ZStep Z) (o : CacheObject Z) (bytes : Bytes)
      → is_fine r.code ≡ true
      → BufferHolds o bytes
      → z.total_out r.stream ≡ length bytes + length r.output
      → z.total_out r.stream < fuel
      → o.buffer_size < 2 ^ 64
      → z.total_out r.stream + chunk_size < 2 ^ 31
      → (o' : CacheObject Z) × (handle_output z fuel r o ≡ done (o', true))
        × BufferHolds o' (bytes ++ r.output)
        × (o' ≡ with_buffer o o')
        × (o'.buffer_size < 2 ^ 64)
  unfolding handle_output
  handle_output-BufferHolds fuel r o bytes fine v total enough small small' =
      let (o1, e1, v1, le, f1, bound) =
        grow-done fuel (z.total_out r.stream) o bytes v (omega (arith, enough))
          (omega (arith, enough)) small' in
      let (o2, e2, v2, f2, size) =
        store_output-done (z.total_out r.stream) r.output o1 bytes v1 (omega (arith, total, le))
          (ground (arith, bound, small, small')) le in
      (
        o2,
        rw (fine) (
            ap
              (λ (m : Outcome (CacheObject Z)).
                m >>= λ o'. store_output z (z.total_out r.stream) r.output o')
              e1
            ∙ e2),
        v2,
        f2 ∙ ap (λ (x : CacheObject Z). with_buffer x o2) f1,
        ground (arith, size, bound, small, small'),
      )
