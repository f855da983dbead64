-- ===== src/Cache/Object/Compress.antt =====
-- The loop of CacheObject::writeBytes of src/CacheObject.cpp against what zlib does in it.
use libkolibre_xmlreader.Base.{
  ℕ, zero, suc, ◌+◌, ◌^◌, ◌<◌, ◌≡◌, sym, subst, ap, ◌∙◌, Bool, true, false, not, ◌&&◌, ◌||◌, ◌++◌,
  ◌==◌, Bytes, length, drop, arith, append_assoc, length-append,
}
use libkolibre_xmlreader.Base.Outcome.{Outcome, done, ◌>>=◌}
use libkolibre_xmlreader.Cache.Object.{CacheObject, chunk_size, stepped}
use libkolibre_xmlreader.Cache.Object.Buffer.{BufferHolds, handle_output-BufferHolds}
use libkolibre_xmlreader.Cache.Object.Write.{handle_output, write_loop, is_fine, is_ok}
use libkolibre_xmlreader.Cache.Zlib.{Zlib, ZStep}

module _ {Z : Type 0} (z : Zlib Z) (flush : Bool) where
  -- The condition of the loop, behind a call.
  abbrev pub continues : ZStep Z → Bytes → Bool
  continues r input =
      not (length (drop r.taken input) == 0) || (is_ok r.code && length r.output == chunk_size)

  -- A row of calls of `deflate` that all go well, on a stream and an input, as long as the condition
  -- of the loop asks for: the number of calls, the stream behind them and all that they write. Each
  -- counts what it writes in the stream's total.
  pub data Deflates : Z → Bytes → ℕ → Z → Bytes → Type 0 where
    last :
        {s : Z} {input : Bytes} {calls : ℕ} {s' : Z} {output : Bytes} (r : ZStep Z)
        → z.deflate s flush input chunk_size ≡ r
        → is_fine r.code ≡ true
        → z.total_out r.stream ≡ z.total_out s + length r.output
        → continues r input ≡ false
        → s' ≡ r.stream
        → output ≡ r.output
        → Deflates s input calls s' output
    more :
        {s : Z} {input : Bytes} {calls : ℕ} {s' : Z} {output : Bytes} (r : ZStep Z) (calls' : ℕ)
        (rest : Bytes)
        → z.deflate s flush input chunk_size ≡ r
        → is_fine r.code ≡ true
        → z.total_out r.stream ≡ z.total_out s + length r.output
        → continues r input ≡ true
        → Deflates r.stream (drop r.taken input) calls' s' rest
        → calls ≡ calls' + 1
        → output ≡ r.output ++ rest
        → Deflates s input calls s' output

  pub Deflates-total :
      {s : Z} {input : Bytes} {calls : ℕ} {s' : Z} {output : Bytes}
      → Deflates s input calls s' output
      → z.total_out s' ≡ z.total_out s + length output
  Deflates-total (last r e fine counts stop es eo) = rw (es, eo) counts
  Deflates-total (more r calls' rest e fine counts go d ec eo) =
      rw (eo) (omega (arith, Deflates-total d, counts, length-append r.output rest))

  -- The loop behind a call.
  behind : ℕ → ZStep Z → CacheObject Z × Bool → Outcome (CacheObject Z × Bool)
  unfolding write_loop
  behind fuel r (o', going) =
      elim (going
        && (not (length o'.next_in == 0) || (is_ok r.code && length r.output == chunk_size))) [
          | true ↦ write_loop z fuel flush o'
          | false ↦ done (o', going)
        ]

  write_loop-suc :
      (fuel : ℕ) (o : CacheObject Z) (r : ZStep Z)
      → z.deflate o.stream flush o.next_in chunk_size ≡ r
      → write_loop z (suc fuel) flush o ≡ (handle_output z fuel r (stepped r o) >>= behind fuel r)
  unfolding write_loop behind
  write_loop-suc fuel o r e =
      ap (λ (q : ZStep Z). handle_output z fuel q (stepped q o) >>= behind fuel q) e

  behind-end :
      (fuel : ℕ) (r : ZStep Z) (o : CacheObject Z) (b : Bool)
      → (not (length o.next_in == 0) || (is_ok r.code && length r.output == chunk_size)) ≡ b
      → behind fuel r (o, true)
        ≡ (elim b [ true ↦ write_loop z fuel flush o | false ↦ done (o, true) ])
  unfolding behind
  behind-end fuel r o b e =
      ap (λ (c : Bool). elim c [ true ↦ write_loop z fuel flush o | false ↦ done (o, true) ]) e

  stepped-BufferHolds :
      (r : ZStep Z) (o : CacheObject Z) (bytes : Bytes)
      → BufferHolds o bytes
      → BufferHolds (stepped r o) bytes
  unfolding stepped
  stepped-BufferHolds r o bytes v = record {
    block = v.block;
    pos = v.pos;
    size = v.size;
    fits = v.fits;
  }

  -- Where zlib does its part, the loop of writeBytes ends by its condition, and the buffer then holds
  -- what it held before and behind it, in order, all that zlib wrote; its size still fits in a size_t,
  -- and the document's state is as it was. The conditions are that the stream's total is the number
  -- of bytes that the buffer holds, that memory is not refused, that there is a unit of fuel for each
  -- byte of the last total and each call, and that sizes fit: the last total with a chunk in an
  -- `int`, as the source multiplies with.
  pub write_loop-BufferHolds :
      (fuel : ℕ) (o : CacheObject Z) (bytes : Bytes) (s' : Z) {calls : ℕ} {output : Bytes}
      → ((n : ℕ) → z.alloc n ≡ true)
      → Deflates o.stream o.next_in calls s' output
      → BufferHolds o bytes
      → z.total_out o.stream ≡ length bytes
      → z.total_out s' + calls + 1 < fuel
      → o.buffer_size < 2 ^ 64
      → z.total_out s' + chunk_size < 2 ^ 31
      → (o' : CacheObject Z) × (write_loop z fuel flush o ≡ done (o', true))
        × BufferHolds o' (bytes ++ output)
        × (o'.stream ≡ s')
        × (o'.buffer_size < 2 ^ 64)
        × (o'.state ≡ o.state)
  unfolding behind stepped
  write_loop-BufferHolds zero o bytes s' ok d v t f w w' = absurd (omega arith)
  write_loop-BufferHolds (suc fuel) o bytes s' ok (last r e fine counts stop es eo) v t f w w' =
      let (o', run, v', frame, small) =
        handle_output-BufferHolds z ok fuel r (stepped r o) bytes fine
          (stepped-BufferHolds r o bytes v) (omega (arith, counts, t))
          (omega (arith, ap z.total_out es, f)) w (omega (arith, ap z.total_out es, w')) in
      (
        o',
        write_loop-suc fuel o r e
            ∙ ap (λ (m : Outcome (CacheObject Z × Bool)). m >>= behind fuel r) run
            ∙ behind-end fuel r o' false (
                ap
                  (λ (x : CacheObject Z).
                    not (length x.next_in == 0) || (is_ok r.code && length r.output == chunk_size))
                  frame
                ∙ stop),
        subst (λ (x : Bytes). BufferHolds o' (bytes ++ x)) (sym eo) v',
        ap (λ (x : CacheObject Z). x.stream) frame ∙ sym es,
        small,
        ap (λ (x : CacheObject Z). x.state) frame,
      )
  write_loop-BufferHolds (suc fuel) o bytes s' ok (more r calls' rest e fine counts go d ec eo) v t
        f w w' =
      let (o1, run, v1, frame, w1) =
        handle_output-BufferHolds z ok fuel r (stepped r o) bytes fine
          (stepped-BufferHolds r o bytes v) (omega (arith, counts, t))
          (omega (arith, Deflates-total d, f)) w (omega (arith, Deflates-total d, w')) in
      let d1 =
        subst (λ (x : CacheObject Z). Deflates x.stream x.next_in calls' s' rest) (sym frame) d in
      let total : z.total_out o1.stream ≡ length (bytes ++ r.output) =
        ap (λ (x : CacheObject Z). z.total_out x.stream) frame
        ∙ omega (arith, counts, t, length-append bytes r.output) in
      let (o2, run2, v2, s2, w2, state) =
        write_loop-BufferHolds fuel o1 (bytes ++ r.output) s' ok d1 v1 total (omega (arith, f, ec))
          w1 w' in
      (
        o2,
        write_loop-suc fuel o r e
            ∙ ap (λ (m : Outcome (CacheObject Z × Bool)). m >>= behind fuel r) run
            ∙ behind-end fuel r o1 true (
                ap
                  (λ (x : CacheObject Z).
                    not (length x.next_in == 0) || (is_ok r.code && length r.output == chunk_size))
                  frame
                ∙ go)
            ∙ run2,
        subst (λ (x : Bytes). BufferHolds o2 x)
            (append_assoc bytes r.output rest ∙ ap (λ (x : Bytes). bytes ++ x) (sym eo)) v2,
        s2,
        w2,
        state ∙ ap (λ (x : CacheObject Z). x.state) frame,
      )
