-- ===== src/Cache/Object/Inflate.antt =====
-- The loop of CacheObject::readBytes of src/CacheObject.cpp against what zlib does in it.
use libkolibre_xmlreader.Base.{
  ℕ, zero, suc, ◌≤◌, ◌<◌, ◌≡◌, refl, sym, subst, ap, ◌∙◌, ◌⊎◌, inl, inr, Bool, true, false, not,
  ◌&&◌, [], ◌++◌, ◌==◌, if◌then◌else◌, Bytes, length, drop, arith, length-drop,
}
use libkolibre_xmlreader.Base.Outcome.{done}
use libkolibre_xmlreader.Cache.Object.{CacheObject, dictionary, is_fatal, stepped}
use libkolibre_xmlreader.Cache.Object.Read.{read_loop, offer_dictionary}
use libkolibre_xmlreader.Cache.Zlib.{
  Zlib, ZStep, ZCode, z_ok, z_stream_end, z_need_dict, z_errno, z_stream_error, z_data_error,
  z_mem_error, z_buf_error, z_version_error,
}

abbrev pub needs_dictionary : ZCode → Bool
needs_dictionary z_need_dict = true
needs_dictionary _ = false

-- A stream of zlib that starts to decompress.
abbrev pub inflater : {Z : Type 0} → Zlib Z → Z → Z
inflater z s = z.inflate_set_dictionary (z.inflate_init s) dictionary

module _ {Z : Type 0} (z : Zlib Z) (Left : Z → Bytes → Bytes → Type 0) where
  -- What a call of `inflate` does for a stream and an input in which this text is left: it writes the
  -- front of the text, as much as there is room for, unless that is the end of the text and of the
  -- input; or it asks for the dictionary, behind a part of the input.
  pub data Inflated (n : ℕ) (input text : Bytes) (r : ZStep Z) : Type 0 where
    gives :
        (rest : Bytes)
        → is_fatal r.code ≡ false
        → needs_dictionary r.code ≡ false
        → text ≡ r.output ++ rest
        → length r.output ≤ n
        → (length r.output ≡ n) ⊎ ((drop r.taken input ≡ []) × (rest ≡ []))
        → Left r.stream (drop r.taken input) rest
        → Inflated n input text r
    asks :
        r.code ≡ z_need_dict
        → r.output ≡ []
        → 0 < length (drop r.taken input)
        → length (drop r.taken input) < length input
        → Left (z.inflate_set_dictionary r.stream dictionary) (drop r.taken input) text
        → Inflated n input text r

  -- A part of the text was read from an object, in which this is left.
  pub record HasRead (n : ℕ) (o : CacheObject Z) (text : Bytes) (o' : CacheObject Z) (bytes : Bytes)
      : Type 0 where
    pub rest : Bytes
    pub splits : text ≡ bytes ++ rest
    pub fits : length bytes ≤ n
    pub whole : (length bytes ≡ n) ⊎ (rest ≡ [])
    pub left : Left o'.stream o'.next_in rest
    pub shorter : length o'.next_in ≤ length o.next_in
    pub state : o'.state ≡ o.state
    pub block : o'.z_buffer ≡ o.z_buffer

  -- The object behind a call.
  abbrev behind : CacheObject Z → ZStep Z → CacheObject Z
  behind o r = record o {
    stream = offer_dictionary z r.code r.stream;
    next_in = drop r.taken o.next_in;
  }

  abbrev goes_on : ℕ → CacheObject Z → ZStep Z → Bool
  goes_on n o r = not (length r.output == n) && not (length (drop r.taken o.next_in) == 0)

  read_loop-suc :
      (fuel : ℕ) (o : CacheObject Z) (n : ℕ) (b : Bool)
      → (let r = z.inflate o.stream o.next_in n in is_fatal r.code ≡ false)
      → goes_on n o (z.inflate o.stream o.next_in n) ≡ b
      → (let r = z.inflate o.stream o.next_in n in
          read_loop z (suc fuel) o n
          ≡ (if b then read_loop z fuel (behind o r) n else done (behind o r, r.output)))
  unfolding read_loop stepped
  read_loop-suc fuel o n b fine e =
      ap
        (λ (x : Bool). elim x [
          | true ↦ done (behind o (z.inflate o.stream o.next_in n), [])
          | false ↦ elim (goes_on n o (z.inflate o.stream o.next_in n)) [
            | true ↦ read_loop z fuel (behind o (z.inflate o.stream o.next_in n)) n
            | false ↦
                done (
                  behind o (z.inflate o.stream o.next_in n),
                  (z.inflate o.stream o.next_in n).output,
                )
          ]
        ])
        fine
      ∙ ap
          (λ (x : Bool). elim x [
            | true ↦ read_loop z fuel (behind o (z.inflate o.stream o.next_in n)) n
            | false ↦
                done (
                  behind o (z.inflate o.stream o.next_in n),
                  (z.inflate o.stream o.next_in n).output,
                )
          ])
          e
      ∙ by_cases b
    where
      by_cases :
          (b : Bool)
          → elim b [
            | true ↦ read_loop z fuel (behind o (z.inflate o.stream o.next_in n)) n
            | false ↦
                done (
                  behind o (z.inflate o.stream o.next_in n),
                  (z.inflate o.stream o.next_in n).output,
                )
          ]
            ≡ (if b
                then read_loop z fuel (behind o (z.inflate o.stream o.next_in n)) n
                else done (
                  behind o (z.inflate o.stream o.next_in n),
                  (z.inflate o.stream o.next_in n).output,
                ))
      by_cases true = refl
      by_cases false = refl

  offered : (c : ZCode) (s : Z) → needs_dictionary c ≡ false → offer_dictionary z c s ≡ s
  unfolding offer_dictionary
  offered z_ok s e = refl
  offered z_stream_end s e = refl
  offered z_need_dict s e = cc
  offered z_errno s e = refl
  offered z_stream_error s e = refl
  offered z_data_error s e = refl
  offered z_mem_error s e = refl
  offered z_buf_error s e = refl
  offered z_version_error s e = refl

  stops : (out n left : ℕ) → (out ≡ n) ⊎ (left ≡ 0) → (not (out == n) && not (left == 0)) ≡ false
  stops out n left h = ground (arith, h)

  goes : (out n left : ℕ) → out ≡ 0 → 0 < n → 0 < left → (not (out == n) && not (left == 0)) ≡ true
  goes out n left e h k = ground (arith, e, h, k)

  -- The loop comes to an end with the front of the text.
  pub read_loop-HasRead :
      (n : ℕ)
      → 0 < n
      → ((s : Z) (input text : Bytes)
          → Left s input text
          → Inflated n input text (z.inflate s input n))
      → (fuel : ℕ) (o : CacheObject Z) (text : Bytes) → length o.next_in < fuel
      → Left o.stream o.next_in text
      → (o' : CacheObject Z) × (bytes : Bytes) × (read_loop z fuel o n ≡ done (o', bytes))
        × HasRead n o text o' bytes
  unfolding is_fatal offer_dictionary
  read_loop-HasRead n pos law zero o text enough l = absurd (omega arith)
  read_loop-HasRead n pos law (suc fuel) o text enough l =
      let r = z.inflate o.stream o.next_in n in
      elim (law o.stream o.next_in text l) [
        | gives rest fine plain e fits whole l' ↦ (
          behind o r,
          r.output,
          read_loop-suc fuel o n false fine (
              stops (length r.output) n (length (drop r.taken o.next_in))
                (elim whole [ inl a ↦ inl a | inr (a, b) ↦ inr (ap length a) ])),
          record {
            rest = rest;
            splits = e;
            fits = fits;
            whole = elim whole [ inl a ↦ inl a | inr (a, b) ↦ inr b ];
            left =
                subst (λ s. Left s (drop r.taken o.next_in) rest)
                  (sym (offered r.code r.stream plain)) l';
            shorter = omega (arith, length-drop r.taken o.next_in);
            state = refl;
            block = refl;
          },
        )
        | asks e no_output some_left less l' ↦
            let (o', bytes, run, v) =
              read_loop-HasRead n pos law fuel (behind o r) text (omega (arith, enough, less)) (
                subst (λ c. Left (offer_dictionary z c r.stream) (drop r.taken o.next_in) text)
                  (sym e) l') in
            (
              o',
              bytes,
              read_loop-suc fuel o n true (ap is_fatal e) (
                    goes (length r.output) n (length (drop r.taken o.next_in)) (ap length no_output)
                      pos some_left)
                  ∙ run,
              record {
                rest = v.rest;
                splits = v.splits;
                fits = v.fits;
                whole = v.whole;
                left = v.left;
                shorter = omega (arith, v.shorter, less);
                state = v.state;
                block = v.block;
              },
            )
      ]
