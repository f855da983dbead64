-- ===== src/Tests/Compression.antt =====
-- Runs of writeBytes of src/CacheObject.cpp at concrete inputs.
use libkolibre_xmlreader.Base.{
  ℕ, ◌⊎◌, inl, Bool, List, ◌∷◌, ◌++◌, ap, sym, ◌∙◌, joined, Bytes, length, length-take, take, drop,
  drop-all, append-nil, take-append-drop, ◌^◌, ◌<◌, ◌≡◌, refl, inr, true, false, [], codes, arith,
}
use native.Mathlib.Decide.{dec_le}
use libkolibre_xmlreader.Base.Outcome.{done}
use libkolibre_xmlreader.Cache.Object.{CacheObject, is_fatal, new_object, reset_buffer}
use libkolibre_xmlreader.Cache.Object.Buffer.{BufferHolds}
use libkolibre_xmlreader.Cache.Object.Compress.{Deflates, last, more, write_loop-BufferHolds}
use libkolibre_xmlreader.Cache.Object.Write.{write_loop, is_fine, is_ok}
use libkolibre_xmlreader.Cache.Object.Pack.{Packs, ended, part, IsIdle, deflater, write_parts}
use libkolibre_xmlreader.Cache.Object.Inflate.{gives}
use libkolibre_xmlreader.Cache.Object.Unpack.{ReadsAll}
use libkolibre_xmlreader.Cache.Object.RoundTrip.{IsLossless, ReadsAll-write_parts}
use libkolibre_xmlreader.Cache.Zlib.{Zlib, ZStep, z_ok}
use libkolibre_xmlreader.Tests.{plain, plain-alloc, plain_step}

-- A new document with three bytes to write.
abbrev three_bytes : CacheObject ℕ
three_bytes = record (new_object plain []) { next_in = codes "abc" }

three_bytes-BufferHolds : BufferHolds three_bytes []
unfolding new_object reset_buffer is_fine is_ok
three_bytes-BufferHolds = record {
  block = inr (refl, refl, refl);
  pos = refl;
  size = refl;
  fits = omega arith;
}

three_bytes-Deflates : Deflates plain false three_bytes.stream three_bytes.next_in 0 3 (codes "abc")
unfolding new_object reset_buffer is_fine is_ok
three_bytes-Deflates = last (plain_step 0 (codes "abc") false) refl refl refl refl refl refl

write_loop-BufferHolds_example :
    (o' : CacheObject ℕ) × (write_loop plain 5 false three_bytes ≡ done (o', true))
    × BufferHolds o' (codes "abc")
    × (o'.stream ≡ 3)
    × (o'.buffer_size < 2 ^ 64)
    × (o'.state ≡ three_bytes.state)
unfolding new_object reset_buffer is_fine is_ok
write_loop-BufferHolds_example =
    write_loop-BufferHolds plain false 5 three_bytes [] 3 plain-alloc three_bytes-Deflates
      three_bytes-BufferHolds refl (omega arith) (omega arith) (omega arith)

-- A codec that leaves bytes as they are, whose `inflate` gives as many as there is room for.
abbrev pub copying : Zlib ℕ
copying = record plain {
  deflate_init = λ s. 0;
  inflate =
      λ s input avail. record { stream = s; code = z_ok; taken = avail; output = take avail input };
}

abbrev pub Uncopied : ℕ → Bytes → Bytes → Type 0
Uncopied s input text = input ≡ text

copying-Deflates :
    (flush : Bool) {s : ℕ} {input : Bytes} {calls s' : ℕ} {output : Bytes}
    → Deflates copying flush s input calls s' output
    → output ≡ input
copying-Deflates flush {s} {input} (last r e fine counts stop es eo) =
    eo ∙ ap (λ (x : ZStep ℕ). x.output) (sym e)
copying-Deflates flush {s} {input} (more r calls' rest e fine counts go d ec eo) =
    eo
    ∙ ap (◌++◌ r.output) (copying-Deflates flush d)
    ∙ ap (λ (x : ZStep ℕ). x.output ++ drop x.taken input) (sym e)
    ∙ ap (◌++◌ input) (drop-all (length input) input (omega arith))
    ∙ append-nil input

copying-Packs :
    (fuel s : ℕ) (parts : List Bytes) (packed : Bytes)
    → Packs copying fuel s parts packed
    → packed ≡ joined parts
copying-Packs fuel s parts packed (ended calls s' e d f w) =
    copying-Deflates true d ∙ ap joined (sym e)
copying-Packs fuel s parts packed (part p rest calls s' front back e b32 d f w others eb) =
    eb
    ∙ ap (λ x. x ++ back) (copying-Deflates false d)
    ∙ ap (◌++◌ p) (copying-Packs fuel s' rest back others)
    ∙ ap joined (sym e)

taken_whole :
    (n : ℕ) (input : Bytes)
    → (length (take n input) ≡ n) ⊎ ((drop n input ≡ []) × (drop n input ≡ []))
taken_whole n input = elim (dec_le n (length input)) [
  | yes le ↦ inl (omega (arith, length-take n input))
  | no all ↦ inr (drop-all n input (omega arith), drop-all n input (omega arith))
]

pub copying-IsLossless : IsLossless copying Uncopied
unfolding is_fatal
copying-IsLossless = record {
  fresh = λ s. refl;
  packed = λ fuel s t parts packed p. copying-Packs fuel 0 parts packed p;
  inflated = λ n pos s input text e.
      gives (drop n input) refl refl (sym e ∙ sym (take-append-drop n input))
        (omega (arith, length-take n input)) (taken_whole n input) refl;
}

abbrev pub two_parts : List Bytes
two_parts = codes "abc" ∷ codes "de" ∷ []

pub two_parts-Packs : (s : ℕ) → Packs copying 20 (deflater copying s) two_parts (codes "abcde")
unfolding is_fine is_ok
two_parts-Packs s =
    part (codes "abc") (codes "de" ∷ []) 0 3 (codes "abc") (codes "de") refl (omega arith)
      (last (plain_step 0 (codes "abc") false) refl refl refl refl refl refl) (omega arith)
      (omega arith)
      (part (codes "de") [] 0 5 (codes "de") [] refl (omega arith)
        (last (plain_step 3 (codes "de") false) refl refl refl refl refl refl) (omega arith)
        (omega arith)
        (ended 0 5 refl (last (plain_step 5 [] true) refl refl refl refl refl refl) (omega arith)
          (omega arith))
        refl)
      refl

pub new_object-IsIdle : IsIdle (new_object copying (codes "a"))
unfolding new_object reset_buffer
new_object-IsIdle = inl (refl, record { block = refl; allocated = refl; pos = refl; size = refl })

ReadsAll-write_parts_example :
    (o' : CacheObject ℕ) × (write_parts copying 20 two_parts (new_object copying (codes "a"))
      ≡ done o')
    × (u : CacheObject ℕ) × (pieces : List Bytes) × ReadsAll copying 20 2 o' pieces u
    × (joined pieces ≡ codes "abcde")
ReadsAll-write_parts_example =
    ReadsAll-write_parts copying Uncopied 20 2 two_parts (codes "abcde")
      (new_object copying (codes "a")) copying-IsLossless plain-alloc (omega arith) (omega arith)
      new_object-IsIdle two_parts-Packs (omega arith)
