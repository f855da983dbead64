-- ===== src/Xml/Reader/Pieces.antt =====
-- What the loop of parse in src/XmlReader.cpp hands to libxml2, and how it ends.
use libkolibre_xmlreader.Base.{
  drop, starts_with, if◌then◌else◌, length-drop, le→leb, ℕ, zero, suc, ◌<◌, ◌≡◌, refl, ap, ◌∙◌,
  Bool, true, false, not, Option, some, List, [], ◌∷◌, Bytes, length, arith,
}
use libkolibre_xmlreader.Base.Outcome.{Outcome, done, ◌>>=◌}
use libkolibre_xmlreader.Stream.{IsLong, Serves, ends, serves}
use libkolibre_xmlreader.Xml.Sax.{Libxml, SaxHandler, XmlReader}
use libkolibre_xmlreader.Xml.Reader.{
  Source, parse_chunk, parse_loop, parse, unmarked, mark, after_read, after_mark, after_chunk,
  is_empty, Parsed,
}

module _ {A C : Type 0} (lib : Libxml C) (fuel : ℕ) (s : SaxHandler) where
  -- The pieces go to libxml2 one by one, in order, and each of them is parsed without an error code.
  pub data Feeds : List Bytes → XmlReader A → C → XmlReader A → C → Type 0 where
    fed : {r : XmlReader A} {c : C} → Feeds [] r c r c
    feeds :
        {piece : Bytes} {rest : List Bytes} {r r1 r2 : XmlReader A} {c c1 c2 : C}
        → parse_chunk lib fuel s piece r c ≡ done (r1, c1, 0)
        → Feeds rest r1 c1 r2 c2
        → Feeds (piece ∷ rest) r c r2 c2

module _ {A C S H : Type 0} (lib : Libxml C) (source : Source S H) (fuel : ℕ) (s : SaxHandler) where
  pub parse_loop-Feeds :
      (k : ℕ) (pieces : List Bytes) (x y : S × H) (r r' : XmlReader A) (c c' : C)
      → length pieces < k
      → Serves source.input 4096 x pieces y
      → Feeds lib fuel s pieces r c r' c'
      → parse_loop lib source fuel s k false x r c ≡ done (y, r', c', not r'.saw_error)
  unfolding parse_loop
  parse_loop-Feeds zero pieces x y r r' c c' le served f = absurd (omega arith)
  parse_loop-Feeds (suc k) [] x y r r' c c' le (ends e) fed =
      ap (λ w. w >>= after_read lib source fuel s (parse_loop lib source fuel s k) false r c) e
  parse_loop-Feeds (suc k) (piece ∷ rest) x y r r' c c' le (serves {t = t} e b served)
        (feeds {r1 = r1} {c1 = c1} p f) =
      ap (λ w. w >>= after_read lib source fuel s (parse_loop lib source fuel s k) false r c) e
      ∙ ap (λ w. w >>= after_chunk lib source fuel s (parse_loop lib source fuel s k) false t) p
      ∙ parse_loop-Feeds k rest t y r1 r' c1 c' (omega arith) served f

-- The pieces, less the mark at the front of the first of them.
abbrev pub without_mark : List Bytes → List Bytes
without_mark [] = []
without_mark (piece ∷ rest) = (if starts_with mark piece then drop 3 piece else piece) ∷ rest

-- How parse sets out.
abbrev pub cleared : {A : Type 0} → XmlReader A → XmlReader A
cleared r = record r { parser_stopped = false; saw_error = false; end_document_called = false }

pub unmarked-long :
    (piece : Bytes)
    → 2 < length piece
    → unmarked true piece ≡ (false, if starts_with mark piece then drop 3 piece else piece)
unmarked-long piece long =
    ap
      (λ (b : Bool).
        if b
        then (false, if starts_with mark piece then drop 3 piece else piece)
        else (true, piece))
      (le→leb 3 (length piece) (omega arith))

is_empty-pos : (bytes : Bytes) → 0 < length bytes → is_empty bytes ≡ false
is_empty-pos [] p = absurd (omega arith)
is_empty-pos (x ∷ xs) p = refl

left-pos :
    (piece : Bytes) (b : Bool) → 3 < length piece → 0 < length (if b then drop 3 piece else piece)
left-pos piece true long = omega (arith, length-drop 3 piece)
left-pos piece false long = omega arith

module _ {A C S H : Type 0} (lib : Libxml C) (source : Source S H) (fuel : ℕ) (s : SaxHandler) where
  -- A stream that ends without error is parsed to its end: when it gives pieces of at most 4096 bytes
  -- and then nothing, and libxml2 takes each of them without an error code, parse hands it just these
  -- pieces, in order, less a UTF-8 byte order mark at the front, uses up the stream, and returns true
  -- unless an error was recorded on the way. The first piece, if there is one, has to be longer than
  -- the mark, and the loop's bound above the number of pieces.
  pub parse-Feeds :
      (k : ℕ) (pieces : List Bytes) (x : S) (h : H) (y : S × H) (r r' : XmlReader A) (c c' : C)
      → IsLong pieces
      → length pieces < k
      → Serves source.input 4096 (source.input.use_cache r.use_cache (x, h)) pieces y
      → Feeds lib fuel s (without_mark pieces) (cleared r) c r' c'
      → parse lib source fuel s k (some x) h r c ≡ done (some y.0, y.1, r', c', not r'.saw_error)
  unfolding parse parse_loop
  parse-Feeds zero pieces x h y r r' c c' long le served f = absurd (omega arith)
  parse-Feeds (suc k) [] x h y r r' c c' long le (ends e) fed =
      ap
        (λ w.
          w
          >>= after_read lib source fuel s (parse_loop lib source fuel s k) true (cleared r) c
          >>= λ (x', r', c', b). done (some x'.0, x'.1, r', c', b))
        e
  parse-Feeds (suc k) (piece ∷ rest) x h y r r' c c' long le (serves {t = t} e b served)
        (feeds {r1 = r1} {c1 = c1} p f) =
      let left : Bytes = if starts_with mark piece then drop 3 piece else piece in
      ap (λ w. w >>= after_read lib source fuel s loop true (cleared r) c >>= out) e
      ∙ ap (λ w. after_mark lib source fuel s loop t (cleared r) c w >>= out)
          (unmarked-long piece (omega arith))
      ∙ ap
          (λ (b : Bool).
            elim b [
              | true ↦ done (t, cleared r, c, true)
              | false ↦
                  parse_chunk lib fuel s left (cleared r) c
                  >>= after_chunk lib source fuel s loop false t
            ]
            >>= out)
          (is_empty-pos left (left-pos piece (starts_with mark piece) long))
      ∙ ap (λ w. w >>= after_chunk lib source fuel s loop false t >>= out) p
      ∙ ap (λ w. w >>= out)
          (parse_loop-Feeds lib source fuel s k rest t y r1 r' c1 c' (omega arith) served f)
    where
      loop : Bool → S × H → XmlReader A → C → Outcome (Parsed A C S H)
      loop = parse_loop lib source fuel s k

      out : Parsed A C S H → Outcome (Option S × H × XmlReader A × C × Bool)
      out (x', r', c', b) = done (some x'.0, x'.1, r', c', b)
