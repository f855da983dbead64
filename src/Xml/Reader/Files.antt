-- ===== src/Xml/Reader/Files.antt =====
-- A parse of a file: parse of src/XmlReader.cpp over a stream of src/FileStream.cpp.
use libkolibre_xmlreader.Base.{
  ℕ, zero, suc, ◌≤◌, ◌<◌, ◌≡◌, ap, Bool, not, Option, none, some, List, [], ◌∷◌, Bytes, length,
  arith, length-take,
}
use libkolibre_xmlreader.Base.Outcome.{Outcome, done, ◌>>=◌}
use libkolibre_xmlreader.Cache.Zlib.{Zlib}
use libkolibre_xmlreader.File.{Files, FileStream, new_file, use_file_cache, file_input}
use libkolibre_xmlreader.File.Whole.{IsReadable, chunks, length-chunks, pieces_of-new_file}
use libkolibre_xmlreader.Stream.{InputStream, IsLong, Serves, ends, serves}
use libkolibre_xmlreader.Xml.Sax.{Libxml, SaxHandler, XmlReader}
use libkolibre_xmlreader.Xml.Reader.{Source, parse}
use libkolibre_xmlreader.Xml.Reader.Pieces.{Feeds, without_mark, cleared, parse-Feeds}

module _ {S H : Type 0} (i : InputStream S) where
  -- A stream that leaves the handler alone.
  abbrev pub beside : InputStream (S × H)
  beside = record {
    read_bytes = λ n (s, h). i.read_bytes n s >>= λ (s', g). done ((s', h), g);
    use_cache = λ b (s, h). (i.use_cache b s, h);
    error_msg = λ (s, h). i.error_msg s;
    error_code = λ (s, h). i.error_code s;
  }

  pub Serves-beside :
      (n : ℕ) (s t : S) (pieces : List Bytes) (h : H)
      → Serves i n s pieces t
      → Serves beside n (s, h) pieces (t, h)
  Serves-beside n s t [] h (ends e) = ends (ap (λ w. w >>= λ (s', g). done ((s', h), g)) e)
  Serves-beside n s t (piece ∷ rest) h (serves {t = u} e le served) =
      serves (ap (λ w. w >>= λ (s', g). done ((s', h), g)) e) le (Serves-beside n u t rest h served)

-- A document of more than three bytes has a first chunk of more than three.
chunks-IsLong :
    (m : ℕ) (bytes : Bytes) → length bytes ≤ m → 3 < length bytes → IsLong (chunks m 4096 bytes)
unfolding chunks
chunks-IsLong zero bytes le lt = absurd (omega arith)
chunks-IsLong (suc m) [] le lt = absurd (omega arith)
chunks-IsLong (suc m) (x ∷ xs) le lt = omega (arith, length-take 4096 (x ∷ xs))

-- A source of file streams, whatever makes and deletes them.
abbrev pub file_source :
    {Z F H : Type 0} (z : Zlib Z) (files : Files F) (fuel : ℕ)
    → (Bytes → Bool → H → Outcome (H × Option (FileStream Z F)))
    → (FileStream Z F → H → Outcome H)
    → Source (FileStream Z F) H
file_source z files fuel new_stream delete = record {
  new_stream = new_stream;
  input = beside (file_input z files fuel);
  delete = delete;
}

module _ {Z F A C H : Type 0} (z : Zlib Z) (files : Files F) (at : F → Bytes → Type 0)
    (readable : IsReadable files at) (lib : Libxml C) (fuel : ℕ) (s : SaxHandler)
    (new_stream : Bytes → Bool → H → Outcome (H × Option (FileStream Z F)))
    (delete : FileStream Z F → H → Outcome H) where
  -- A file that can be read is parsed whole: parse of a new stream for it hands libxml2 the chunks of
  -- 4096 bytes of its contents, in order, less a byte order mark at the front, and returns true unless
  -- an error was recorded on the way; it has then read each byte. The conditions are that the operating
  -- system opens and reads the file without error, that the contents are longer than the mark, that
  -- libxml2 takes each chunk without an error code, and that the loop's bound is above the length.
  pub parse-new_file :
      (k : ℕ) (name contents : Bytes) (size : ℕ) (f : F) (h : H) (r r' : XmlReader A) (c c' : C)
      → files.size_of name ≡ some size
      → files.fopen name ≡ some f
      → at f contents
      → 3 < length contents
      → length contents < k
      → Feeds lib fuel s (without_mark (chunks (length contents) 4096 contents)) (cleared r) c r' c'
      → (t : FileStream Z F) × (parse lib
            (file_source z files fuel new_stream delete)
            fuel
            s
            k
            (some (new_file name none))
            h
            r
            c
          ≡ done (some t, h, r', c', not r'.saw_error))
        × (t.total_bytes_read ≡ length contents)
  unfolding use_file_cache
  parse-new_file k name contents size f h r r' c c' there opens position long le feeding =
      let (t, served, _, total) =
        pieces_of-new_file z files at readable fuel 4096 name contents r.use_cache size f
          (omega arith) there opens position in
      (
        t,
        parse-Feeds lib (file_source z files fuel new_stream delete) fuel s k
            (chunks (length contents) 4096 contents) (new_file name none) h (t, h) r r' c c'
            (chunks-IsLong (length contents) contents (omega arith) long)
            (omega (arith, length-chunks (length contents) 4096 contents (omega arith), le))
            (Serves-beside (file_input z files fuel) 4096 _ t
              (chunks (length contents) 4096 contents) h served)
            feeding,
        total,
      )
