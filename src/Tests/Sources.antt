-- ===== src/Tests/Sources.antt =====
-- Runs of src/FileStream.cpp and src/TidyStream.cpp at concrete inputs. The operating system, libtidy
-- and the stream inside are stood in for by functions.
use libkolibre_xmlreader.Base.{
  Option, joined, ap, ℕ, ◌≡◌, refl, Bool, true, false, none, some, List, [], ◌∷◌, ◌++◌, Bytes,
  codes, length, take, drop, arith,
}
use libkolibre_xmlreader.Base.Outcome.{Outcome, done, fault}
use libkolibre_xmlreader.Cache.Object.{new_object}
use libkolibre_xmlreader.Cache.Object.Write.{write_bytes}
use libkolibre_xmlreader.File.{Files, FileStream, new_file, use_file_cache, file_input}
use libkolibre_xmlreader.File.Whole.{chunks, IsReadable, pieces_of-new_file}
use libkolibre_xmlreader.Handler.{DataStreamHandler, get_cache_object}
use libkolibre_xmlreader.Http.Error.{read_failed}
use libkolibre_xmlreader.Stream.{Got, got, failed, InputStream, Serves}
use libkolibre_xmlreader.Tidy.{
  Libtidy, TidyStream, tidy, passthrough, present, new_tidy, perform, gather, read_tidy,
}
use libkolibre_xmlreader.Tidy.Pieces.{Gives, perform-Gives}
use libkolibre_xmlreader.Tidy.Modes.{new_tidy-short}
use libkolibre_xmlreader.Tidy.Faults.{broken, read_tidy-read_tidy}
use libkolibre_xmlreader.Tests.{plain}

-- An open file is what is still to be read of it; there is one file.
abbrev pub files : Files Bytes
files = record {
  size_of = λ name. some 5;
  size_error = λ name. [];
  fopen = λ name. some (codes "<a/>\n");
  open_error = λ name. [];
  read = λ f n. (drop n f, take n f);
  has_error = λ f. false;
  read_error = λ f. [];
}

abbrev pub Holds : Bytes → Bytes → Type 0
Holds f bytes = f ≡ bytes

pub files-IsReadable : IsReadable files Holds
files-IsReadable = record {
  reads = λ f bytes n e. ap (take n) e;
  moves = λ f bytes n e. ap (drop n) e;
  sound = λ f bytes e. refl;
}

pieces_of-new_file_example :
    (t : FileStream ℕ Bytes) × Serves
      (file_input plain files 9)
      2
      (use_file_cache true (new_file (codes "a.xml") none))
      (chunks 5 2 (codes "<a/>\n"))
      t
    × (joined (chunks 5 2 (codes "<a/>\n")) ≡ codes "<a/>\n")
    × (t.total_bytes_read ≡ length (codes "<a/>\n"))
pieces_of-new_file_example =
    pieces_of-new_file plain files Holds files-IsReadable 9 2 (codes "a.xml") (codes "<a/>\n") true
      5 (codes "<a/>\n") (omega arith) refl refl refl

-- What the calls of readBytes give, one after the other.
abbrev next_read : ℕ → List Got → Outcome (List Got × Got)
next_read n [] = done ([], got [])
next_read n (g ∷ rest) = done (rest, g)

abbrev scripted : InputStream (List Got)
scripted = record {
  read_bytes = next_read;
  use_cache = λ b s. s;
  error_msg = λ s. codes "gone";
  error_code = λ s. read_failed;
}

-- Puts an `!` behind the text.
abbrev libtidy : Libtidy Bytes
libtidy = record { parse = λ b. b; parsed = λ t. true; repair = λ t. t ++ codes "!"; save = λ t. t }

abbrev close : List Got → DataStreamHandler ℕ → Outcome (DataStreamHandler ℕ)
close s h = done h

abbrev handler : DataStreamHandler ℕ
handler = record {
  http_cache = [];
  heap = λ a. none;
  free_handles = [];
  multi = [];
  useragent = [];
  timeout = 0;
  debugmode = false;
}

abbrev page : Bytes
page = codes "http://a/b"

abbrev stream : List Got → TidyStream (List Got)
stream s = record (new_tidy page s) { mode = tidy; use_cache = false }

abbrev good : List Got
good = got (codes "<a>") ∷ got (codes "b") ∷ []

abbrev result :
    Outcome (TidyStream (List Got) × DataStreamHandler ℕ × Bool)
    → TidyStream (List Got) × DataStreamHandler ℕ
result (done (t, h, b)) = (t, h)
result _ = (stream [], handler)

abbrev performed : TidyStream (List Got) × DataStreamHandler ℕ
performed = result (perform plain libtidy scripted close 9 1 (present good) (stream good) handler)

perform-Gives_example :
    (s' : List Got) × (docbuf : Bytes) × (gather scripted 9 good [] ≡ done (s', some docbuf))
    × (h1 : DataStreamHandler ℕ) × (c : Option ℕ) × (close s' handler ≡ done h1)
    × (get_cache_object (stream good).url h1 ≡ done c)
    × Gives plain libtidy scripted close 9 1 3 docbuf c h1 performed.0 performed.1
unfolding perform new_tidy write_bytes new_object get_cache_object
perform-Gives_example =
    perform-Gives plain libtidy scripted close 9 1 3 good (stream good) handler performed.0
      performed.1 (omega arith) refl refl refl

new_tidy-short_example : (new_tidy (codes "a.hx") good).mode ≡ passthrough
new_tidy-short_example = new_tidy-short b'a' b'.' b'h' b'x' good

abbrev bad : List Got
bad = got (codes "<a>") ∷ failed ∷ []

read_tidy-read_tidy_example :
    (read_tidy plain libtidy scripted close 9 1 4 (stream bad) handler
      ≡ done (broken plain libtidy scripted close 9 1 [] (stream bad), handler, failed))
    × (read_tidy plain libtidy scripted close 9 1 5
          (broken plain libtidy scripted close 9 1 [] (stream bad))
          handler
        ≡ fault)
unfolding gather new_tidy
read_tidy-read_tidy_example =
    read_tidy-read_tidy plain libtidy scripted close 9 1 4 5 bad [] (stream bad) handler handler
      refl refl refl refl refl
